-- ===== src/Repl/Commit/Total.antt =====
-- A round of the commit loop returns, unless the state machine itself panics (leader.go: commitLoop).
use repository.Base.{
  ℕ, zero, suc, ◌+◌, ◌-◌, ◌≤◌, ◌<◌, ◌≡◌, ◌≢◌, refl, ap, ◌∙◌, List, [], ◌∷◌, ◌++◌, none, some,
  length, get_elem?-drop, take-suc, get_elem?, take, arith, Bool-cases, Option-cases, inl, inr,
}
use repository.Base.Int64.{Int64}
use repository.Base.Int64
use repository.Proto.{LogEntry}
use repository.Store.State.{new}
use repository.Repl.Applier.{apply_one, replay}
use repository.Repl.Leader.{Leader}
use repository.Repl.Commit.{Signal, record_applied, apply_from, compact, commit_round, new_commit}
use repository.Repl.Commit.Votes.{new_commit-Found}
use repository.Repl.Commit.Prefix.{Holds, last_index-length, replay-append_fault}
use repository.Repl.Commit.Rounds.{Reached, Reached-step, position, apply_from-step, apply_from-nil}
use repository.Repl.Commit.Refines.{commit_round-idle, commit_round-some}

-- No prefix of the log makes the state machine panic.
abbrev pub IsSafe : (Int64 → Int64) → List LogEntry → Type 0
IsSafe clock entries = (j : ℕ) → replay clock new (take j entries) ≢ none

get_elem?-some :
    (k : ℕ) (es : List LogEntry) → k < length es → (e : LogEntry) × (get_elem? es k ≡ some e)
get_elem?-some k [] h = absurd (omega arith)
get_elem?-some zero (e ∷ es) h = (e, refl)
get_elem?-some (suc k) (e ∷ es) h = get_elem?-some k es (omega arith)

-- The entry that the loop reads is the one after those applied.
Reached-read :
    (clock : Int64 → Int64) (l : Leader) (entries : List LogEntry) (k : ℕ) (idx : Int64)
    → idx ≡ k + 1
    → k < length entries
    → Reached clock l entries k
    → get_elem? l.log (position clock l 0 idx) ≡ get_elem? entries k
Reached-read clock l entries k idx at lt w =
    let place : position clock l 0 idx ≡ k - l.compact_index = omega (arith, w.few, w.compacted) in
    ap (get_elem? l.log) place
    ∙ ap (λ xs. get_elem? xs (k - l.compact_index)) w.window
    ∙ get_elem?-drop l.compact_index k entries w.compacted

apply_from_total :
    (clock : Int64 → Int64) (rounds : ℕ) (l : Leader) (entries : List LogEntry) (k : ℕ)
    (idx : Int64)
    → idx ≡ k + 1
    → k + rounds ≤ length entries
    → IsSafe clock entries
    → Reached clock l entries k
    → (l' : Leader) × (signals : List Signal) × (apply_from clock l rounds idx ≡ some (l', signals))
apply_from_total clock zero l entries k idx at fits safe w = (l, [], apply_from-nil clock l idx)
apply_from_total clock (suc rounds) l entries k idx at fits safe w =
    let (e, here) = get_elem?-some k entries (omega arith) in
    let h = Reached-read clock l entries k idx at (omega arith) w ∙ here in
    elim (Option-cases (apply_one (clock e.index) l.store e)) [
      | inl fault ↦ absurd (
          safe (suc k) (
            ap (replay clock new) (take-suc k entries e here)
            ∙ replay-append_fault clock (take k entries) new l.store e w.state fault))
      | inr ((r, s), a) ↦
          let (l', signals, f) =
            apply_from_total clock rounds (record_applied l idx r s).0 entries (suc k)
              (Int64.add idx 1) (omega (arith, at, w.few)) (omega arith) safe
              (Reached-step clock l entries k idx e r s at (omega arith) w h a) in
          (
            l',
            (record_applied l idx r s).1 ++ signals,
            apply_from-step clock l rounds idx e h r s a l' signals f,
          )
    ]

-- Where no prefix of the log makes the state machine panic, the round returns.
pub commit_round_total :
    (clock : Int64 → Int64) (l : Leader) (entries : List LogEntry)
    → IsSafe clock entries
    → Holds clock l entries
    → (l' : Leader) × (signals : List Signal) × (commit_round clock l ≡ some (l', signals))
commit_round_total clock l entries safe h =
    let last = last_index-length l entries h in
    let f = new_commit-Found l (omega (arith, last, h.committed)) (omega (arith, last, h.few)) in
    elim (Bool-cases (Int64.lt l.commit (new_commit l))) [
      | inr idle ↦ (l, [], commit_round-idle clock l idle)
      | inl moves ↦
          let (l₂, signals, a) =
            apply_from_total clock (new_commit l - l.commit) l entries l.commit
              (Int64.add l.commit 1) (omega (arith, h.few, h.committed))
              (omega (arith, last, f.within, f.not_back)) safe
              (record {
                few = h.few;
                window = h.window;
                compacted = h.compacted;
                state = h.state;
              }) in
          (
            compact (record l₂ { commit = new_commit l }),
            signals,
            commit_round-some clock l moves l₂ signals a,
          )
    ]
