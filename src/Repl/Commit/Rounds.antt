-- ===== src/Repl/Commit/Rounds.antt =====
-- A round of the commit loop keeps the leader's store the replay of the committed entries
-- (leader.go: commitLoop, compactLocked).
use mathlib.Core.Path.{subst}
use native.Mathlib.Decide.{dec_lt}
use repository.Base.{
  ℕ, zero, suc, ◌+◌, ◌-◌, ◌^◌, ◌≤◌, ◌<◌, ◌≡◌, refl, ap, sym, ◌∙◌, List, [], ◌++◌, none, some,
  length, get_elem?-drop, take-suc, get_elem?, drop, take, arith, Option-cases, inl, inr,
  eq_of_some-eq, nat_comparable,
}
use repository.Base.Int64.{Int64}
use repository.Base.Int64
use repository.Proto.{LogEntry}
use repository.Store.State.{Store, new}
use repository.Repl.Applier.{Applied, apply_one, replay}
use repository.Repl.Leader.{Leader}
use repository.Repl.Commit.{Signal, record_applied, apply_from}
use repository.Repl.Commit.Prefix.{replay-append}

-- Only the store and the waiters change while entries are applied.
pub record Same (l l' : Leader) : Type 0 where
  pub log : l'.log ≡ l.log
  pub compact_index : l'.compact_index ≡ l.compact_index
  pub commit : l'.commit ≡ l.commit
  pub cfg : l'.cfg ≡ l.cfg
  pub acked : l'.acked ≡ l.acked
  pub saved_snap : l'.saved_snap ≡ l.saved_snap
  pub export_snapshot : l'.export_snapshot ≡ l.export_snapshot

pub record_applied-Same :
    (l : Leader) (idx : Int64) (r : Applied) (s : Store)
    → Same l (record_applied l idx r s).0
      × ((record_applied l idx r s).0.store ≡ s)
      × ((record_applied l idx r s).0.applied ≡ idx)
unfolding record_applied
record_applied-Same l idx r s = ground arith

-- After `k` entries have been applied.
pub record Reached (clock : Int64 → Int64) (l : Leader) (entries : List LogEntry) (k : ℕ)
    : Type 0 where
  pub few : length entries < 2 ^ 50
  pub window : l.log ≡ drop l.compact_index entries
  pub compacted : l.compact_index ≤ k
  pub state : replay clock new (take k entries) ≡ some l.store

module _ (clock : Int64 → Int64) (l : Leader) (rounds : ℕ) (idx : Int64) where
  abbrev pub position : ℕ
  position = Int64.sub (Int64.sub idx 1) l.compact_index

  apply_from-out : get_elem? l.log position ≡ none → apply_from clock l (suc rounds) idx ≡ none
  unfolding apply_from
  apply_from-out h = rw (h, apply_from)

  module _ (e : LogEntry) (h : get_elem? l.log position ≡ some e) where
    apply_from-fault :
        apply_one (clock e.index) l.store e ≡ none → apply_from clock l (suc rounds) idx ≡ none
    unfolding apply_from
    apply_from-fault a = rw (h, a, apply_from)

    module _ (r : Applied) (s : Store) (a : apply_one (clock e.index) l.store e ≡ some (r, s)) where
      abbrev pub l₁ : Leader
      l₁ = (record_applied l idx r s).0

      apply_from-rest_fault :
          apply_from clock l₁ rounds (Int64.add idx 1) ≡ none
          → apply_from clock l (suc rounds) idx ≡ none
      unfolding apply_from
      apply_from-rest_fault f = rw (h, a, apply_from) (rw (f, apply_from))

      pub apply_from-step :
          (l' : Leader) (rest : List Signal)
          → apply_from clock l₁ rounds (Int64.add idx 1) ≡ some (l', rest)
          → apply_from clock l (suc rounds) idx ≡ some (l', (record_applied l idx r s).1 ++ rest)
      unfolding apply_from
      apply_from-step l' rest f = rw (h, a, apply_from) (rw (f, apply_from))

pub Reached-step :
    (clock : Int64 → Int64) (l : Leader) (entries : List LogEntry) (k : ℕ) (idx : Int64)
    (e : LogEntry) (r : Applied) (s : Store)
    → idx ≡ k + 1
    → k < length entries
    → Reached clock l entries k
    → get_elem? l.log (position clock l 0 idx) ≡ some e
    → apply_one (clock e.index) l.store e ≡ some (r, s)
    → Reached clock (record_applied l idx r s).0 entries (suc k)
Reached-step clock l entries k idx e r s at lt w h a =
    let (same, stored, _) = record_applied-Same l idx r s in
    let place : position clock l 0 idx ≡ k - l.compact_index = omega (arith, w.few, w.compacted) in
    let here : get_elem? entries k ≡ some e =
      sym (get_elem?-drop l.compact_index k entries w.compacted)
      ∙ ap (λ xs. get_elem? xs (k - l.compact_index)) (sym w.window)
      ∙ ap (get_elem? l.log) (sym place)
      ∙ h in
    record {
      few = w.few;
      window = same.log ∙ w.window ∙ ap (λ n. drop n entries) (sym same.compact_index);
      compacted = omega (arith, same.compact_index, w.compacted);
      state =
          ap (replay clock new) (take-suc k entries e here)
          ∙ replay-append clock (take k entries) new l.store s e r w.state a
          ∙ ap some (sym stored);
    }

-- After a run of the loop.
pub record After (clock : Int64 → Int64) (l : Leader) (entries : List LogEntry) (rounds top : ℕ)
    (l' : Leader) : Type 0 where
  pub reached : Reached clock l' entries top
  pub same : Same l l'
  pub moved : 0 < rounds → l'.applied ≡ top
  pub still : rounds ≡ 0 → l'.applied ≡ l.applied

pub apply_from-nil :
    (clock : Int64 → Int64) (l : Leader) (idx : Int64) → apply_from clock l 0 idx ≡ some (l, [])
unfolding apply_from
apply_from-nil clock l idx = refl

After-nil :
    (clock : Int64 → Int64) (l : Leader) (entries : List LogEntry) (k : ℕ)
    → Reached clock l entries k
    → After clock l entries 0 (k + 0) l
After-nil clock l entries k w = record {
  reached = let z : k ≡ k + 0 = omega arith in subst (Reached clock l entries) z w;
  same = record {
    log = refl;
    compact_index = refl;
    commit = refl;
    cfg = refl;
    acked = refl;
    saved_snap = refl;
    export_snapshot = refl;
  };
  moved = λ h. absurd (omega arith);
  still = λ _. refl;
}

After-cons :
    (clock : Int64 → Int64) (l : Leader) (entries : List LogEntry) (rounds k : ℕ) (idx : Int64)
    (r : Applied) (s : Store) (l' : Leader)
    → idx ≡ k + 1
    → After clock (record_applied l idx r s).0 entries rounds (suc k + rounds) l'
    → After clock l entries (suc rounds) (k + suc rounds) l'
After-cons clock l entries rounds k idx r s l' at w =
    let (one, _, idx_applied) = record_applied-Same l idx r s in
    let top : suc k + rounds ≡ k + suc rounds = omega arith in
    record {
      reached = subst (Reached clock l' entries) top w.reached;
      same = record {
        log = w.same.log ∙ one.log;
        compact_index = w.same.compact_index ∙ one.compact_index;
        commit = w.same.commit ∙ one.commit;
        cfg = w.same.cfg ∙ one.cfg;
        acked = w.same.acked ∙ one.acked;
        saved_snap = w.same.saved_snap ∙ one.saved_snap;
        export_snapshot = w.same.export_snapshot ∙ one.export_snapshot;
      };
      moved = λ _. elim (dec_lt 0 rounds) [
        | yes more ↦ w.moved more ∙ top
        | no last ↦ w.still (omega arith) ∙ idx_applied ∙ omega arith
      ];
      still = λ h. absurd (omega arith);
    }

pub apply_from-After :
    (clock : Int64 → Int64) (rounds : ℕ) (l l' : Leader) (entries : List LogEntry) (k : ℕ)
    (idx : Int64) (signals : List Signal)
    → idx ≡ k + 1
    → k + rounds ≤ length entries
    → Reached clock l entries k
    → apply_from clock l rounds idx ≡ some (l', signals)
    → After clock l entries rounds (k + rounds) l'
apply_from-After clock zero l l' entries k idx signals at fits w e =
    let same : ◌≡◌ {A = Leader × List Signal} (l, []) (l', signals) =
      eq_of_some-eq (sym (apply_from-nil clock l idx) ∙ e) in
    subst (λ q. After clock l entries 0 (k + 0) q.0) same (After-nil clock l entries k w)
apply_from-After clock (suc rounds) l l' entries k idx signals at fits w e =
    elim (Option-cases (get_elem? l.log (position clock l rounds idx))) [
      | inl out ↦ cc (apply_from-out clock l rounds idx out)
      | inr (en, h) ↦ elim (Option-cases (apply_one (clock en.index) l.store en)) [
        | inl fault ↦ cc (apply_from-fault clock l rounds idx en h fault)
        | inr ((r, s), a) ↦
            elim (Option-cases
              (apply_from clock (record_applied l idx r s).0 rounds (Int64.add idx 1))) [
                | inl fault ↦ cc (apply_from-rest_fault clock l rounds idx en h r s a fault)
                | inr ((l'', rest), f) ↦
                    let same =
                      eq_of_some-eq
                        (sym (apply_from-step clock l rounds idx en h r s a l'' rest f) ∙ e) in
                    subst (λ q. After clock l entries (suc rounds) (k + suc rounds) q.0) same
                      (After-cons clock l entries rounds k idx r s l'' at (
                        apply_from-After clock rounds (record_applied l idx r s).0 l'' entries
                          (suc k) (Int64.add idx 1) rest (omega (arith, at, w.few)) (omega arith)
                          (Reached-step clock l entries k idx en r s at (omega arith) w h a) f))
              ]
      ]
    ]
