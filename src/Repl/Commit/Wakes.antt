-- ===== src/Repl/Commit/Wakes.antt =====
-- The commit loop against the signals that start its rounds (leader.go: commitLoop, wake, Propose,
-- FollowerAck, FollowerReset).
use mathlib.Core.Path.{subst}
use repository.Base.{
  if_either, leb, ◌||◌, ℕ, suc, ◌*◌, ◌^◌, ◌≤◌, ◌<◌, ◌≡◌, refl, ap, sym, ◌∙◌, Bool, true, false,
  List, [], ◌∷◌, ◌++◌, some, length, arith, ◌⊎◌, inl, inr, nat_comparable,
}
use repository.Base.Int64.{Int64}
use repository.Base.Int64
use repository.Proto.{LogEntry, Op, PbSnapshot}
use repository.Store.State.{Store}
use repository.Repl.Leader.{
  Leader, Config, propose, give_up, follower_ack, follower_reset, last_index, votes, match_of, wake,
}
use repository.Repl.Commit.{Signal, commit_round, compact, new_commit, retain_entries}
use repository.Repl.Commit.Votes.{new_commit_majority}
use repository.Repl.Commit.Prefix.{Holds, proposal, last_index-length}
use repository.Repl.Commit.Refines.{commit_round-Holds, commit_round-cases}
use repository.Repl.Commit.Run
use repository.Repl.Commit.Run.{Step-Holds, Step-length}

-- The leader, whether a signal waits in `wakeCh`, whether the loop has taken one whose round is still
-- to come, and how many callers have changed the leader and not woken the loop yet.
pub record Loop : Type 0 where
  pub leader : Leader
  pub waiting : Bool
  pub taken : Bool
  pub owed : ℕ

abbrev pub start : Config → (Store → PbSnapshot) → Loop
start cfg f = record { leader = Run.start cfg f; waiting = false; taken = false; owed = 0 }

abbrev changed : Loop → Leader → Loop
changed x l = record x { leader = l; owed = suc x.owed }

pub data Step (clock : Int64 → Int64) : Loop → List LogEntry → Loop → List LogEntry → Type 0 where
  proposes :
      {x x' : Loop} {entries entries' : List LogEntry} (op : Op) (index : Int64) (l' : Leader)
      → propose x.leader op ≡ some (index, l')
      → x' ≡ changed x l'
      → entries' ≡ entries ++ proposal index op ∷ []
      → Step clock x entries x' entries'
  acks :
      {x x' : Loop} {entries : List LogEntry} (id : ℕ) (index : Int64)
      → x' ≡ changed x (follower_ack x.leader id index)
      → Step clock x entries x' entries
  resets :
      {x x' : Loop} {entries : List LogEntry} (id : ℕ)
      → x' ≡ changed x (follower_reset x.leader id)
      → Step clock x entries x' entries
  gives_up :
      {x x' : Loop} {entries : List LogEntry} (index : Int64)
      → x' ≡ record x { leader = give_up x.leader index }
      → Step clock x entries x' entries
  wakes :
      {x x' : Loop} {entries : List LogEntry} (n : ℕ)
      → x.owed ≡ suc n
      → x' ≡ record x { waiting = wake x.waiting; owed = n }
      → Step clock x entries x' entries
  takes :
      {x x' : Loop} {entries : List LogEntry}
      → x.waiting ≡ true
      → x.taken ≡ false
      → x' ≡ record x { waiting = false; taken = true }
      → Step clock x entries x' entries
  rounds :
      {x x' : Loop} {entries : List LogEntry} (l' : Leader) (signals : List Signal)
      → x.taken ≡ true
      → commit_round clock x.leader ≡ some (l', signals)
      → x' ≡ record x { leader = l'; taken = false }
      → Step clock x entries x' entries

pub data Reach (clock : Int64 → Int64) (x₀ : Loop) : Loop → List LogEntry → Type 0 where
  here : {x : Loop} {entries : List LogEntry} → x ≡ x₀ → entries ≡ [] → Reach clock x₀ x entries
  next :
      {x x' : Loop} {entries entries' : List LogEntry}
      → Reach clock x₀ x entries
      → Step clock x entries x' entries'
      → Reach clock x₀ x' entries'

-- A leader that counts the same votes.
record Polls (l l' : Leader) : Type 0 where
  cfg : l'.cfg ≡ l.cfg
  acked : l'.acked ≡ l.acked

Polls-refl : (l : Leader) → Polls l l
Polls-refl l = record { cfg = refl; acked = refl }

compact-Polls : (l : Leader) → Polls l (compact l)
unfolding compact
compact-Polls l =
    if_either (Polls l) (leb (length l.log) retain_entries || Int64.le l.commit l.compact_index) _ _
      (Polls-refl l) (record { cfg = refl; acked = refl })

Polls-votes : (l l' : Leader) (i : Int64) → Polls l l' → votes l' i ≡ votes l i
unfolding votes match_of
Polls-votes l l' i p = rw (p.cfg, p.acked) refl

-- No index after the commit has the acknowledgement of a majority.
abbrev Settled : Leader → Type 0
Settled l = (i : Int64) → l.commit < i → i ≤ last_index l → votes l i * 2 ≤ length l.cfg.node_addrs

commit_round-Polls :
    (clock : Int64 → Int64) (l l' : Leader) (entries : List LogEntry) (signals : List Signal)
    → Holds clock l entries
    → commit_round clock l ≡ some (l', signals)
    → Polls l l'
commit_round-Polls clock l l' entries signals h e =
    elim (commit_round-cases clock l l' entries signals h e) [
      | inl (same, at) ↦ record { cfg = ap (λ x. x.cfg) same; acked = ap (λ x. x.acked) same }
      | inr (l₁, same, lt, le, after) ↦
          let p = compact-Polls (record l₁ { commit = new_commit l }) in
          record {
            cfg = ap (λ x. x.cfg) same ∙ p.cfg ∙ after.same.cfg;
            acked = ap (λ x. x.acked) same ∙ p.acked ∙ after.same.acked;
          }
    ]

commit_round-Settled :
    (clock : Int64 → Int64) (l l' : Leader) (entries : List LogEntry) (signals : List Signal)
    → Holds clock l entries
    → commit_round clock l ≡ some (l', signals)
    → Settled l'
commit_round-Settled clock l l' entries signals h e i above within =
    let (h', at) = commit_round-Holds clock l l' entries signals h e in
    let p = commit_round-Polls clock l l' entries signals h e in
    let last = last_index-length l entries h in
    let last' = last_index-length l' entries h' in
    let (back, inside, cases) =
      new_commit_majority l i (omega (arith, last, h.committed)) (omega (arith, last, h.few)) in
    let same = Polls-votes l l' i p in
    let nodes : length l'.cfg.node_addrs ≡ length l.cfg.node_addrs =
      ap (λ c. length c.node_addrs) p.cfg in
    elim cases [
      | inl old ↦ absurd (omega (arith, old, above, at, back))
      | inr (inl (new, covered, many)) ↦ absurd (omega (arith, covered, above, at))
      | inr (inr (inl (beyond, upto, short))) ↦ omega (arith, same, nodes, short)
      | inr (inr (inr outside)) ↦ absurd (omega (arith, outside, within, last, last'))
    ]

-- A round is to come, or nothing is left for it to do.
abbrev Awake : Loop → Type 0
Awake x = (x.waiting ≡ true) ⊎ (x.taken ≡ true) ⊎ (0 < x.owed) ⊎ Settled x.leader

-- The leader's own step behind one of the loop's.
call_of :
    (clock : Int64 → Int64) {x x' : Loop} {entries entries' : List LogEntry}
    → Step clock x entries x' entries'
    → Run.Step clock x.leader entries x'.leader entries'
      ⊎ ((x'.leader ≡ x.leader) × (entries' ≡ entries))
call_of clock (proposes op index l' e same grown) =
    inl (Run.proposes op index (rw (ap (λ y. y.leader) same) e) grown)
call_of clock (acks id index same) = inl (Run.acks id index (ap (λ y. y.leader) same))
call_of clock (resets id same) = inl (Run.resets id (ap (λ y. y.leader) same))
call_of clock (gives_up index same) = inl (Run.gives_up index (ap (λ y. y.leader) same))
call_of clock (wakes n owed same) = inr (ap (λ y. y.leader) same, refl)
call_of clock (takes waits free same) = inr (ap (λ y. y.leader) same, refl)
call_of clock (rounds l' signals taken e same) =
    inl (Run.commits signals (rw (ap (λ y. y.leader) same) e))

Step-longer :
    (clock : Int64 → Int64) {x x' : Loop} {entries entries' : List LogEntry}
    → Step clock x entries x' entries'
    → length entries ≤ length entries'
Step-longer clock s = elim (call_of clock s) [
  | inl call ↦ Step-length clock call
  | inr (_, still) ↦ omega (arith, ap length still)
]

Loop-Holds :
    (clock : Int64 → Int64) {x x' : Loop} {entries entries' : List LogEntry}
    → Step clock x entries x' entries'
    → length entries' < 2 ^ 50
    → Holds clock x.leader entries
    → Holds clock x'.leader entries'
Loop-Holds clock {x} {x'} {entries} {entries'} s few h = elim (call_of clock s) [
  | inl call ↦ (Step-Holds clock call few h).0
  | inr (same, still) ↦
      subst (λ l. Holds clock l entries') (sym same) (subst (Holds clock x.leader) (sym still) h)
]

give_up-Settled : (l : Leader) (index : Int64) → Settled l → Settled (give_up l index)
unfolding give_up votes match_of last_index
give_up-Settled l index h = h

Loop-Awake :
    (clock : Int64 → Int64) {x x' : Loop} {entries entries' : List LogEntry}
    → Step clock x entries x' entries'
    → Holds clock x.leader entries
    → Awake x
    → Awake x'
Loop-Awake clock {x} (proposes op index l' e same grown) h a =
    subst Awake (sym same) (inr (inr (inl (omega arith))))
Loop-Awake clock {x} (acks id index same) h a =
    subst Awake (sym same) (inr (inr (inl (omega arith))))
Loop-Awake clock {x} (resets id same) h a = subst Awake (sym same) (inr (inr (inl (omega arith))))
Loop-Awake clock {x} (gives_up index same) h a = subst Awake (sym same) (elim a [
  | inl waits ↦ inl waits
  | inr (inl taken) ↦ inr (inl taken)
  | inr (inr (inl owed)) ↦ inr (inr (inl owed))
  | inr (inr (inr settled)) ↦ inr (inr (inr (give_up-Settled x.leader index settled)))
])
Loop-Awake clock {x} (wakes n owed same) h a = subst Awake (sym same) (inl refl)
Loop-Awake clock {x} (takes waits free same) h a = subst Awake (sym same) (inr (inl refl))
Loop-Awake clock {x} {entries = entries} (rounds l' signals taken e same) h a =
    subst Awake (sym same)
      (inr (inr (inr (commit_round-Settled clock x.leader l' entries signals h e))))

start-Settled : (cfg : Config) (f : Store → PbSnapshot) → Settled (Run.start cfg f)
unfolding last_index
start-Settled cfg f i above within = absurd (omega (arith, above, within))

Reach-Awake :
    (clock : Int64 → Int64) (cfg : Config) (f : Store → PbSnapshot) {x : Loop}
    {entries : List LogEntry}
    → Reach clock (start cfg f) x entries
    → length entries < 2 ^ 50
    → Holds clock x.leader entries × Awake x
Reach-Awake clock cfg f {x} {entries} (here at none_yet) few = (
  Run.Reach-Holds clock cfg f (Run.here (ap (λ y. y.leader) at) none_yet) few,
  subst Awake (sym at) (inr (inr (inr (start-Settled cfg f)))),
)
Reach-Awake clock cfg f (next r s) few =
    let (h, a) = Reach-Awake clock cfg f r (omega (arith, Step-longer clock s, few)) in
    (Loop-Holds clock s few h, Loop-Awake clock s h a)

-- In every run of a leader from its start, if the commit loop waits, no signal waits for it and no
-- caller has still to wake it, then no majority has acknowledged any entry after the commit index.
pub Reach-votes :
    (clock : Int64 → Int64) (cfg : Config) (f : Store → PbSnapshot) {x : Loop}
    {entries : List LogEntry} (i : Int64)
    → Reach clock (start cfg f) x entries
    → length entries < 2 ^ 50
    → x.waiting ≡ false
    → x.taken ≡ false
    → x.owed ≡ 0
    → x.leader.commit < i
    → i ≤ last_index x.leader
    → votes x.leader i * 2 ≤ length x.leader.cfg.node_addrs
Reach-votes clock cfg f i r few quiet free paid above within =
    elim (Reach-Awake clock cfg f r few).1 [
      | inl waits ↦ cc
      | inr (inl taken) ↦ cc
      | inr (inr (inl owed)) ↦ absurd (omega (arith, owed, paid))
      | inr (inr (inr settled)) ↦ settled i above within
    ]
