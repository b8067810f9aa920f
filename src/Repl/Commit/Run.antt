-- ===== src/Repl/Commit/Run.antt =====
-- Every history of a leader: proposals, acknowledgements, disconnections, proposers that give up and
-- rounds of the commit loop, in any order.
use mathlib.Core.Path.{subst}
use repository.Base.{
  ℕ, ◌+◌, ◌^◌, ◌≤◌, ◌<◌, ◌≡◌, refl, ap, sym, ◌∙◌, List, [], ◌∷◌, ◌++◌, some, length, length-append,
  drop, take, arith,
}
use repository.Base.Int64.{Int64}
use repository.Proto.{LogEntry, Op, PbSnapshot}
use repository.Store.State.{Store, new}
use repository.Repl.Applier.{replay}
use repository.Repl.Replay.{replay-nil}
use repository.Repl.Leader.{
  Leader, Config, new_leader, set_snapshot_exporter, propose, give_up, follower_ack, follower_reset,
}
use repository.Repl.Commit.{Signal, commit_round}
use repository.Repl.Commit.Votes.{new_commit-Found}
use repository.Repl.Commit.Prefix.{Holds, proposal, propose-Holds, last_index-length}
use repository.Repl.Commit.Refines.{commit_round-Holds}

-- One call, with the entries proposed so far.
pub data Step (clock : Int64 → Int64)
    : Leader → List LogEntry → Leader → List LogEntry → Type 0 where
  proposes :
      {l l' : Leader} {entries entries' : List LogEntry} (op : Op) (index : Int64)
      → propose l op ≡ some (index, l')
      → entries' ≡ entries ++ proposal index op ∷ []
      → Step clock l entries l' entries'
  gives_up :
      {l l' : Leader} {entries : List LogEntry} (index : Int64)
      → l' ≡ give_up l index
      → Step clock l entries l' entries
  acks :
      {l l' : Leader} {entries : List LogEntry} (id : ℕ) (index : Int64)
      → l' ≡ follower_ack l id index
      → Step clock l entries l' entries
  resets :
      {l l' : Leader} {entries : List LogEntry} (id : ℕ)
      → l' ≡ follower_reset l id
      → Step clock l entries l' entries
  commits :
      {l l' : Leader} {entries : List LogEntry} (signals : List Signal)
      → commit_round clock l ≡ some (l', signals)
      → Step clock l entries l' entries

-- A leader's start: an empty log, and the snapshot exporter set.
abbrev pub start : Config → (Store → PbSnapshot) → Leader
start cfg f = set_snapshot_exporter (new_leader cfg new) f

pub data Reach (clock : Int64 → Int64) (l₀ : Leader) : Leader → List LogEntry → Type 0 where
  here : {l : Leader} {entries : List LogEntry} → l ≡ l₀ → entries ≡ [] → Reach clock l₀ l entries
  next :
      {l l' : Leader} {entries entries' : List LogEntry}
      → Reach clock l₀ l entries
      → Step clock l entries l' entries'
      → Reach clock l₀ l' entries'

Holds-start :
    (clock : Int64 → Int64) (cfg : Config) (f : Store → PbSnapshot) → Holds clock (start cfg f) []
Holds-start clock cfg f = record {
  few = omega arith;
  indexed = tt;
  window = refl;
  compacted = omega arith;
  committed = omega arith;
  applied = refl;
  state = replay-nil clock new;
}

-- Calls that touch neither the log nor the store.
record Keeps (l l' : Leader) : Type 0 where
  log : l'.log ≡ l.log
  compact_index : l'.compact_index ≡ l.compact_index
  commit : l'.commit ≡ l.commit
  applied : l'.applied ≡ l.applied
  store : l'.store ≡ l.store

Keeps-Holds :
    (clock : Int64 → Int64) (l l' : Leader) (entries : List LogEntry)
    → Keeps l l'
    → Holds clock l entries
    → Holds clock l' entries × (length entries ≤ length entries) × (l.commit ≤ l'.commit)
Keeps-Holds clock l l' entries k h = (
  record {
    few = h.few;
    indexed = h.indexed;
    window = k.log ∙ h.window ∙ ap (λ n. drop n entries) (sym k.compact_index);
    compacted = omega (arith, k.compact_index, k.commit, h.compacted);
    committed = omega (arith, k.commit, h.committed);
    applied = k.applied ∙ h.applied ∙ sym k.commit;
    state = ap (λ n. replay clock new (take n entries)) k.commit ∙ h.state ∙ ap some (sym k.store);
  },
  omega arith,
  omega (arith, k.commit),
)

Keeps-give_up : (l l' : Leader) (index : Int64) → l' ≡ give_up l index → Keeps l l'
unfolding give_up
Keeps-give_up l l' index e = ground arith

Keeps-follower_ack :
    (l l' : Leader) (id : ℕ) (index : Int64) → l' ≡ follower_ack l id index → Keeps l l'
unfolding follower_ack
Keeps-follower_ack l l' id index e = ground arith

Keeps-follower_reset : (l l' : Leader) (id : ℕ) → l' ≡ follower_reset l id → Keeps l l'
unfolding follower_reset
Keeps-follower_reset l l' id e = ground arith

propose-commit :
    (l l' : Leader) (op : Op) (index : Int64)
    → propose l op ≡ some (index, l')
    → l'.commit ≡ l.commit
unfolding propose
propose-commit l l' op index e = ground arith

pub Step-length :
    (clock : Int64 → Int64) {l l' : Leader} {entries entries' : List LogEntry}
    → Step clock l entries l' entries'
    → length entries ≤ length entries'
Step-length clock {entries = entries} (proposes op index e grown) =
    omega (arith, ap length grown, length-append entries (proposal index op ∷ []))
Step-length clock (gives_up index e) = omega arith
Step-length clock (acks id index e) = omega arith
Step-length clock (resets id e) = omega arith
Step-length clock (commits signals e) = omega arith

-- Each call keeps the invariant, loses no entry and takes no commit back.
pub Step-Holds :
    (clock : Int64 → Int64) {l l' : Leader} {entries entries' : List LogEntry}
    → Step clock l entries l' entries'
    → length entries' < 2 ^ 50
    → Holds clock l entries
    → Holds clock l' entries' × (length entries ≤ length entries') × (l.commit ≤ l'.commit)
Step-Holds clock {l} {l'} {entries} {entries'} (proposes op index e grown) few h =
    let longer : length entries' ≡ length entries + 1 =
      ap length grown ∙ length-append entries (proposal index op ∷ []) ∙ omega arith in
    let (_, h') = propose-Holds clock l l' op index entries (omega (arith, longer)) h e in
    (
      subst (Holds clock l') (sym grown) h',
      omega (arith, longer),
      omega (arith, propose-commit l l' op index e),
    )
Step-Holds clock {l} {l'} {entries} (gives_up index e) few h =
    Keeps-Holds clock l l' entries (Keeps-give_up l l' index e) h
Step-Holds clock {l} {l'} {entries} (acks id index e) few h =
    Keeps-Holds clock l l' entries (Keeps-follower_ack l l' id index e) h
Step-Holds clock {l} {l'} {entries} (resets id e) few h =
    Keeps-Holds clock l l' entries (Keeps-follower_reset l l' id e) h
Step-Holds clock {l} {l'} {entries} (commits signals e) few h =
    let (h', at) = commit_round-Holds clock l l' entries signals h e in
    let last = last_index-length l entries h in
    let f = new_commit-Found l (omega (arith, last, h.committed)) (omega (arith, last, h.few)) in
    (h', omega arith, omega (arith, at, f.not_back))

-- In every state that a leader can reach its store is the replay of exactly the first `commit` of the
-- entries that were proposed, the k-th of which has index k; the log keeps all of them from the
-- truncation point on, and what was truncated is committed.
pub Reach-Holds :
    (clock : Int64 → Int64) (cfg : Config) (f : Store → PbSnapshot) {l : Leader}
    {entries : List LogEntry}
    → Reach clock (start cfg f) l entries
    → length entries < 2 ^ 50
    → Holds clock l entries
Reach-Holds clock cfg f {l} {entries} (here at none_yet) few =
    subst (λ x. Holds clock x entries) (sym at)
      (subst (Holds clock (start cfg f)) (sym none_yet) (Holds-start clock cfg f))
Reach-Holds clock cfg f (next r s) few =
    (Step-Holds clock s few (Reach-Holds clock cfg f r (omega (arith, Step-length clock s, few)))).0
