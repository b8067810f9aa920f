-- ===== src/Repl/Applier.antt =====
-- A log entry applied to the store (repl.go: StoreApplier, applyOne, Quorum). A result of `none` is
-- a panic.
use repository.Base.{ℕ, ◌+◌, ◌/◌, Bool, false, List, [], ◌∷◌, Option, none, some}
use repository.Base.Int64.{Int64}
use repository.Proto.{
  KeyValue, Instance, LogEntry, Op, PbSnapshot, empty, put, delete, register, heartbeat,
  expire_keys, expire_services,
}
use repository.Store.State.{Store, StoreError, Result, ok, err}
use repository.Store.Apply.{apply_put, apply_delete, apply_expire_keys}
use repository.Store.Registry.{apply_register, apply_heartbeat, apply_expire_services}
use repository.Store.Snapshot.{restore_snapshot, snapshot_from_proto}

-- `Result` of leader.go: what an entry gives to its proposer.
pub record Applied : Type 0 where
  pub kv : Option KeyValue
  pub inst : Option Instance
  pub found : Bool
  pub error : Option StoreError

abbrev pub nothing : Applied
nothing = record { kv = none; inst = none; found = false; error = none }

abbrev pub of_put : Result KeyValue → Applied
of_put (ok kv) = record nothing { kv = some kv }
of_put (err e) = record nothing { error = some e }

abbrev pub of_delete : Result Bool → Applied
of_delete (ok b) = record nothing { found = b }
of_delete (err e) = record nothing { error = some e }

abbrev pub of_heartbeat : Result Instance → Applied
of_heartbeat (ok inst) = record nothing { inst = some inst }
of_heartbeat (err e) = record nothing { error = some e }

-- `StoreApplier.AppliedIndex`
abbrev pub applied_index : Store → Int64
applied_index s = s.rev

-- `StoreApplier.ApplySnapshot`
unfoldable pub apply_snapshot : Store → PbSnapshot → Store
apply_snapshot s snap = restore_snapshot s (snapshot_from_proto snap)

unfoldable pub apply_op : Int64 → Store → Int64 → Op → Option (Applied × Store)
apply_op now s index empty = some (nothing, s)
apply_op now s index (put op) = elim (apply_put now s index op) [
  | none ↦ none
  | some (r, s') ↦ some (of_put r, s')
]
apply_op now s index (delete op) = elim (apply_delete now s index op) [
  | none ↦ none
  | some (r, s') ↦ some (of_delete r, s')
]
apply_op now s index (register op) =
    let (inst, s') = apply_register s index op in some (record nothing { inst = some inst }, s')
apply_op now s index (heartbeat op) =
    let (r, s') = apply_heartbeat now s index op in some (of_heartbeat r, s')
apply_op now s index (expire_keys items) = elim (apply_expire_keys s index items) [
  | none ↦ none
  | some s' ↦ some (nothing, s')
]
apply_op now s index (expire_services items) = some (nothing, apply_expire_services s index items)

-- `applyOne`
abbrev pub apply_one : Int64 → Store → LogEntry → Option (Applied × Store)
apply_one now s e = apply_op now s e.index e.op

-- The store after a run of entries, each applied at its own time.
unfoldable pub replay : (Int64 → Int64) → Store → List LogEntry → Option Store
replay clock s [] = some s
replay clock s (e ∷ es) = elim (apply_one (clock e.index) s e) [
  | none ↦ none
  | some (r, s') ↦ replay clock s' es
]

-- `Quorum`
unfoldable pub quorum : ℕ → ℕ
quorum n = n / 2 + 1
