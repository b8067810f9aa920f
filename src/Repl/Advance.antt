-- ===== src/Repl/Advance.antt =====
-- The index that a log entry takes a store to (repl.go: applyOne).
use repository.Base.{◌≡◌, ◌≢◌, refl, some, arith, Option-cases, inl, inr}
use repository.Base.Int64.{Int64}
use repository.Proto.{Op, empty, put, delete, register, heartbeat, expire_keys, expire_services}
use repository.Store.State.{Store}
use repository.Store.Apply.{apply_put, apply_delete, apply_expire_keys, expire_items, begin_entry}
use repository.Store.Apply.Expiry.{rev-expire_items}
use repository.Store.Log.Writes.{rev-apply_put, rev-apply_delete}
use repository.Store.Registry.{apply_register, apply_heartbeat, apply_expire_services, fanout_svc}
use repository.Repl.Applier.{Applied, apply_op}

-- An entry that is set takes the store to its index.
pub rev-apply_op :
    (now : Int64) (s : Store) (index : Int64) (op : Op) (r : Applied) (s' : Store)
    → op ≢ empty
    → apply_op now s index op ≡ some (r, s')
    → s'.rev ≡ index
unfolding apply_op apply_register apply_heartbeat apply_expire_services fanout_svc apply_expire_keys
rev-apply_op now s index empty r s' set e = absurd (set refl)
rev-apply_op now s index (put op) r s' set e = elim (Option-cases (apply_put now s index op)) [
  | inl fault ↦ ground arith
  | inr ((res, s₁), step) ↦ ground (arith, rev-apply_put now s index op res s₁)
]
rev-apply_op now s index (delete op) r s' set e =
    elim (Option-cases (apply_delete now s index op)) [
      | inl fault ↦ ground arith
      | inr ((res, s₁), step) ↦ ground (arith, rev-apply_delete now s index op res s₁)
    ]
rev-apply_op now s index (expire_keys items) r s' set e =
    elim (Option-cases (expire_items index (begin_entry s index) items)) [
      | inl fault ↦ ground arith
      | inr (s₁, step) ↦ ground (arith, rev-expire_items index items (begin_entry s index) s₁)
    ]
rev-apply_op now s index (register op) r s' set e = ground arith
rev-apply_op now s index (heartbeat op) r s' set e = ground arith
rev-apply_op now s index (expire_services items) r s' set e = ground arith
