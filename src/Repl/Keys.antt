-- ===== src/Repl/Keys.antt =====
-- The keys of a replica stand once each (repl.go: applyOne).
use repository.Base.{
  ◌≡◌, sym, ◌∙◌, List, [], ◌∷◌, some, arith, Option-cases, inl, inr, eq_of_some-eq,
}
use mathlib.Core.Path.{subst}
use repository.Base.Int64.{Int64}
use repository.Base.Dict.{IsUnique}
use repository.Proto.{
  Op, LogEntry, empty, put, delete, register, heartbeat, expire_keys, expire_services,
}
use repository.Store.State.{Store, map_key_comparable}
use repository.Store.Apply.{apply_put, apply_delete, apply_expire_keys}
use repository.Store.Apply.Keys.{
  apply_put-IsUnique, apply_delete-IsUnique, apply_expire_keys-IsUnique,
}
use repository.Store.Registry.{apply_register, apply_heartbeat, apply_expire_services, fanout_svc}
use repository.Repl.Applier.{Applied, apply_op, apply_one, replay}
use repository.Repl.Replay.{replay-nil, replay-cons, replay-fault}

kvs-apply_register :
    (s : Store) (index : Int64) (op : _) → (apply_register s index op).1.kvs ≡ s.kvs
unfolding apply_register fanout_svc
kvs-apply_register s index op = ground arith

kvs-apply_heartbeat :
    (now : Int64) (s : Store) (index : Int64) (op : _)
    → (apply_heartbeat now s index op).1.kvs ≡ s.kvs
unfolding apply_heartbeat
kvs-apply_heartbeat now s index op = ground arith

kvs-apply_expire_services :
    (s : Store) (index : Int64) (items : _) → (apply_expire_services s index items).kvs ≡ s.kvs
unfolding apply_expire_services fanout_svc
kvs-apply_expire_services s index items = ground arith

apply_op-IsUnique :
    (now : Int64) (s : Store) (index : Int64) (op : Op) (r : Applied) (s' : Store)
    → IsUnique s.kvs
    → apply_op now s index op ≡ some (r, s')
    → IsUnique s'.kvs
unfolding apply_op
apply_op-IsUnique now s index empty r s' u e = ground arith
apply_op-IsUnique now s index (put op) r s' u e = elim (Option-cases (apply_put now s index op)) [
  | inl fault ↦ ground arith
  | inr ((x, s₁), h) ↦ let v = apply_put-IsUnique now s index op x s₁ u h in ground arith
]
apply_op-IsUnique now s index (delete op) r s' u e =
    elim (Option-cases (apply_delete now s index op)) [
      | inl fault ↦ ground arith
      | inr ((x, s₁), h) ↦ let v = apply_delete-IsUnique now s index op x s₁ u h in ground arith
    ]
apply_op-IsUnique now s index (register op) r s' u e = ground (arith, kvs-apply_register s index op)
apply_op-IsUnique now s index (heartbeat op) r s' u e =
    ground (arith, kvs-apply_heartbeat now s index op)
apply_op-IsUnique now s index (expire_keys items) r s' u e =
    elim (Option-cases (apply_expire_keys s index items)) [
      | inl fault ↦ ground arith
      | inr (s₁, h) ↦ let v = apply_expire_keys-IsUnique s index items s₁ u h in ground arith
    ]
apply_op-IsUnique now s index (expire_services items) r s' u e =
    ground (arith, kvs-apply_expire_services s index items)

pub replay-IsUnique :
    (clock : Int64 → Int64) (es : List LogEntry) (s s' : Store)
    → IsUnique s.kvs
    → replay clock s es ≡ some s'
    → IsUnique s'.kvs
replay-IsUnique clock [] s s' u h =
    subst (λ (x : Store). IsUnique x.kvs) (eq_of_some-eq (sym (replay-nil clock s) ∙ h)) u
replay-IsUnique clock (e ∷ es) s s' u h = elim (Option-cases (apply_one (clock e.index) s e)) [
  | inl fault ↦ cc (replay-fault clock s e es fault)
  | inr ((r, s₁), a) ↦
      replay-IsUnique clock es s₁ s' (apply_op-IsUnique (clock e.index) s e.index e.op r s₁ u a)
        (sym (replay-cons clock s e es r s₁ a) ∙ h)
]
