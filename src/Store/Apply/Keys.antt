-- ===== src/Store/Apply/Keys.antt =====
-- No key stands twice among the keys of a store (store.go: a Go map has each key once).
use repository.Base.{
  ◌≡◌, sym, ◌∙◌, Bool, List, [], ◌∷◌, some, arith, Option-cases, inl, inr, eq_of_some-eq,
}
use mathlib.Core.Path.{subst}
use repository.Base.Int64.{Int64}
use repository.Base.Dict.{IsUnique, IsUnique-store, IsUnique-erase, find}
use repository.Proto.{PutOp, DeleteOp, ExpireKey, KeyValue}
use repository.Store.State.{Store, KvEntry, Result, map_key_comparable, if_alive}
use repository.Store.Emit.{emit_kv, after_emit}
use repository.Store.Apply.{
  apply_put, write_entry, apply_delete, remove_entry, apply_expire_keys, expire_items, expire_one,
  guarded, expire_key, begin_entry, put_key, put_entry, delete_key,
}
use repository.Store.Log.Entries.{
  expire_items-nil, expire_items-miss, expire_items-fault, expire_items-hit,
}

pub apply_put-IsUnique :
    (now : Int64) (s : Store) (index : Int64) (op : PutOp) (r : Result KeyValue) (s' : Store)
    → IsUnique s.kvs
    → apply_put now s index op ≡ some (r, s')
    → IsUnique s'.kvs
unfolding apply_put write_entry emit_kv after_emit
apply_put-IsUnique now s index op r s' u e = ground (
  arith,
  IsUnique-store (put_key op) (put_entry index op (if_alive now (find (put_key op) s.kvs))) s.kvs u,
)

pub apply_delete-IsUnique :
    (now : Int64) (s : Store) (index : Int64) (op : DeleteOp) (r : Result Bool) (s' : Store)
    → IsUnique s.kvs
    → apply_delete now s index op ≡ some (r, s')
    → IsUnique s'.kvs
unfolding apply_delete remove_entry emit_kv after_emit
apply_delete-IsUnique now s index op r s' u e =
    ground (arith, IsUnique-erase (delete_key op) s.kvs u)

expire_one-IsUnique :
    (index : Int64) (s s' : Store) (item : ExpireKey) (cur : KvEntry)
    → IsUnique s.kvs
    → expire_one index s item cur ≡ some s'
    → IsUnique s'.kvs
unfolding emit_kv after_emit
expire_one-IsUnique index s s' item cur u e =
    ground (arith, IsUnique-erase (expire_key item) s.kvs u)

expire_items-IsUnique :
    (index : Int64) (items : List ExpireKey) (s s' : Store)
    → IsUnique s.kvs
    → expire_items index s items ≡ some s'
    → IsUnique s'.kvs
expire_items-IsUnique index [] s s' u e =
    subst (λ (x : Store). IsUnique x.kvs) (eq_of_some-eq (sym (expire_items-nil index s) ∙ e)) u
expire_items-IsUnique index (item ∷ items) s s' u e =
    elim (Option-cases (guarded item.guard_revision (find (expire_key item) s.kvs))) [
      | inl miss ↦
          expire_items-IsUnique index items s s' u
            (sym (expire_items-miss index item items s miss) ∙ e)
      | inr (cur, hit) ↦ elim (Option-cases (expire_one index s item cur)) [
        | inl fault ↦ cc (expire_items-fault index item items s cur hit fault)
        | inr (s₁, step) ↦
            expire_items-IsUnique index items s₁ s' (expire_one-IsUnique index s s₁ item cur u step)
              (sym (expire_items-hit index item items s cur hit s₁ step) ∙ e)
      ]
    ]

pub apply_expire_keys-IsUnique :
    (s : Store) (index : Int64) (items : List ExpireKey) (s' : Store)
    → IsUnique s.kvs
    → apply_expire_keys s index items ≡ some s'
    → IsUnique s'.kvs
unfolding apply_expire_keys
apply_expire_keys-IsUnique s index items s' u e =
    expire_items-IsUnique index items (begin_entry s index) s' u e
