-- ===== src/Store/Log/Writes.antt =====
-- Puts, deletes and expiry batches extend the history by exactly what they change.
use mathlib.Core.List.{append-nil}
use repository.Base.{
  ◌^◌, ◌<◌, ◌≡◌, refl, sym, ◌∙◌, Bool, true, List, [], ◌∷◌, ◌++◌, Option, none, some, arith,
  Option-cases, inl, inr, eq_of_some-eq, String, Bool-cases,
}
use mathlib.Core.Path.{subst}
use repository.Base.Int64.{Int64}
use repository.Base.Int64
use repository.Base.Dict.{Dict, find, erase, store}
use repository.Proto.{Kind, KeyValue, PutOp, DeleteOp, ExpireKey}
use repository.Store.State.{
  Store, KvEntry, MapKey, Result, ok, if_alive, kv_to_pb, map_key_comparable,
}
use repository.Store.Emit.{emit_kv, after_emit, event_cursor}
use repository.Store.Ring.{Event}
use repository.Store.Apply.{
  apply_put, apply_delete, apply_expire_keys, begin_entry, put_entry, put_key, delete_key,
  delete_record, check_version, write_entry, remove_entry,
}
use repository.Store.Apply.Steps.{
  emit_kv-first, written, write_entry-emit, cur_put, put_check, apply_put-refused,
  apply_put-accepted, removed, remove_entry-emit, cur_delete, apply_delete-refused,
  apply_delete-accepted, apply_delete-absent, apply_delete-absent_conflict,
}
use repository.Store.Log.{IsTracked}
use repository.Store.Log.Changes.{stamp, put_changes, delete_changes, expire_changes}
use repository.Store.Log.Entries.{
  During-begin, During-kvs, During-emit, IsTracked-During, expire_items-During,
}

pub revision-kv_to_pb : (ns key : String) (e : KvEntry) → (kv_to_pb ns key e).revision ≡ e.revision
unfolding kv_to_pb
revision-kv_to_pb ns key e = refl

pub some_of_if_alive :
    (now : Int64) (o : Option KvEntry) (cur : KvEntry) → if_alive now o ≡ some cur → o ≡ some cur
some_of_if_alive now none cur h = cc
some_of_if_alive now (some x) cur h = ground arith

module _ (s : Store) (index : Int64) (log : List Event) (later : s.rev < index)
    (small : index < 2 ^ 50) (t : IsTracked s log) where
  begun : IsTracked (begin_entry s index) log
  begun = IsTracked-During index (begin_entry s index) log (During-begin index s log later t)

  -- The first event of an entry, after a change of the keys.
  first_event :
      (m : Dict MapKey KvEntry) (s' : Store) (kind : Kind) (kv : KeyValue)
      → kv.revision ≡ index
      → emit_kv (record (begin_entry s index) { kvs = m }) kind kv ≡ some s'
      → IsTracked s' (log ++ stamp index 0 ((kind, kv) ∷ []))
  first_event m s' kind kv rev e =
      subst
        (λ n. IsTracked s' (log ++ record { seq = event_cursor n 0; kind = kind; kv = kv } ∷ []))
        rev
        (IsTracked-During index s' _ (
          During-emit index (record (begin_entry s index) { kvs = m }) log s' kind kv small rev
            (During-kvs index (begin_entry s index) log m (During-begin index s log later t)) e))

  unchanged : IsTracked (begin_entry s index) (log ++ [])
  unchanged = rw append-nil begun

  -- A put extends the history by one event, with the record that it returns, if it succeeds, and by
  -- none if it is refused.
  pub apply_put-IsTracked :
      (now : Int64) (op : PutOp) (r : Result KeyValue) (s' : Store)
      → apply_put now s index op ≡ some (r, s')
      → IsTracked s' (log ++ stamp index 0 (put_changes r))
  apply_put-IsTracked now op r s' e = elim (Option-cases (put_check now s index op)) [
    | inr (x, h) ↦
        subst (λ q. IsTracked q.1 (log ++ stamp index 0 (put_changes q.0)))
          (eq_of_some-eq (sym (apply_put-refused now s index op x h) ∙ e)) unchanged
    | inl h ↦
        let new = put_entry index op (cur_put now s index op) in
        let rec = kv_to_pb op.namespace op.key new in
        let (s₁, step, _) =
          emit_kv-first (written (begin_entry s index) op new) Kind.put rec refl in
        subst (λ q. IsTracked q.1 (log ++ stamp index 0 (put_changes q.0)))
          (eq_of_some-eq (
            sym (
              apply_put-accepted now s index op h
              ∙ write_entry-emit (begin_entry s index) op new s₁ step)
            ∙ e))
          (first_event (store (put_key op) new s.kvs) s₁ Kind.put rec (revision-kv_to_pb _ _ new)
            step)
  ]

  abbrev Deletes : DeleteOp → Result Bool × Store → Type 0
  Deletes op q =
      IsTracked q.1
        (log ++ stamp index 0 (delete_changes index op q.0 (find (delete_key op) s.kvs)))

  given : (op : DeleteOp) {p q : Result Bool × Store} → p ≡ q → Deletes op p → Deletes op q
  given op h d = subst (Deletes op) h d

  -- A delete extends the history by one event, with the entry that it removes, if it finds the key,
  -- and by none otherwise.
  pub apply_delete-IsTracked :
      (now : Int64) (op : DeleteOp) (r : Result Bool) (s' : Store)
      → apply_delete now s index op ≡ some (r, s')
      → IsTracked s' (log ++ stamp index 0 (delete_changes index op r (find (delete_key op) s.kvs)))
  apply_delete-IsTracked now op r s' e = elim (Option-cases (cur_delete now s index op)) [
    | inl absent ↦ elim (Bool-cases (Int64.lt 0 op.expected_version)) [
      | inl positive ↦
          given op
            (eq_of_some-eq (sym (apply_delete-absent_conflict now s index op absent positive) ∙ e))
            unchanged
      | inr rest ↦
          given op (eq_of_some-eq (sym (apply_delete-absent now s index op absent rest) ∙ e))
            unchanged
    ]
    | inr (cur, there) ↦ elim (Option-cases (check_version op.expected_version true cur.version)) [
      | inr (x, h) ↦
          given op (eq_of_some-eq (sym (apply_delete-refused now s index op cur x there h) ∙ e))
            unchanged
      | inl h ↦
          let rec = delete_record index op cur in
          let (s₁, step, _) =
            emit_kv-first (removed (begin_entry s index) index op cur) Kind.delete rec refl in
          given op
            (eq_of_some-eq (
              sym (
                apply_delete-accepted now s index op cur there h
                ∙ remove_entry-emit (begin_entry s index) index op cur s₁ step)
              ∙ e))
            (subst (λ o. IsTracked s₁ (log ++ stamp index 0 (delete_changes index op (ok true) o)))
              (sym (some_of_if_alive now (find (delete_key op) s.kvs) cur there))
              (first_event (erase (delete_key op) s.kvs) s₁ Kind.delete rec refl step))
    ]
  ]

  -- An expiry batch extends the history by the removals of the items whose guard holds, in order.
  pub apply_expire_keys-IsTracked :
      (items : List ExpireKey) (s' : Store)
      → apply_expire_keys s index items ≡ some s'
      → IsTracked s' (log ++ stamp index 0 (expire_changes index s.kvs items))
  unfolding apply_expire_keys
  apply_expire_keys-IsTracked items s' e = IsTracked-During index s' _ (
      expire_items-During index items (begin_entry s index) s' log small
        (During-begin index s log later t) e)

  pub rev-apply_expire_keys :
      (items : List ExpireKey) (s' : Store)
      → apply_expire_keys s index items ≡ some s'
      → s'.rev ≡ index
  unfolding apply_expire_keys
  rev-apply_expire_keys items s' e =
      (expire_items-During index items (begin_entry s index) s' log small
        (During-begin index s log later t) e).rev

pub rev-apply_put :
    (now : Int64) (s : Store) (index : Int64) (op : PutOp) (r : Result KeyValue) (s' : Store)
    → apply_put now s index op ≡ some (r, s')
    → s'.rev ≡ index
unfolding apply_put write_entry emit_kv after_emit
rev-apply_put now s index op r s' e = ground arith

pub rev-apply_delete :
    (now : Int64) (s : Store) (index : Int64) (op : DeleteOp) (r : Result Bool) (s' : Store)
    → apply_delete now s index op ≡ some (r, s')
    → s'.rev ≡ index
unfolding apply_delete remove_entry emit_kv after_emit
rev-apply_delete now s index op r s' e = ground arith
