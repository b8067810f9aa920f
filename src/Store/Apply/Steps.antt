-- ===== src/Store/Apply/Steps.antt =====
-- The branches of `apply_put` and `apply_delete`, and emitting the first event of an entry.
use repository.Base.{◌≡◌, true, false, Option, none, some, arith}
use repository.Base.Int64.{Int64}
use repository.Base.Int64
use repository.Base.Dict.{find, store, erase}
use repository.Proto.{Kind, KeyValue, PutOp, DeleteOp}
use repository.Store.State.{
  Store, KvEntry, ok, err, StoreError, cas_conflict, if_alive, kv_to_pb, map_key_comparable,
}
use repository.Store.Emit.{emit_kv, after_emit}
use repository.Store.Apply.{
  apply_put, apply_delete, begin_entry, check_version, is_there, cur_version, write_entry,
  remove_entry, delete_record, put_key, delete_key, put_entry,
}

-- There is room for the first event of an entry.
pub emit_kv-first :
    (s : Store) (kind : Kind) (kv : KeyValue)
    → s.sub ≡ 0
    → (s' : Store) × (emit_kv s kind kv ≡ some s') × (s'.kvs ≡ s.kvs)
unfolding emit_kv after_emit
emit_kv-first s kind kv e = (after_emit s kind kv, ground arith, ground arith)

module _ (s : Store) (op : PutOp) (e : KvEntry) where
  abbrev pub written : Store
  written = record s { kvs = store (put_key op) e s.kvs }

  pub write_entry-emit :
      (s' : Store)
      → emit_kv written Kind.put (kv_to_pb op.namespace op.key e) ≡ some s'
      → write_entry s op e ≡ some (ok (kv_to_pb op.namespace op.key e), s')
  unfolding write_entry
  write_entry-emit s' h = rw (h, write_entry)

module _ (now : Int64) (s : Store) (index : Int64) (op : PutOp) where
  abbrev pub cur_put : Option KvEntry
  cur_put = if_alive now (find (put_key op) s.kvs)

  abbrev pub put_check : Option StoreError
  put_check = check_version op.expected_version (is_there cur_put) (cur_version cur_put)

  pub apply_put-refused :
      (e : StoreError)
      → put_check ≡ some e
      → apply_put now s index op ≡ some (err e, begin_entry s index)
  unfolding apply_put
  apply_put-refused e h = rw (h, apply_put)

  pub apply_put-accepted :
      put_check ≡ none
      → apply_put now s index op ≡ write_entry (begin_entry s index) op (put_entry index op cur_put)
  unfolding apply_put
  apply_put-accepted h = rw (h, apply_put)

module _ (s : Store) (index : Int64) (op : DeleteOp) (cur : KvEntry) where
  abbrev pub removed : Store
  removed = record s { kvs = erase (delete_key op) s.kvs }

  pub remove_entry-emit :
      (s' : Store)
      → emit_kv removed Kind.delete (delete_record index op cur) ≡ some s'
      → remove_entry s index op cur ≡ some (ok true, s')
  unfolding remove_entry
  remove_entry-emit s' h = rw (h, remove_entry)

module _ (now : Int64) (s : Store) (index : Int64) (op : DeleteOp) where
  abbrev pub cur_delete : Option KvEntry
  cur_delete = if_alive now (find (delete_key op) s.kvs)

  pub apply_delete-refused :
      (cur : KvEntry) (e : StoreError)
      → cur_delete ≡ some cur
      → check_version op.expected_version true cur.version ≡ some e
      → apply_delete now s index op ≡ some (err e, begin_entry s index)
  unfolding apply_delete
  apply_delete-refused cur e h c = rw (h, c, apply_delete)

  pub apply_delete-accepted :
      (cur : KvEntry)
      → cur_delete ≡ some cur
      → check_version op.expected_version true cur.version ≡ none
      → apply_delete now s index op ≡ remove_entry (begin_entry s index) index op cur
  unfolding apply_delete
  apply_delete-accepted cur h c = rw (h, c, apply_delete)

  pub apply_delete-absent :
      cur_delete ≡ none
      → Int64.lt 0 op.expected_version ≡ false
      → apply_delete now s index op ≡ some (ok false, begin_entry s index)
  unfolding apply_delete
  apply_delete-absent h c = rw (h, c, apply_delete)

  pub apply_delete-absent_conflict :
      cur_delete ≡ none
      → Int64.lt 0 op.expected_version ≡ true
      → apply_delete now s index op ≡ some (err cas_conflict, begin_entry s index)
  unfolding apply_delete
  apply_delete-absent_conflict h c = rw (h, c, apply_delete)
