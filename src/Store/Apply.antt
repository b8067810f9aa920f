-- ===== src/Store/Apply.antt =====
-- The state machine's operations on keys (store.go: checkVersion, ApplyPut, ApplyDelete,
-- ApplyExpireKeys). A result of `none` is a panic.
pub mod Steps
pub mod Cas
pub mod Expiry
pub mod Keys
pub mod Clocks
use repository.Base.{
  ℕ, ◌+◌, Bool, true, false, ◌&&◌, ◌||◌, not, List, [], ◌∷◌, Option, none, some, if◌then◌else◌,
  ◌==◌, nat_comparable,
}
use repository.Base.Int64.{Int64, minus_one}
use repository.Base.Int64
use repository.Base.Dict.{find, store, erase}
use repository.Proto.{KeyValue, PutOp, DeleteOp, ExpireKey, put, delete, expired, Kind}
use repository.Store.State.{
  Store, KvEntry, MapKey, StoreError, cas_conflict, Result, ok, err, if_alive, kv_to_pb,
  map_key_comparable,
}
use repository.Store.Emit.{emit_kv}

unfoldable pub cur_version : Option KvEntry → Int64
cur_version none = 0
cur_version (some e) = e.version

abbrev pub is_there {ℓ} : {A : Type ℓ} → Option A → Bool
is_there none = false
is_there (some a) = true

-- `none` is the nil error.
unfoldable pub check_version : Int64 → Bool → Int64 → Option StoreError
check_version expected there current =
    if expected == minus_one
    then none
    else if expected == 0 && there
    then some cas_conflict
    else if Int64.lt 0 expected && (not there || not (current == expected))
    then some cas_conflict
    else none

-- The entry that a put writes.
abbrev pub put_entry : Int64 → PutOp → Option KvEntry → KvEntry
put_entry index op cur = record {
  value = op.value;
  version = Int64.add (cur_version cur) 1;
  revision = index;
  ttl_ms = op.ttl_ms;
  expire_at_ms = op.expire_at_ms;
}

abbrev pub put_key : PutOp → MapKey
put_key op = record { ns = op.namespace; key = op.key }

abbrev pub delete_key : DeleteOp → MapKey
delete_key op = record { ns = op.namespace; key = op.key }

abbrev pub begin_entry : Store → Int64 → Store
begin_entry s index = record s { rev = index; sub = 0 }

unfoldable pub write_entry : Store → PutOp → KvEntry → Option (Result KeyValue × Store)
write_entry s op e =
    let rec = kv_to_pb op.namespace op.key e in
    elim (emit_kv (record s { kvs = store (put_key op) e s.kvs }) Kind.put rec) [
      | none ↦ none
      | some s' ↦ some (ok rec, s')
    ]

unfoldable pub apply_put : Int64 → Store → Int64 → PutOp → Option (Result KeyValue × Store)
apply_put now s index op =
    let cur = if_alive now (find (put_key op) s.kvs) in
    elim (check_version op.expected_version (is_there cur) (cur_version cur)) [
      | some e ↦ some (err e, begin_entry s index)
      | none ↦ write_entry (begin_entry s index) op (put_entry index op cur)
    ]

abbrev pub delete_record : Int64 → DeleteOp → KvEntry → KeyValue
delete_record index op cur = record (kv_to_pb op.namespace op.key cur) { revision = index }

unfoldable pub remove_entry : Store → Int64 → DeleteOp → KvEntry → Option (Result Bool × Store)
remove_entry s index op cur =
    elim (emit_kv (record s { kvs = erase (delete_key op) s.kvs }) Kind.delete
      (delete_record index op cur)) [ none ↦ none | some s' ↦ some (ok true, s') ]

unfoldable pub apply_delete : Int64 → Store → Int64 → DeleteOp → Option (Result Bool × Store)
apply_delete now s index op = elim (if_alive now (find (delete_key op) s.kvs)) [
  | none ↦
      if Int64.lt 0 op.expected_version
      then some (err cas_conflict, begin_entry s index)
      else some (ok false, begin_entry s index)
  | some cur ↦ elim (check_version op.expected_version true cur.version) [
    | some e ↦ some (err e, begin_entry s index)
    | none ↦ remove_entry (begin_entry s index) index op cur
  ]
]

abbrev pub expire_key : ExpireKey → MapKey
expire_key item = record { ns = item.namespace; key = item.key }

-- The entry that an item removes: the one with the revision that the sweeper saw.
abbrev pub guarded : Int64 → Option KvEntry → Option KvEntry
guarded revision none = none
guarded revision (some cur) = if cur.revision == revision then some cur else none

abbrev pub expire_record : Int64 → ExpireKey → KvEntry → KeyValue
expire_record index item cur = record (kv_to_pb item.namespace item.key cur) { revision = index }

abbrev pub expire_one : Int64 → Store → ExpireKey → KvEntry → Option Store
expire_one index s item cur =
    emit_kv (record s { kvs = erase (expire_key item) s.kvs }) Kind.expired
      (expire_record index item cur)

-- The loop of `ApplyExpireKeys`.
unfoldable pub expire_items : Int64 → Store → List ExpireKey → Option Store
expire_items index s [] = some s
expire_items index s (item ∷ items) =
    elim (guarded item.guard_revision (find (expire_key item) s.kvs)) [
      | none ↦ expire_items index s items
      | some cur ↦ elim (expire_one index s item cur) [
        | none ↦ none
        | some s' ↦ expire_items index s' items
      ]
    ]

unfoldable pub apply_expire_keys : Store → Int64 → List ExpireKey → Option Store
apply_expire_keys s index items = expire_items index (begin_entry s index) items
