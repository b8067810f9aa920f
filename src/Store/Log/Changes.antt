-- ===== src/Store/Log/Changes.antt =====
-- What each log entry changes, without the ring and the subscribers.
use repository.Base.{ℕ, ◌+◌, Bool, true, false, List, [], ◌∷◌, Option, none, some}
use repository.Base.Int64.{Int64}
use repository.Base.Dict.{Dict, find, erase}
use repository.Proto.{Kind, KeyValue, DeleteOp, ExpireKey}
use repository.Store.Ring.{Event}
use repository.Store.State.{KvEntry, MapKey, Result, ok, err, map_key_comparable}
use repository.Store.Emit.{event_cursor}
use repository.Store.Apply.{delete_record, guarded, expire_key, expire_record}

-- The changes of one entry as events: consecutive cursors from an offset on.
abbrev pub stamp : Int64 → ℕ → List (Kind × KeyValue) → List Event
stamp index offset [] = []
stamp index offset ((kind, kv) ∷ changes) =
    record { seq = event_cursor index offset; kind = kind; kv = kv }
    ∷ stamp index (offset + 1) changes

-- A put that succeeds changes the key to the record that it returns.
abbrev pub put_changes : Result KeyValue → List (Kind × KeyValue)
put_changes (ok kv) = (Kind.put, kv) ∷ []
put_changes (err e) = []

-- A delete that finds the key reports the value that it removes, at the delete's own index.
abbrev pub delete_changes : Int64 → DeleteOp → Result Bool → Option KvEntry → List (Kind × KeyValue)
delete_changes index op (ok true) (some cur) = (Kind.delete, delete_record index op cur) ∷ []
delete_changes index op (ok true) none = []
delete_changes index op (ok false) cur = []
delete_changes index op (err e) cur = []

-- The items whose guard still holds when their turn comes.
unfoldable pub expire_changes :
    Int64 → Dict MapKey KvEntry → List ExpireKey → List (Kind × KeyValue)
expire_changes index m [] = []
expire_changes index m (item ∷ items) =
    elim (guarded item.guard_revision (find (expire_key item) m)) [
      | none ↦ expire_changes index m items
      | some cur ↦
          (Kind.expired, expire_record index item cur)
          ∷ expire_changes index (erase (expire_key item) m) items
    ]
