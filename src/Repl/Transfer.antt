-- ===== src/Repl/Transfer.antt =====
-- A replica that takes over another's state with a snapshot (repl.go: ApplySnapshot; leader.go:
-- Catchup, compactLocked; helpers.go: ExportSnapshot, RestoreSnapshot; store.go: WatchKV).
use repository.Base.{◌<◌, ◌≡◌, String, List, [], some, ◌⊎◌}
use repository.Base.Int64.{Int64}
use repository.Store.Ring.{Event}
use repository.Store.State.{Store, map_key_comparable, ok, err, revision_compacted}
use repository.Store.Watch.{watch_kv, subscribe, next_id}
use repository.Store.Log.Backlog.{missing}

-- A store with no event in its ring, whose baseline is past a history, refuses a cursor before the
-- baseline, and has nothing to send from any other.
module _ (s : Store) (ns key : String) (from top : Int64) (log : List Event) where
  abbrev Answers : Type 0
  Answers =
      ((watch_kv s ns key from ≡ some (err revision_compacted, s)) × (0 < from) × (from < top))
      ⊎ ((watch_kv s ns key from ≡ some (ok (next_id s, []), subscribe s ns key))
          × ((from ≡ 0) ⊎ (missing ns key from log ≡ [])))
