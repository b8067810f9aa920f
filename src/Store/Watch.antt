-- ===== src/Store/Watch.antt =====
-- Watching keys (store.go: CurrentEventSeq, matchKV, WatchKV, KVWatcherChan, CloseKVWatcher). A
-- result of `none` is the fault of a nil pointer in the ring.
use repository.Base.{
  ℕ, zero, suc, ◌-◌, ◌++◌, Bool, true, false, ◌&&◌, ◌||◌, String, List, [], ◌∷◌, Option, none, some,
  ltb, if◌then◌else◌, ◌==◌, text_comparable, nat_comparable,
}
use repository.Base.Int64.{Int64}
use repository.Base.Int64
use repository.Base.Dict.{find, store, erase}
use repository.Proto.{WatchEvent}
use repository.Store.Ring.{Ring, Event, slot, oldest_seq}
use repository.Store.State.{Store, Result, ok, err, revision_compacted, clone_kv}

-- `CurrentEventSeq`
unfoldable pub current_event_seq : Store → Option Int64
current_event_seq s =
    if ltb 0 s.ring.count
    then elim (slot s.ring (s.ring.count - 1)) [ none ↦ none | some ev ↦ some ev.seq ]
    else some s.baseline_seq

unfoldable pub match_kv : String → String → Event → Bool
match_kv ns key ev = if ev.kv.namespace == ns then key == "" || ev.kv.key == key else false

-- An event as it goes to a subscriber.
abbrev pub to_watch_event : Event → WatchEvent
to_watch_event ev = record { kind = ev.kind; kv = clone_kv ev.kv; revision = ev.seq }

-- The loop of `WatchKV` over the ring, from the i-th slot on.
unfoldable pub backlog_from : Ring → String → String → Int64 → ℕ → ℕ → Option (List WatchEvent)
unfolding match_kv
backlog_from r ns key from_seq i zero = some []
backlog_from r ns key from_seq i (suc n) = elim (slot r i) [
  | none ↦ none
  | some ev ↦ elim (backlog_from r ns key from_seq (suc i) n) [
    | none ↦ none
    | some rest ↦
        if Int64.lt from_seq ev.seq && match_kv ns key ev
        then some (to_watch_event ev ∷ rest)
        else some rest
  ]
]

-- The oldest cursor from which no event is missing.
unfoldable pub horizon : Store → Option Int64
unfolding oldest_seq
horizon s =
    if ltb 0 s.ring.count
    then elim (oldest_seq s.ring) [ none ↦ none | some seq ↦ some (Int64.sub seq 1) ]
    else some s.baseline_seq

-- `fromSeq > 0` and `fromSeq < horizon`
unfoldable pub too_old : Store → Int64 → Option Bool
too_old s from_seq =
    if Int64.lt 0 from_seq
    then elim (horizon s) [ none ↦ none | some h ↦ some (Int64.lt from_seq h) ]
    else some false

abbrev pub next_id : Store → Int64
next_id s = Int64.add s.watcher_seq 1

abbrev pub subscribe : Store → String → String → Store
subscribe s ns key = record s {
  watcher_seq = next_id s;
  kv_watchers = store (next_id s) (record { ns = ns; key = key; ch = [] }) s.kv_watchers;
}

unfoldable pub watch_kv :
    Store → String → String → Int64 → Option (Result (Int64 × List WatchEvent) × Store)
watch_kv s ns key from_seq = elim (too_old s from_seq) [
  | none ↦ none
  | some true ↦ some (err revision_compacted, s)
  | some false ↦ elim (backlog_from s.ring ns key from_seq 0 s.ring.count) [
    | none ↦ none
    | some backlog ↦ some (ok (next_id s, backlog), subscribe s ns key)
  ]
]

-- What waits in a subscriber's channel; `none` is the nil channel of one that was removed.
unfoldable pub kv_watcher_chan : Store → Int64 → Option (List WatchEvent)
kv_watcher_chan s id = elim (find id s.kv_watchers) [ none ↦ none | some w ↦ some w.ch ]

unfoldable pub close_kv_watcher : Store → Int64 → Store
close_kv_watcher s id = elim (find id s.kv_watchers) [
  | none ↦ s
  | some w ↦ record s {
    kv_watchers = erase id s.kv_watchers;
    kv_closed = s.kv_closed ++ (id, w.ch) ∷ [];
  }
]
