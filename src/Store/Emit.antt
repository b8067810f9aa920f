-- ===== src/Store/Emit.antt =====
-- Emitting a KV event (store.go: emitKVLocked, fanoutKVLocked).
use repository.Base.{
  ℕ, ◌+◌, ◌++◌, List, [], ◌∷◌, Bool, ◌&&◌, ◌||◌, not, Option, none, some, length, ltb, leb,
  if◌then◌else◌, ◌==◌, text_comparable,
}
use repository.Base.Int64.{Int64}
use repository.Base.Int64
use repository.Base.Dict.{Dict}
use repository.Proto.{Kind, KeyValue, WatchEvent}
use repository.Store.Ring.{append_event}
use repository.Store.State.{Store, KvWatcher, clone_kv}

abbrev pub sub_limit : ℕ
sub_limit = 4096

abbrev pub watcher_buffer : ℕ
watcher_buffer = 256

-- The cursor of the event at an offset in a log entry.
abbrev pub event_cursor : Int64 → ℕ → Int64
event_cursor revision offset = Int64.add (Int64.mul revision sub_limit) offset

-- `EventSeq`
unfoldable pub event_seq : Int64 → Int64
event_seq log_index = Int64.mul log_index sub_limit

unfoldable pub wants : KvWatcher → WatchEvent → Bool
wants w ev = w.ns == ev.kv.namespace && (w.key == "" || w.key == ev.kv.key)

-- A full channel is closed and its subscriber removed.
unfoldable pub fanout_kv :
    WatchEvent → Dict Int64 KvWatcher → Dict Int64 KvWatcher × List (Int64 × List WatchEvent)
unfolding wants
fanout_kv ev [] = ([], [])
fanout_kv ev ((id, w) ∷ ws) =
    let (kept, closed) = fanout_kv ev ws in
    let out : WatchEvent = record { kind = ev.kind; kv = clone_kv ev.kv; revision = ev.revision } in
    if not (wants w ev)
    then ((id, w) ∷ kept, closed)
    else if ltb (length w.ch) watcher_buffer
    then ((id, record w { ch = w.ch ++ out ∷ [] }) ∷ kept, closed)
    else (kept, (id, w.ch) ∷ closed)

-- The store after an event: the ring has it, and so has every subscriber that wants it.
unfoldable pub after_emit : Store → Kind → KeyValue → Store
after_emit s kind kv =
    let seq : Int64 = event_cursor kv.revision s.sub in
    let (kept, closed) =
      fanout_kv (record { kind = kind; kv = clone_kv kv; revision = seq }) s.kv_watchers in
    record s {
      sub = s.sub + 1;
      ring = append_event s.ring (record { seq = seq; kind = kind; kv = clone_kv kv });
      kv_watchers = kept;
      kv_closed = s.kv_closed ++ closed;
    }

-- `none` is the panic on too many events in one log entry.
unfoldable pub emit_kv : Store → Kind → KeyValue → Option Store
emit_kv s kind kv = if leb sub_limit (s.sub + 1) then none else some (after_emit s kind kv)
