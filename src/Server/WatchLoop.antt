-- ===== src/Server/WatchLoop.antt =====
-- The loop that serves one watch stream (distconf/internal/server/watch.go: watchLoop). One call of
-- `turn` is one visible step of it: a call on the store, a send, or a receive.
pub mod Pending
pub mod Leaves
pub mod Keeps
pub mod Advance
pub mod Run
pub mod Complete
use repository.Base.{◌+◌, String, List, [], ◌∷◌, ◌++◌, Option, none, some, nat_comparable}
use repository.Base.Int64.{Int64}
use repository.Base.Dict.{find, store}
use repository.Proto.{WatchEvent}
use repository.Store.State.{Store, StoreError, ok, err}
use repository.Store.Watch.{watch_kv, kv_watcher_chan, close_kv_watcher}

-- Where the loop stands: before `WatchKV`, sending the backlog, before `KVWatcherChan`, or waiting on
-- the channel; and how it has returned.
pub data Ending : Type 0 where
  send_failed canceled : Ending
  store_failed : StoreError → Ending

pub data Phase : Type 0 where
  opening : Phase
  sending : Int64 → List WatchEvent → Phase
  looking : Int64 → Phase
  listening : Int64 → Phase
  returned : Ending → Phase

-- `cursor`, and what was sent so far.
pub record Session : Type 0 where
  pub cursor : Int64
  pub sent : List WatchEvent
  pub phase : Phase

abbrev pub start : Int64 → Session
start from_revision = record { cursor = from_revision; sent = []; phase = opening }

-- What the stream does: it takes what is sent, its next send fails, or its context is done.
pub data Stream : Type 0 where
  takes fails done : Stream

-- `blocked`: the loop waits; `faulted`: a panic.
pub data Turn : Type 0 where
  blocked faulted : Turn
  moves : Store → Session → Turn

-- `ev, ok := <-ch`: an event or the end of a closed channel; `none` while the channel is empty.
unfoldable pub receive_event : Store → Int64 → Option (Option WatchEvent × Store)
receive_event s id = elim (find id s.kv_watchers) [
  | some w ↦ elim w.ch [
    | [] ↦ none
    | ev ∷ rest ↦
        some (some ev, record s { kv_watchers = store id (record w { ch = rest }) s.kv_watchers })
  ]
  | none ↦ elim (find id s.kv_closed) [
    | none ↦ none
    | some ch ↦ elim ch [
      | [] ↦ some (none, s)
      | ev ∷ rest ↦ some (some ev, record s { kv_closed = store id rest s.kv_closed })
    ]
  ]
]

abbrev pub to_phase : Session → Phase → Session
to_phase x phase = record x { phase = phase }

-- A send that succeeds moves the cursor.
abbrev pub send : Session → WatchEvent → Phase → Session
send x ev phase = record { cursor = ev.revision; sent = x.sent ++ ev ∷ []; phase = phase }

abbrev pub leave : Store → Session → Int64 → Ending → Turn
leave s x id why = moves (close_kv_watcher s id) (to_phase x (returned why))

unfoldable pub open_turn : String → String → Store → Session → Turn
open_turn ns key s x = elim (watch_kv s ns key x.cursor) [
  | none ↦ faulted
  | some (err e, s') ↦ moves s' (to_phase x (returned (store_failed e)))
  | some (ok (id, backlog), s') ↦ moves s' (to_phase x (sending id backlog))
]

unfoldable pub backlog_turn : Stream → Store → Session → Int64 → List WatchEvent → Turn
backlog_turn c s x id [] = moves s (to_phase x (looking id))
backlog_turn fails s x id (ev ∷ rest) = leave s x id send_failed
backlog_turn takes s x id (ev ∷ rest) = moves s (send x ev (sending id rest))
backlog_turn Stream.done s x id (ev ∷ rest) = moves s (send x ev (sending id rest))

-- A nil channel is that of a subscriber which was removed already.
unfoldable pub look_turn : Store → Session → Int64 → Turn
look_turn s x id = elim (kv_watcher_chan s id) [
  | none ↦ moves s (to_phase x opening)
  | some ch ↦ moves s (to_phase x (listening id))
]

unfoldable pub live_turn : Stream → Store → Session → Int64 → Turn
live_turn Stream.done s x id = leave s x id canceled
live_turn takes s x id = elim (receive_event s id) [
  | none ↦ blocked
  | some (none, s') ↦ moves (close_kv_watcher s' id) (to_phase x opening)
  | some (some ev, s') ↦ moves s' (send x ev (listening id))
]
live_turn fails s x id = elim (receive_event s id) [
  | none ↦ blocked
  | some (none, s') ↦ moves (close_kv_watcher s' id) (to_phase x opening)
  | some (some ev, s') ↦ leave s' x id send_failed
]

unfoldable pub turn : String → String → Stream → Store → Session → Turn
turn ns key c s x = elim x.phase [
  | opening ↦ open_turn ns key s x
  | sending id backlog ↦ backlog_turn c s x id backlog
  | looking id ↦ look_turn s x id
  | listening id ↦ live_turn c s x id
  | returned why ↦ blocked
]
