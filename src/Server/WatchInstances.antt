-- ===== src/Server/WatchInstances.antt =====
-- The loop that serves one watch of a service (distconf/internal/server/registry.go: WatchInstances). One
-- call of `turn` is one visible step of it: a call on the store, a send, or a receive.
pub mod Changes
pub mod Aside
pub mod Applies
pub mod Leaves
pub mod Run
pub mod Serving
pub mod Registered
use repository.Base.{
  ℕ, Bool, true, false, String, List, [], ◌∷◌, ◌++◌, Option, none, some, nat_comparable,
}
use repository.Base.Int64.{Int64}
use repository.Base.Dict.{find, store}
use repository.Proto.{Instance}
use repository.Store.State.{Store, ServiceChange}
use repository.Store.Registry.{watch_service, close_service_watcher}
use repository.Repl.Applier.{applied_index}
use repository.Server.Cluster.{DiscoverResponse}

pub data Ending : Type 0 where
  send_failed canceled : Ending

-- Where the loop stands: before `WatchService`, before the send of the snapshot, or waiting on the
-- channel; and how it has returned.
pub data Phase : Type 0 where
  opening : Phase
  announcing : Int64 → List Instance → Phase
  listening : Int64 → Phase
  returned : Ending → Phase

pub record Session : Type 0 where
  pub sent : List DiscoverResponse
  pub phase : Phase

abbrev pub start : Session
start = record { sent = []; phase = opening }

pub data Stream : Type 0 where
  takes fails done : Stream

pub data Turn : Type 0 where
  blocked : Turn
  moves : Store → Session → Turn

-- `change, ok := <-ch`
unfoldable pub receive_change : Store → Int64 → Option (Option ServiceChange × Store)
receive_change s id = elim (find id s.svc_watchers) [
  | some w ↦ elim w.ch [
    | [] ↦ none
    | c ∷ rest ↦
        some (some c, record s { svc_watchers = store id (record w { ch = rest }) s.svc_watchers })
  ]
  | none ↦ elim (find id s.svc_closed) [
    | none ↦ none
    | some ch ↦ elim ch [
      | [] ↦ some (none, s)
      | c ∷ rest ↦ some (some c, record s { svc_closed = store id rest s.svc_closed })
    ]
  ]
]

abbrev pub to_phase : Session → Phase → Session
to_phase x phase = record x { phase = phase }

abbrev pub snapshot_response : Store → List Instance → DiscoverResponse
snapshot_response s snapshot = record {
  instances = snapshot;
  incremental = false;
  added = [];
  removed = [];
  applied_revision = applied_index s;
}

abbrev pub change_response : Store → ServiceChange → DiscoverResponse
change_response s c = record {
  instances = [];
  incremental = true;
  added = c.added;
  removed = c.removed;
  applied_revision = applied_index s;
}

abbrev pub send : Session → DiscoverResponse → Phase → Session
send x resp phase = record { sent = x.sent ++ resp ∷ []; phase = phase }

abbrev pub leave : Store → Session → Int64 → Ending → Turn
leave s x id why = moves (close_service_watcher s id) (to_phase x (returned why))

abbrev pub open_turn : (ℕ → Int64) → String → String → Store → Session → Turn
open_turn clock ns service s x =
    let ((id, snapshot), s') = watch_service clock s ns service in
    moves s' (to_phase x (announcing id snapshot))

abbrev pub snapshot_turn : Stream → Store → Session → Int64 → List Instance → Turn
snapshot_turn fails s x id snapshot = leave s x id send_failed
snapshot_turn takes s x id snapshot = moves s (send x (snapshot_response s snapshot) (listening id))
snapshot_turn done s x id snapshot = moves s (send x (snapshot_response s snapshot) (listening id))

abbrev pub after_change : Stream → Store → Session → Int64 → ServiceChange → Turn
after_change fails s x id c = leave s x id send_failed
after_change takes s x id c = moves s (send x (change_response s c) (listening id))
after_change done s x id c = moves s (send x (change_response s c) (listening id))

abbrev pub receive_turn : Stream → Session → Int64 → Option (Option ServiceChange × Store) → Turn
receive_turn a x id none = blocked
receive_turn a x id (some (none, s)) = moves (close_service_watcher s id) (to_phase x opening)
receive_turn a x id (some (some c, s)) = after_change a s x id c

abbrev pub change_turn : Stream → Store → Session → Int64 → Turn
change_turn done s x id = leave s x id canceled
change_turn takes s x id = receive_turn takes x id (receive_change s id)
change_turn fails s x id = receive_turn fails x id (receive_change s id)

unfoldable pub turn : (ℕ → Int64) → String → String → Stream → Store → Session → Turn
unfolding receive_change
turn clock ns service a s x = elim x.phase [
  | opening ↦ open_turn clock ns service s x
  | announcing id snapshot ↦ snapshot_turn a s x id snapshot
  | listening id ↦ change_turn a s x id
  | returned why ↦ blocked
]
