-- ===== src/Client/Watching.antt =====
-- A client's watch, which goes from node to node (distconf/client/client.go: watchLoop, pumpWatch), and
-- what it delivers of one history of events.
pub mod Delivers
pub mod Instances
use repository.Base.{
  ℕ, ◌+◌, ◌*◌, ◌^◌, ◌≤◌, ◌<◌, ◌≡◌, refl, ap, sym, ◌∙◌, Bool, true, false, String, List, [], ◌∷◌,
  ◌++◌, arith, ltb, if◌then◌else◌,
}
use repository.Base.Int64.{Int64}
use repository.Proto.{WatchEvent}
use repository.Store.Ring.{Event}
use repository.Store.Log.{Ascending, Below}
use repository.Store.Log.Backlog.{missing}
use repository.Store.Log.Resume.{missing-next}
use repository.Client.Wire.{Error, sentinel, rpc, plain, Sentinel, map_status}

-- `backoff` is in milliseconds; `events` is what the caller was given.
pub record Watching : Type 0 where
  pub cursor : Int64
  pub backoff : ℕ
  pub events : List WatchEvent

abbrev pub start : Int64 → Watching
start from = record { cursor = from; backoff = 200; events = [] }

-- One turn's connection: the loop is interrupted before it, it cannot be made, its stream gives some
-- events and then an error, or the caller closes the watch after some events.
pub data Link : Type 0 where
  closed_before : Link
  canceled_before fails_to_open : Error → Link
  breaks : List WatchEvent → Error → Link
  closes : List WatchEvent → Link

-- The wait after an error.
pub data Pause : Type 0 where
  elapses closed_during : Pause
  canceled_during : Error → Pause

-- The loop goes on, or has returned, with an error for the caller or without.
pub data Watch : Type 0 where
  running closed : Watching → Watch
  failed : Error → Watching → Watch

abbrev pub watching_of : Watch → Watching
watching_of (running w) = w
watching_of (closed w) = w
watching_of (failed e w) = w

-- `pumpWatch`
unfoldable pub pump_watch : Watching → List WatchEvent → Watching
pump_watch w [] = w
pump_watch w (ev ∷ evs) =
    pump_watch (record w { cursor = ev.revision; events = w.events ++ ev ∷ [] }) evs

abbrev pub is_compacted : Error → Bool
is_compacted (sentinel Sentinel.history_compacted) = true
is_compacted (sentinel Sentinel.cas_conflict) = false
is_compacted (sentinel Sentinel.instance_gone) = false
is_compacted (sentinel Sentinel.no_quorum) = false
is_compacted (sentinel Sentinel.not_leader) = false
is_compacted (sentinel Sentinel.no_endpoints) = false
is_compacted (rpc st) = false
is_compacted (plain e) = false

abbrev pub pause_of : Watching → Pause → Watch
pause_of w elapses =
    running (record w { backoff = if ltb w.backoff 2000 then w.backoff * 2 else w.backoff })
pause_of w closed_during = closed w
pause_of w (canceled_during e) = failed e w

abbrev pub after_error : Watching → Error → Pause → Watch
after_error w e p =
    if is_compacted (map_status e)
    then failed (sentinel Sentinel.history_compacted) w
    else pause_of w p

unfoldable pub watch_turn : Watching → Link → Pause → Watch
unfolding pump_watch map_status
watch_turn w closed_before p = closed w
watch_turn w (canceled_before e) p = failed e w
watch_turn w (fails_to_open e) p = after_error w e p
watch_turn w (breaks evs e) p = after_error (pump_watch w evs) e p
watch_turn w (closes evs) p = closed (pump_watch w evs)

-- `watchLoop`, on what its turns meet.
unfoldable pub watch_loop : Watching → List (Link × Pause) → Watch
unfolding watch_turn
watch_loop w [] = running w
watch_loop w ((l, p) ∷ turns) = elim (watch_turn w l p) [
  | running w' ↦ watch_loop w' turns
  | closed w' ↦ closed w'
  | failed e w' ↦ failed e w'
]
