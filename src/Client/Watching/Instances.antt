-- ===== src/Client/Watching/Instances.antt =====
-- A client's watch of a service, which goes from node to node (distconf/client/client.go: WatchInstances).
use repository.Base.{ℕ, ◌*◌, List, [], ◌∷◌, ◌++◌, ltb, if◌then◌else◌}
use repository.Client.Wire.{Error}
use repository.Client.Watching.{Pause, elapses, closed_during, canceled_during}
use repository.Server.Cluster.{DiscoverResponse}

-- `backoff` is in milliseconds; `updates` is what the caller was given.
pub record Discovering : Type 0 where
  pub backoff : ℕ
  pub updates : List DiscoverResponse

abbrev pub begin_discovering : Discovering
begin_discovering = record { backoff = 200; updates = [] }

-- One turn's connection: the watch is closed or canceled before it, it cannot be made, its stream gives
-- some responses and breaks, or the caller closes the watch after some responses.
pub data DiscoverLink : Type 0 where
  closed_before fails_to_open : DiscoverLink
  canceled_before : Error → DiscoverLink
  breaks closes : List DiscoverResponse → DiscoverLink

pub data DiscoverWatch : Type 0 where
  running closed : Discovering → DiscoverWatch
  failed : Error → Discovering → DiscoverWatch

abbrev pub take_updates : Discovering → List DiscoverResponse → Discovering
take_updates d resps = record d { updates = d.updates ++ resps }

-- The wait, whatever the error was.
abbrev pub pause_discovering : Discovering → Pause → DiscoverWatch
pause_discovering d elapses =
    running (record d { backoff = if ltb d.backoff 2000 then d.backoff * 2 else d.backoff })
pause_discovering d closed_during = closed d
pause_discovering d (canceled_during e) = failed e d

unfoldable pub discover_turn : Discovering → DiscoverLink → Pause → DiscoverWatch
discover_turn d closed_before p = closed d
discover_turn d (canceled_before e) p = failed e d
discover_turn d fails_to_open p = pause_discovering d p
discover_turn d (breaks resps) p = pause_discovering (take_updates d resps) p
discover_turn d (closes resps) p = closed (take_updates d resps)

-- The loop, on what its turns meet.
unfoldable pub discover_loop : Discovering → List (DiscoverLink × Pause) → DiscoverWatch
unfolding discover_turn
discover_loop d [] = running d
discover_loop d ((l, p) ∷ turns) = elim (discover_turn d l p) [
  | running d' ↦ discover_loop d' turns
  | closed d' ↦ closed d'
  | failed e d' ↦ failed e d'
]
