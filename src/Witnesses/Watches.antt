-- ===== src/Witnesses/Watches.antt =====
-- The theorem on a client's watch at a concrete input: two connections for two events.
use repository.Base.{◌*◌, ◌≡◌, refl, List, [], ◌∷◌, ◌++◌, arith}
use repository.Base.Int64.{Int64}
use repository.Proto.{KeyValue, WatchEvent, Kind}
use repository.Store.Ring.{Event}
use repository.Store.Watch.{match_kv}
use repository.Store.State.{clone_kv}
use repository.Store.Log.Backlog.{missing}
use repository.Client.Wire.{plain, Plain}
use repository.Client.Watching.{
  start, Link, breaks, closes, Pause, elapses, watching_of, watch_turn, watch_loop,
}
use repository.Client.Watching.Delivers.{AreServed, watch_loop_delivers}

abbrev record_of : Int64 → KeyValue
record_of revision = record {
  namespace = "app";
  key = "x";
  value = [];
  version = revision;
  revision = revision;
  ttl_ms = 0;
  expire_at_ms = 0;
}

abbrev two_events : List Event
two_events =
    record { seq = 4096; kind = Kind.put; kv = record_of 1 }
    ∷ record { seq = 8192; kind = Kind.put; kv = record_of 2 }
    ∷ []

abbrev event_of : Int64 → WatchEvent
event_of revision = record { kind = Kind.put; kv = record_of revision; revision = revision * 4096 }

abbrev two_links : List (Link × Pause)
two_links =
    (breaks (event_of 1 ∷ []) (plain Plain.other), elapses)
    ∷ (closes (event_of 2 ∷ []), elapses)
    ∷ []

links-AreServed : AreServed "app" "x" two_events (start 5) two_links
unfolding AreServed missing match_kv clone_kv watch_turn
links-AreServed = ((event_of 2 ∷ [], refl), (([], refl), tt))

watch_loop_delivers_example :
    (let w = watching_of (watch_loop (start 5) two_links) in
      w.events ++ missing "app" "x" w.cursor two_events ≡ missing "app" "x" 5 two_events)
watch_loop_delivers_example =
    watch_loop_delivers "app" "x" two_events 5 two_links (omega arith) (omega arith)
      (omega arith, (omega arith, tt)) (omega arith, (omega arith, tt)) links-AreServed
