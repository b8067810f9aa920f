-- ===== src/Client/Watching/Delivers.antt =====
-- What a client's watch delivers over any number of connections (distconf/client/client.go: watchLoop,
-- pumpWatch).
use mathlib.Core.List.{append_assoc}
use repository.Base.{
  ◌^◌, ◌<◌, ◌≡◌, refl, ap, sym, ◌∙◌, true, false, String, List, [], ◌∷◌, ◌++◌, arith, if◌then◌else◌,
}
use repository.Base.Int64.{Int64}
use repository.Proto.{WatchEvent}
use repository.Store.Ring.{Event}
use repository.Store.Log.{Ascending, Below}
use repository.Store.Log.Backlog.{missing}
use repository.Store.Log.Resume.{missing-next}
use repository.Client.Wire.{Error, sentinel, Sentinel, map_status}
use repository.Client.Watching.{
  Watching, start, Link, closed_before, canceled_before, fails_to_open, breaks, closes, Pause,
  elapses, closed_during, canceled_during, Watch, running, closed, failed, watching_of, pump_watch,
  is_compacted, pause_of, after_error, watch_turn, watch_loop,
}

module _ (ns key : String) (log : List Event) where
  -- A stream asked for what is newer than the cursor gives the first of these events.
  abbrev pub IsServed : Int64 → Link → Type 0
  IsServed cursor closed_before = Unit
  IsServed cursor (canceled_before e) = Unit
  IsServed cursor (fails_to_open e) = Unit
  IsServed cursor (breaks evs e) =
      (rest : List WatchEvent) × (missing ns key cursor log ≡ evs ++ rest)
  IsServed cursor (closes evs) =
      (rest : List WatchEvent) × (missing ns key cursor log ≡ evs ++ rest)

  -- Every connection of a run is served so, from where the one before left off.
  unfoldable pub AreServed : Watching → List (Link × Pause) → Type 0
  AreServed w [] = Unit
  AreServed w ((l, p) ∷ turns) =
      IsServed w.cursor l × AreServed (watching_of (watch_turn w l p)) turns

  -- What was delivered and what the cursor misses make up a fixed list.
  record Keeps (all : List WatchEvent) (w : Watching) : Type 0 where
    fits : w.cursor < 2 ^ 63
    whole : w.events ++ missing ns key w.cursor log ≡ all

  module _ (ordered : Ascending 0 log) (below : Below (2 ^ 63) log) (all : List WatchEvent) where
    pump_watch-Keeps :
        (evs : List WatchEvent) (w : Watching) (rest : List WatchEvent)
        → missing ns key w.cursor log ≡ evs ++ rest
        → Keeps all w
        → Keeps all (pump_watch w evs)
    unfolding pump_watch
    pump_watch-Keeps [] w rest served k = k
    pump_watch-Keeps (ev ∷ evs) w rest served k =
        let (later, small, next) =
          missing-next ns key w.cursor 0 (2 ^ 63) log ev (evs ++ rest) k.fits (omega arith) ordered
            below served in
        pump_watch-Keeps evs (record w { cursor = ev.revision; events = w.events ++ ev ∷ [] }) rest
          next
          record {
            fits = small;
            whole =
                append_assoc w.events (ev ∷ []) (missing ns key ev.revision log)
                ∙ ap (λ z. w.events ++ ev ∷ z) next
                ∙ ap (λ z. w.events ++ z) (sym served)
                ∙ k.whole;
          }

    pause_of-Keeps :
        (w : Watching) (p : Pause) → Keeps all w → Keeps all (watching_of (pause_of w p))
    pause_of-Keeps w elapses k = record { fits = k.fits; whole = k.whole }
    pause_of-Keeps w closed_during k = k
    pause_of-Keeps w (canceled_during e) k = k

    after_error-Keeps :
        (w : Watching) (e : Error) (p : Pause)
        → Keeps all w
        → Keeps all (watching_of (after_error w e p))
    after_error-Keeps w e p k =
        elim (is_compacted (map_status e))
          as (λ b. Keeps all (
            watching_of
              (if b then failed (sentinel Sentinel.history_compacted) w else pause_of w p))) [
                | true ↦ k
                | false ↦ pause_of-Keeps w p k
              ]

    watch_turn-Keeps :
        (w : Watching) (l : Link) (p : Pause)
        → IsServed w.cursor l
        → Keeps all w
        → Keeps all (watching_of (watch_turn w l p))
    unfolding watch_turn
    watch_turn-Keeps w closed_before p s k = k
    watch_turn-Keeps w (canceled_before e) p s k = k
    watch_turn-Keeps w (fails_to_open e) p s k = after_error-Keeps w e p k
    watch_turn-Keeps w (breaks evs e) p (rest, s) k =
        after_error-Keeps (pump_watch w evs) e p (pump_watch-Keeps evs w rest s k)
    watch_turn-Keeps w (closes evs) p (rest, s) k = pump_watch-Keeps evs w rest s k

    watch_loop-Keeps :
        (turns : List (Link × Pause)) (w : Watching)
        → AreServed w turns
        → Keeps all w
        → Keeps all (watching_of (watch_loop w turns))
    unfolding watch_loop AreServed
    watch_loop-Keeps [] w s k = k
    watch_loop-Keeps ((l, p) ∷ turns) w (s, more) k =
        elim (watch_turn w l p)
            as (λ r.
              AreServed (watching_of r) turns
              → Keeps all (watching_of r)
              → Keeps all (
                  watching_of (elim r as (λ r. Watch) [
                    | running w' ↦ watch_loop w' turns
                    | closed w' ↦ closed w'
                    | failed e w' ↦ failed e w'
                  ]))) [
                    | running w' ↦ (λ more k. watch_loop-Keeps turns w' more k)
                    | closed w' ↦ (λ more k. k)
                    | failed e w' ↦ (λ more k. k)
                  ]
          more (watch_turn-Keeps w l p s k)

  -- A watch that begins with a cursor above 0, over any number of connections, each of which gives a
  -- first part of what its cursor asks for, delivers the first part of the events newer than the cursor
  -- it began with, in order and once each, and its last cursor asks for the rest.
  pub watch_loop_delivers :
      (from : Int64) (turns : List (Link × Pause))
      → 0 < from
      → from < 2 ^ 63
      → Ascending 0 log
      → Below (2 ^ 63) log
      → AreServed (start from) turns
      → (let w = watching_of (watch_loop (start from) turns) in
          w.events ++ missing ns key w.cursor log ≡ missing ns key from log)
  watch_loop_delivers from turns later fits ordered below served =
      (watch_loop-Keeps ordered below (missing ns key from log) turns (start from) served
        (record { fits = fits; whole = refl })).whole
