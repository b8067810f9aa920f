-- ===== src/Witnesses/Streams.antt =====
-- The theorems on watch streams at a concrete input: one stream opened after one put.
use repository.Base.{◌≡◌, ◌≢◌, refl, List, [], ◌∷◌, ◌++◌, Option, none, some, arith}
use repository.Base.Dict.{find, store}
use repository.Proto.{PutOp, put}
use repository.Store.Ring.{Event, append_event}
use repository.Store.State.{Store, new, kv_to_pb, alive_kv, clone_kv}
use repository.Store.Emit.{emit_kv, after_emit, fanout_kv}
use repository.Store.Apply.{apply_put, check_version, write_entry, cur_version}
use repository.Store.Watch.{too_old, horizon, backlog_from, watch_kv, kv_watcher_chan}
use repository.Store.Log.Backlog.{missing}
use repository.Repl.Applier.{Applied, nothing, apply_op, replay}
use repository.Repl.History.{events_of}
use repository.Repl.Replay.{history}
use repository.Server.WatchLoop.{
  Session, takes, listening, Turn, blocked, faulted, moves, turn, start, open_turn, backlog_turn,
  look_turn, live_turn, receive_event,
}
use repository.Server.WatchLoop.Run.{Reach, here, next, turns, applies}
use repository.Server.WatchLoop.Complete.{turn_sends_in_order, turn_total, turn_blocked_sent}
use repository.Witnesses.{clock, put_op, one_put, after_put, replay-one_put}

abbrev put_log : List Event
put_log = history clock new one_put

abbrev next_store : Store → Turn → Store
next_store s (moves s' x') = s'
next_store s blocked = s
next_store s faulted = s

abbrev next_session : Session → Turn → Session
next_session x (moves s' x') = x'
next_session x blocked = x
next_session x faulted = x

abbrev asked : Turn
asked = turn "app" "x" takes after_put (start 4096)

abbrev nothing_sent : Turn
nothing_sent = turn "app" "x" takes (next_store after_put asked) (next_session (start 4096) asked)

abbrev listens : Turn
listens =
    turn "app" "x" takes (next_store after_put nothing_sent)
      (next_session (start 4096) nothing_sent)

abbrev second_put : PutOp
second_put = record put_op { value = 8 ∷ []; expected_version = 1 }

abbrev second_applied : Option (Applied × Store)
second_applied = apply_op (clock 2) (next_store after_put listens) 2 (put second_put)

abbrev applied_store : Option (Applied × Store) → Store
applied_store none = new
applied_store (some (r, s)) = s

abbrev applied_result : Option (Applied × Store) → Applied
applied_result none = nothing
applied_result (some (r, s)) = r

abbrev two_log : List Event
two_log =
    put_log
    ++ events_of (next_store after_put listens) 2 (put second_put) (applied_result second_applied)

abbrev delivers : Turn
delivers = turn "app" "x" takes (applied_store second_applied) (next_session (start 4096) listens)

abbrev last_store : Store
last_store = next_store after_put delivers

abbrev last_session : Session
last_session = next_session (start 4096) delivers

abbrev listening_store : Store
listening_store = next_store after_put listens

run_moves :
    (asked ≡ moves (next_store after_put asked) (next_session (start 4096) asked))
    × (nothing_sent
        ≡ moves (next_store after_put nothing_sent) (next_session (start 4096) nothing_sent))
    × (listens ≡ moves listening_store (next_session (start 4096) listens))
    × (second_applied ≡ some (applied_result second_applied, applied_store second_applied))
    × (delivers ≡ moves last_store last_session)
    × (turn "app" "x" takes last_store last_session ≡ blocked)
    × (last_session.phase ≡ listening 1)
unfolding turn replay apply_op apply_put check_version find write_entry emit_kv after_emit watch_kv
    open_turn too_old horizon append_event kv_to_pb backlog_from backlog_turn look_turn
    kv_watcher_chan store fanout_kv live_turn receive_event alive_kv cur_version clone_kv
run_moves = (refl, refl, refl, refl, refl, refl, refl)

room :
    (after_put.rev ≡ 1)
    × (after_put.watcher_seq ≡ 0)
    × ((next_store after_put asked).watcher_seq ≡ 1)
    × ((next_store after_put nothing_sent).watcher_seq ≡ 1)
    × (listening_store.rev ≡ 1)
    × ((applied_store second_applied).watcher_seq ≡ 1)
    × (last_store.watcher_seq ≡ 1)
unfolding turn replay apply_op apply_put check_version find write_entry emit_kv after_emit watch_kv
    open_turn too_old horizon append_event kv_to_pb backlog_from backlog_turn look_turn
    kv_watcher_chan store fanout_kv live_turn receive_event alive_kv cur_version clone_kv
room = (refl, refl, refl, refl, refl, refl, refl)

last_run : Reach "app" "x" after_put put_log (start 4096) last_store two_log last_session
last_run =
    let (m₁, m₂, m₃, m₄, m₅, m₆, m₇) = run_moves in
    let (r₁, r₂, r₃, r₄, r₅, r₆, r₇) = room in
    let r = next (here refl refl refl) (turns takes (omega (arith, r₂)) m₁ refl) in
    let r = next r (turns takes (omega (arith, r₃)) m₂ refl) in
    let r = next r (turns takes (omega (arith, r₄)) m₃ refl) in
    let r = next r (
      applies (clock 2) 2 (put second_put) (applied_result second_applied) (omega (arith, r₅))
        (omega arith) m₄ refl refl) in
    next r (turns takes (omega (arith, r₆)) m₅ refl)

turn_sends_in_order_example :
    last_session.sent ++ missing "app" "x" last_session.cursor two_log
    ≡ missing "app" "x" 4096 two_log
turn_sends_in_order_example =
    turn_sends_in_order clock one_put "app" "x" 4096 after_put last_store two_log last_session
      (omega arith, omega arith, tt) replay-one_put (omega arith) (omega (arith, room.0)) last_run

turn_total_example : turn "app" "x" takes last_store last_session ≢ faulted
turn_total_example =
    turn_total clock one_put "app" "x" 4096 after_put last_store two_log last_session
      (omega arith, omega arith, tt) replay-one_put (omega arith) (omega (arith, room.0)) last_run
      takes (omega (arith, room.6))

turn_blocked_sent_example : last_session.sent ≡ missing "app" "x" 4096 two_log
turn_blocked_sent_example =
    turn_blocked_sent clock one_put "app" "x" 4096 after_put last_store two_log last_session
      (omega arith, omega arith, tt) replay-one_put (omega arith) (omega (arith, room.0)) last_run 1
      run_moves.6 run_moves.5
