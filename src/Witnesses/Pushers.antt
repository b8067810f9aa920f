-- ===== src/Witnesses/Pushers.antt =====
-- The theorems on the leader's goroutines at a concrete input: one entry, in a round of the commit loop and
-- sent to a follower that waits.
use repository.Base.{◌≤◌, ◌≡◌, ◌⊎◌, ◌*◌, inl, refl, true, false, [], ◌∷◌, none, some, arith, All}
use repository.Base.Dict.{find, store}
use repository.Proto.{put, LogEntry, entry}
use repository.Store.State.{Store, new}
use repository.Repl.Leader.{last_index, votes, need, match_of}
use repository.Repl.Broadcaster.{subscribe, notify, signal_all}
use repository.Repl.Catchup.{catchup, catchup_messages, entries_after, slice_from}
use repository.Repl.Commit.Run.{proposes}
use repository.Repl.Applier.{quorum}
use repository.Repl.Commit.{commit_round, new_commit}
use repository.Repl.Commit.Wakes
use repository.Repl.Commit.Wakes.{Loop, Reach-votes}
use repository.Repl.Follower.Runner.{
  FollowerRunner, fails_to_open, streams, new_follower_runner, run,
}
use repository.Repl.Follower.Runner.Based.{Based, Faults, Genuine, shown, run-Based}
use repository.Repl.Pusher.{
  Source, Pusher, Phase, goes, push, start, waiting_first, catching_up, sending, reads_position,
  has_sent, positioning, subscribing, idle, checking, fetched,
}
use repository.Repl.Pusher.Run.{Reach, here, next, leads, announces, reports, pushes, source}
use repository.Repl.Pusher.Genuine.{push-Genuine}
use repository.Repl.Pusher.Ready.{Covered}
use repository.Repl.Pusher.Wakes.{push-Covered}
use repository.Witnesses.{
  clock, put_op, one_put, three_nodes, proposed, propose-first, one_put-AreSet, replay-nothing,
}
use repository.Server.Assembly.{exporter}

abbrev hub : Source
hub = source three_nodes exporter

abbrev subscribed : Source
subscribed = record hub { ping = record { subs = (1, false) ∷ []; seq = 1 } }

abbrev appended : Source
appended = record subscribed { leader = proposed; unannounced = 1 }

abbrev announced : Source
announced = record appended { ping = record { subs = (1, true) ∷ []; seq = 1 }; unannounced = 0 }

abbrev taken : Source
taken = record announced { ping = record { subs = (1, false) ∷ []; seq = 1 } }

abbrev first_entry : LogEntry
first_entry = record { index = 1; term = 1; op = put put_op }

abbrev reported : Phase → Pusher
reported phase = record start { initial = some 0; phase = phase }

abbrev woken : Phase → Pusher
woken phase = record (reported phase) { rounds = 1 }

abbrev delivered : Phase → Pusher
delivered phase = record (woken phase) { sent = entry first_entry ∷ [] }

waits_first : Reach clock hub subscribed [] (reported (idle 1 0))
unfolding push catchup catchup_messages last_index subscribe store slice_from
waits_first =
    next
      (next
        (next
          (next
            (next
              (next (here refl refl refl) (reports {p' = reported waiting_first} 0 refl refl refl))
              (pushes {w' = hub} {p' = reported (catching_up none 0)} goes (omega arith) refl refl))
            (pushes {w' = hub} {p' = reported (sending [] (reads_position none))} goes (omega arith)
              refl refl))
          (pushes {w' = hub} {p' = reported (positioning none)} goes (omega arith) refl refl))
        (pushes {w' = hub} {p' = reported (subscribing 0)} goes (omega arith) refl refl))
      (pushes goes (omega arith) refl refl)

signalled : Reach clock hub announced one_put (reported (idle 1 0))
unfolding notify signal_all
signalled =
    next
      (next waits_first
        (leads {w' = appended} proposed (proposes (put put_op) 1 propose-first refl) refl refl))
      (announces 0 refl refl refl refl)

delivers : Reach clock hub taken one_put (delivered (idle 1 1))
unfolding push entries_after last_index find store slice_from
delivers =
    next
      (next
        (next
          (next
            (next
              (next signalled
                (pushes {w' = taken} {p' = woken (checking 1 0)} goes (omega arith) refl refl))
              (pushes {w' = taken} {p' = woken (fetched 1 0 1)} goes (omega arith) refl refl))
            (pushes {w' = taken} {p' = woken (sending (entry first_entry ∷ []) (has_sent 1 1))} goes
              (omega arith) refl refl))
          (pushes {w' = taken} {p' = delivered (sending [] (has_sent 1 1))} goes (omega arith) refl
            refl))
        (pushes {w' = taken} {p' = delivered (checking 1 1)} goes (omega arith) refl refl))
      (pushes goes (omega arith) refl refl)

push-Genuine_example : All (Genuine clock exporter one_put) (entry first_entry ∷ [])
push-Genuine_example = push-Genuine clock three_nodes exporter delivers (omega arith) one_put-AreSet

push-Covered_example : Covered taken one_put 1 1
push-Covered_example =
    push-Covered clock three_nodes exporter 1 1 delivers (omega arith) refl (omega arith)

abbrev runner : FollowerRunner
runner = new_follower_runner 2 "a"

new-Based : Based clock clock one_put new
new-Based = record {
  base = new;
  is_base = inl refl;
  count = 0;
  replayed = replay-nothing;
  counted = refl;
  within = omega arith;
}

once_sent : Genuine clock shown one_put (entry first_entry)
once_sent = (0, refl, refl, λ e. cc)

run-Based_example :
    Faults clock clock one_put
      × (run clock runner new
            (fails_to_open ∷ streams (entry first_entry ∷ entry first_entry ∷ []) ∷ [])
          ≡ none)
    ⊎ ((s' : Store) × (run clock runner new
            (fails_to_open ∷ streams (entry first_entry ∷ entry first_entry ∷ []) ∷ [])
          ≡ some s')
        × Based clock clock one_put s'
        × (new.rev ≤ s'.rev))
run-Based_example =
    run-Based clock clock one_put (omega arith) (omega arith, tt) one_put-AreSet runner
      (fails_to_open ∷ streams (entry first_entry ∷ entry first_entry ∷ []) ∷ []) new
      (tt, ((once_sent, (once_sent, tt)), tt)) new-Based

-- A round that finds no majority.
abbrev round_done : Loop
round_done = record { leader = proposed; waiting = false; taken = false; owed = 0 }

commit_round-proposed : commit_round clock proposed ≡ some (proposed, [])
unfolding commit_round new_commit last_index need quorum votes match_of find
commit_round-proposed = refl

polled : Wakes.Reach clock (Wakes.start three_nodes exporter) round_done one_put
polled =
    Wakes.next
      (Wakes.next
        (Wakes.next
          (Wakes.next (Wakes.here refl refl)
            (Wakes.proposes (put put_op) 1 proposed propose-first refl refl))
          (Wakes.wakes 0 refl refl))
        (Wakes.takes refl refl refl))
      (Wakes.rounds proposed [] refl commit_round-proposed refl)

Reach-votes_example : votes proposed 1 * 2 ≤ 3
unfolding last_index
Reach-votes_example =
    Reach-votes clock three_nodes exporter 1 polled (omega arith) refl refl refl (omega arith)
      (omega arith)
