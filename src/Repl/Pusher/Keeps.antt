-- ===== src/Repl/Pusher/Keeps.antt =====
-- A step of a stream's sending goroutine against the leader and the other streams' signals (stream.go:
-- HandleStreamWithInitial; broadcaster.go: subscribe, unsubscribe).
use mathlib.Core.Path.{subst}
use repository.Base.{
  if_either, ℕ, ◌+◌, ◌^◌, ◌≤◌, ◌<◌, ◌≡◌, ◌≢◌, refl, ap, List, [], ◌∷◌, map, Option, none, some,
  arith, Bool, true, false, nat_comparable,
}
use repository.Base.Int64.{Int64}
use repository.Base.Int64
use repository.Base.Dict.{find, find-store_apart, find-erase_apart}
use repository.Proto.{Payload, entry}
use repository.Repl.Broadcaster.{subscribe, unsubscribe}
use repository.Repl.Catchup.{catchup, catchup_messages, entries_after}
use repository.Repl.Pusher.{
  Source, Pusher, Phase, After, reads_position, has_sent, waiting_first, finished, catching_up,
  sending, positioning, subscribing, idle, checking, fetched, Action, goes, fails, stops, Push,
  blocked, panicked, moves, push, push_message, push_catchup, push_entries, push_first, take_signal,
  stop_or, drop_sub, sub_of, to_phase, finish,
}

-- The leader, the proposals still to be signalled and the signals to other subscriptions stay.
pub record Keeps (w : Source) (sub : Option Int64) (w' : Source) : Type 0 where
  pub leader : w'.leader ≡ w.leader
  pub unannounced : w'.unannounced ≡ w.unannounced
  pub seq : w.ping.seq ≤ w'.ping.seq
  pub waiting :
      (id : Int64) → id ≤ w.ping.seq → sub ≢ some id → find id w'.ping.subs ≡ find id w.ping.subs

Keeps-refl : (w : Source) (sub : Option Int64) → Keeps w sub w
Keeps-refl w sub = record {
  leader = refl;
  unannounced = refl;
  seq = omega arith;
  waiting = λ id old apart. refl;
}

Keeps-drop_sub : (w : Source) (sub : Option Int64) → Keeps w sub (drop_sub sub w)
unfolding unsubscribe
Keeps-drop_sub w none = Keeps-refl w none
Keeps-drop_sub w (some i) = record {
  leader = refl;
  unannounced = refl;
  seq = omega arith;
  waiting = λ id old apart. find-erase_apart i id w.ping.subs (λ e. apart (ap some e));
}

Keeps-subscribe :
    (w : Source) → w.ping.seq + 1 < 2 ^ 63 → Keeps w none (record w { ping = (subscribe w.ping).1 })
unfolding subscribe
Keeps-subscribe w room = record {
  leader = refl;
  unannounced = refl;
  seq = omega (arith, room);
  waiting = λ id old apart.
      find-store_apart (Int64.add w.ping.seq 1) id false w.ping.subs
        (λ e. omega (arith, e, room, old));
}

abbrev Kept : Source → Option Int64 → Push → Type 0
Kept w sub blocked = Unit
Kept w sub panicked = Unit
Kept w sub (moves w' p') = Keeps w sub w'

take_signal-Kept :
    (w : Source) (p : Pusher) (id last : Int64) (o : Option Bool)
    → Kept w (some id) (take_signal w p id last o)
take_signal-Kept w p id last none = tt
take_signal-Kept w p id last (some false) = tt
take_signal-Kept w p id last (some true) = record {
  leader = refl;
  unannounced = refl;
  seq = omega arith;
  waiting = λ j old apart. find-store_apart id j false w.ping.subs (λ e. apart (ap some e));
}

module _ (w : Source) where
  finish-Kept : (p : Pusher) → Kept w (sub_of p.phase) (finish w p)
  finish-Kept p = Keeps-drop_sub w (sub_of p.phase)

  stop_or-Kept :
      (a : Action) (p : Pusher) (other : Push)
      → Kept w (sub_of p.phase) other
      → Kept w (sub_of p.phase) (stop_or a w p other)
  stop_or-Kept goes p other o = o
  stop_or-Kept fails p other o = o
  stop_or-Kept stops p other o =
      if_either (Kept w (sub_of p.phase)) w.leader.stopped _ _ (finish-Kept p) tt

  push_message-Kept :
      (a : Action) (p : Pusher) (ms : List Payload) (rest : After)
      → Kept w (sub_of p.phase) (push_message a w p ms rest)
  push_message-Kept a p [] (reads_position sub) = Keeps-refl w _
  push_message-Kept a p [] (has_sent id li) = Keeps-refl w _
  push_message-Kept fails p (m ∷ ms) rest = finish-Kept p
  push_message-Kept goes p (m ∷ ms) rest = Keeps-refl w _
  push_message-Kept stops p (m ∷ ms) rest = Keeps-refl w _

  push_first-Kept : (p : Pusher) → Kept w (sub_of p.phase) (push_first w p)
  push_first-Kept p =
      elim p.initial
        as (λ o. Kept w (sub_of p.phase) (elim o as (λ o. Push) [
          | none ↦ blocked
          | some last ↦ moves w (to_phase p (catching_up none last))
        ])) [ none ↦ tt | some last ↦ Keeps-refl w _ ]

  push_catchup-Kept :
      (p : Pusher) (sub : Option Int64) (last : Int64)
      → Kept w (sub_of p.phase) (push_catchup w p sub last)
  push_catchup-Kept p sub last =
      elim (catchup w.leader last)
        as (λ o. Kept w (sub_of p.phase) (elim o as (λ o. Push) [
          | none ↦ panicked
          | some r ↦ moves w (to_phase p (sending (catchup_messages r) (reads_position sub)))
        ])) [ none ↦ tt | some r ↦ Keeps-refl w _ ]

  push_entries-Kept :
      (p : Pusher) (id last li : Int64) → Kept w (sub_of p.phase) (push_entries w p id last li)
  push_entries-Kept p id last li =
      elim (entries_after w.leader last)
        as (λ o. Kept w (sub_of p.phase) (elim o as (λ o. Push) [
          | none ↦ panicked
          | some none ↦ moves w (to_phase p (catching_up (some id) last))
          | some (some es) ↦ moves w (to_phase p (sending (map entry es) (has_sent id li)))
        ])) [ none ↦ tt | some none ↦ Keeps-refl w _ | some (some es) ↦ Keeps-refl w _ ]

  abbrev at : Option Int64 → Phase → ℕ → List Payload → Pusher
  at initial phase rounds sent = record {
    initial = initial;
    phase = phase;
    rounds = rounds;
    sent = sent;
  }

  push-Kept :
      (a : Action) (initial : Option Int64) (phase : Phase) (rounds : ℕ) (sent : List Payload)
      → w.ping.seq + 1 < 2 ^ 63
      → Kept w (sub_of phase) (push a w (at initial phase rounds sent))
  unfolding push
  push-Kept a initial waiting_first rounds sent room =
      stop_or-Kept a (at initial waiting_first rounds sent) _
        (push_first-Kept (at initial waiting_first rounds sent))
  push-Kept a initial finished rounds sent room = tt
  push-Kept a initial (catching_up sub last) rounds sent room =
      push_catchup-Kept (at initial (catching_up sub last) rounds sent) sub last
  push-Kept a initial (sending ms rest) rounds sent room =
      push_message-Kept a (at initial (sending ms rest) rounds sent) ms rest
  push-Kept a initial (positioning none) rounds sent room = Keeps-refl w _
  push-Kept a initial (positioning (some id)) rounds sent room = Keeps-refl w _
  push-Kept a initial (subscribing last) rounds sent room = Keeps-subscribe w room
  push-Kept a initial (idle id last) rounds sent room =
      stop_or-Kept a (at initial (idle id last) rounds sent) _
        (take_signal-Kept w (at initial (idle id last) rounds sent) id last (find id w.ping.subs))
  push-Kept a initial (checking id last) rounds sent room = Keeps-refl w _
  push-Kept a initial (fetched id last li) rounds sent room =
      push_entries-Kept (at initial (fetched id last li) rounds sent) id last li

pub push-Keeps :
    (a : Action) (w : Source) (p : Pusher) (w' : Source) (p' : Pusher)
    → w.ping.seq + 1 < 2 ^ 63
    → push a w p ≡ moves w' p'
    → Keeps w (sub_of p.phase) w'
push-Keeps a w p w' p' room e =
    subst (Kept w (sub_of p.phase)) e (push-Kept w a p.initial p.phase p.rounds p.sent room)
