-- ===== src/Repl/Pusher/Sends.antt =====
-- The messages of one step of a stream's sending goroutine (stream.go: HandleStreamWithInitial).
use repository.Base.{
  if_either, ℕ, List, [], ◌∷◌, map, Option, none, some, All, All-append, Bool, true, false,
  nat_comparable,
}
use repository.Base.Int64.{Int64}
use repository.Base.Int64
use repository.Base.Dict.{find}
use repository.Proto.{LogEntry, Payload, entry, PbSnapshot}
use repository.Repl.Leader.{last_index}
use repository.Repl.Catchup.{catchup, catchup_messages, entries_after}
use repository.Repl.Commit.Prefix.{Holds}
use repository.Repl.Commit.Saved.{Saves}
use repository.Store.State.{Store}
use repository.Repl.Catchup.Numbered.{Numbered, Sends, Gives, catchup-Sends, entries_after-Gives}
use repository.Repl.Pusher.{
  Source, Pusher, Phase, After, reads_position, has_sent, waiting_first, finished, catching_up,
  sending, positioning, subscribing, idle, checking, fetched, Action, goes, fails, stops, Push,
  blocked, panicked, moves, push, push_message, push_catchup, push_entries, stop_or, push_first,
  take_signal, to_phase,
}

-- The messages that the goroutine is about to send.
abbrev pub Queued : (Int64 → Int64) → (Store → PbSnapshot) → List LogEntry → Phase → Type 0
Queued clock f entries waiting_first = Unit
Queued clock f entries finished = Unit
Queued clock f entries (catching_up sub last) = Unit
Queued clock f entries (sending ms rest) = All (Numbered clock f entries) ms
Queued clock f entries (positioning sub) = Unit
Queued clock f entries (subscribing last) = Unit
Queued clock f entries (idle id last) = Unit
Queued clock f entries (checking id last) = Unit
Queued clock f entries (fetched id last li) = Unit

abbrev pub Pushes : (Int64 → Int64) → (Store → PbSnapshot) → Source → List LogEntry → Push → Type 0
Pushes clock f w entries blocked = Unit
Pushes clock f w entries panicked = Unit
Pushes clock f w entries (moves w' p') =
    All (Numbered clock f entries) p'.sent × Queued clock f entries p'.phase

module _ {clock : Int64 → Int64} {f : Store → PbSnapshot} (w : Source) (entries : List LogEntry)
    (h : Holds clock w.leader entries) (v : Saves clock f w.leader entries) where
  stop_or-Pushes :
      (a : Action) (p : Pusher) (other : Push)
      → All (Numbered clock f entries) p.sent
      → Pushes clock f w entries other
      → Pushes clock f w entries (stop_or a w p other)
  stop_or-Pushes goes p other sent o = o
  stop_or-Pushes fails p other sent o = o
  stop_or-Pushes stops p other sent o =
      if_either (Pushes clock f w entries) w.leader.stopped _ _ (sent, tt) tt

  push_message-Pushes :
      (a : Action) (p : Pusher) (ms : List Payload) (rest : After)
      → All (Numbered clock f entries) p.sent
      → All (Numbered clock f entries) ms
      → Pushes clock f w entries (push_message a w p ms rest)
  push_message-Pushes a p [] (reads_position sub) sent q = (sent, tt)
  push_message-Pushes a p [] (has_sent id li) sent q = (sent, tt)
  push_message-Pushes fails p (m ∷ ms) rest sent q = (sent, tt)
  push_message-Pushes goes p (m ∷ ms) rest sent q =
      (All-append (Numbered clock f entries) p.sent (m ∷ []) sent (q.0, tt), q.1)
  push_message-Pushes stops p (m ∷ ms) rest sent q =
      (All-append (Numbered clock f entries) p.sent (m ∷ []) sent (q.0, tt), q.1)

  push_first-Pushes :
      (p : Pusher)
      → All (Numbered clock f entries) p.sent
      → Pushes clock f w entries (push_first w p)
  push_first-Pushes p sent =
      elim p.initial
        as (λ o. Pushes clock f w entries (elim o as (λ o. Push) [
          | none ↦ blocked
          | some last ↦ moves w (to_phase p (catching_up none last))
        ])) [ none ↦ tt | some last ↦ (sent, tt) ]

  push_catchup-Pushes :
      (p : Pusher) (sub : Option Int64) (last : Int64)
      → All (Numbered clock f entries) p.sent
      → Pushes clock f w entries (push_catchup w p sub last)
  push_catchup-Pushes p sub last sent =
      elim (catchup w.leader last)
          as (λ o.
            Sends w.leader entries h v o
            → Pushes clock f w entries (elim o as (λ o. Push) [
              | none ↦ panicked
              | some r ↦ moves w (to_phase p (sending (catchup_messages r) (reads_position sub)))
            ])) [ none ↦ (λ x. tt) | some r ↦ (λ x. (sent, x)) ]
        (catchup-Sends w.leader entries h v last)

  push_entries-Pushes :
      (p : Pusher) (id last li : Int64)
      → All (Numbered clock f entries) p.sent
      → Pushes clock f w entries (push_entries w p id last li)
  push_entries-Pushes p id last li sent =
      elim (entries_after w.leader last)
          as (λ o.
            Gives w.leader entries h v o
            → Pushes clock f w entries (elim o as (λ o. Push) [
              | none ↦ panicked
              | some none ↦ moves w (to_phase p (catching_up (some id) last))
              | some (some es) ↦ moves w (to_phase p (sending (map entry es) (has_sent id li)))
            ])) [
              | none ↦ (λ x. tt)
              | some none ↦ (λ x. (sent, tt))
              | some (some es) ↦ (λ x. (sent, x))
            ]
        (entries_after-Gives w.leader entries h v last)

  take_signal-Pushes :
      (p : Pusher) (id last : Int64) (o : Option Bool)
      → All (Numbered clock f entries) p.sent
      → Pushes clock f w entries (take_signal w p id last o)
  take_signal-Pushes p id last none sent = tt
  take_signal-Pushes p id last (some false) sent = tt
  take_signal-Pushes p id last (some true) sent = (sent, tt)

  abbrev at : Option Int64 → Phase → ℕ → List Payload → Pusher
  at initial phase rounds sent = record {
    initial = initial;
    phase = phase;
    rounds = rounds;
    sent = sent;
  }

  pub push-Pushes :
      (a : Action) (initial : Option Int64) (phase : Phase) (rounds : ℕ) (sent : List Payload)
      → All (Numbered clock f entries) sent
      → Queued clock f entries phase
      → Pushes clock f w entries (push a w (at initial phase rounds sent))
  unfolding push
  push-Pushes a initial waiting_first rounds sent s q =
      stop_or-Pushes a (at initial waiting_first rounds sent) _ s
        (push_first-Pushes (at initial waiting_first rounds sent) s)
  push-Pushes a initial finished rounds sent s q = tt
  push-Pushes a initial (catching_up sub last) rounds sent s q =
      push_catchup-Pushes (at initial (catching_up sub last) rounds sent) sub last s
  push-Pushes a initial (sending ms rest) rounds sent s q =
      push_message-Pushes a (at initial (sending ms rest) rounds sent) ms rest s q
  push-Pushes a initial (positioning none) rounds sent s q = (s, tt)
  push-Pushes a initial (positioning (some id)) rounds sent s q = (s, tt)
  push-Pushes a initial (subscribing last) rounds sent s q = (s, tt)
  push-Pushes a initial (idle id last) rounds sent s q =
      stop_or-Pushes a (at initial (idle id last) rounds sent) _ s
        (take_signal-Pushes (at initial (idle id last) rounds sent) id last (find id w.ping.subs) s)
  push-Pushes a initial (checking id last) rounds sent s q =
      (s, if_either (Queued clock f entries) (Int64.le (last_index w.leader) last) _ _ tt tt)
  push-Pushes a initial (fetched id last li) rounds sent s q =
      push_entries-Pushes (at initial (fetched id last li) rounds sent) id last li s
