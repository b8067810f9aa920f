-- ===== src/Repl/Pusher/Ready.antt =====
-- A stream's subscription and its signals, over one step (stream.go: HandleStreamWithInitial;
-- broadcaster.go; leader.go: Propose, notifyReplicators).
use native.Mathlib.Decide.{dec_lt}
use repository.Base.{
  if_either, if_cases, ℕ, ◌+◌, ◌-◌, ◌^◌, ◌≤◌, ◌<◌, ◌≡◌, ◌≢◌, refl, sym, ◌∙◌, List, [], ◌∷◌, map,
  Option, none, some, length, arith, ◌⊎◌, inl, inr, Bool, true, false, nat_comparable,
}
use repository.Base.Int64.{Int64}
use repository.Base.Int64
use repository.Base.Dict.{Dict, find, store, find-store, agree_refl}
use repository.Proto.{LogEntry, Payload, entry}
use repository.Repl.Leader.{Leader, last_index}
use repository.Repl.Broadcaster.{subscribe, notify, signal_all}
use repository.Repl.Catchup.{catchup, catchup_messages, entries_after}
use repository.Repl.Pusher.{
  Source, Pusher, Phase, After, reads_position, has_sent, waiting_first, finished, catching_up,
  sending, positioning, subscribing, idle, checking, fetched, Action, goes, fails, stops, Push,
  blocked, panicked, moves, push, push_message, push_catchup, push_entries, push_first, push_check,
  push_subscribe, take_signal, stop_or, sub_of, sub_after, to_phase,
}
use repository.Repl.Pusher.Keeps.{Keeps}

-- Its subscription is one that was given out, and has a channel.
abbrev Present : Source → Int64 → Type 0
Present w id = (id ≤ w.ping.seq) × (find id w.ping.subs ≢ none)

-- A signal waits, or a proposal is still to be signalled, or there is nothing after the position.
abbrev pub Covered : Source → List LogEntry → Int64 → Int64 → Type 0
Covered w entries id last =
    (find id w.ping.subs ≡ some true) ⊎ (0 < w.unannounced) ⊎ (length entries ≤ last)

abbrev Attached : Source → ℕ → Option Int64 → Type 0
Attached w rounds none = rounds ≡ 0
Attached w rounds (some id) = Present w id

abbrev pub Ready : Source → List LogEntry → ℕ → Phase → Type 0
Ready w entries rounds waiting_first = rounds ≡ 0
Ready w entries rounds finished = Unit
Ready w entries rounds (catching_up sub last) = Attached w rounds sub
Ready w entries rounds (sending ms rest) = Attached w rounds (sub_after rest)
Ready w entries rounds (positioning sub) = Attached w rounds sub
Ready w entries rounds (subscribing last) = rounds ≡ 0
Ready w entries rounds (idle id last) = Present w id × ((rounds ≡ 0) ⊎ Covered w entries id last)
Ready w entries rounds (checking id last) = Present w id
Ready w entries rounds (fetched id last li) = Present w id

-- What another party does to the subscription.
pub record Leaves (w : Source) (entries : List LogEntry) (sub : Option Int64) (w' : Source)
    (entries' : List LogEntry) : Type 0 where
  pub present : (id : Int64) → sub ≡ some id → Present w id → Present w' id
  pub covered :
      (id last : Int64)
      → sub ≡ some id
      → Present w id
      → Covered w entries id last
      → Covered w' entries' id last

module _ (w w' : Source) (entries entries' : List LogEntry) where
  Leaves-Attached :
      (rounds : ℕ) (sub : Option Int64)
      → Leaves w entries sub w' entries'
      → Attached w rounds sub
      → Attached w' rounds sub
  Leaves-Attached rounds none k h = h
  Leaves-Attached rounds (some id) k h = k.present id refl h

  pub Leaves-Ready :
      (rounds : ℕ) (phase : Phase)
      → Leaves w entries (sub_of phase) w' entries'
      → Ready w entries rounds phase
      → Ready w' entries' rounds phase
  Leaves-Ready rounds waiting_first k h = h
  Leaves-Ready rounds finished k h = h
  Leaves-Ready rounds (catching_up sub last) k h = Leaves-Attached rounds sub k h
  Leaves-Ready rounds (sending ms rest) k h = Leaves-Attached rounds (sub_after rest) k h
  Leaves-Ready rounds (positioning sub) k h = Leaves-Attached rounds sub k h
  Leaves-Ready rounds (subscribing last) k h = h
  Leaves-Ready rounds (idle id last) k (there, inl first) = (k.present id refl there, inl first)
  Leaves-Ready rounds (idle id last) k (there, inr c) =
      (k.present id refl there, inr (k.covered id last refl there c))
  Leaves-Ready rounds (checking id last) k h = k.present id refl h
  Leaves-Ready rounds (fetched id last li) k h = k.present id refl h

find-stored : (id : Int64) (b : Bool) (subs : Dict Int64 Bool) → find id (store id b subs) ≢ none
find-stored id b subs = ground (arith, find-store id id b subs, agree_refl id)

find-signal_all :
    (id : Int64) (subs : Dict Int64 Bool)
    → find id subs ≢ none
    → find id (signal_all subs) ≡ some true
unfolding find signal_all
find-signal_all id [] h = absurd (h refl)
find-signal_all id ((j, b) ∷ subs) h = ground (arith, find-signal_all id subs)

pub leads-Leaves :
    (w : Source) (l' : Leader) (entries entries' : List LogEntry) (sub : Option Int64)
    → length entries ≤ length entries'
    → Leaves w entries sub
        (record w { leader = l'; unannounced = w.unannounced + (length entries' - length entries) })
        entries'
leads-Leaves w l' entries entries' sub longer = record {
  present = λ id s h. h;
  covered = λ id last s h c. elim c [
    | inl waits ↦ inl waits
    | inr (inl more) ↦ inr (inl (omega (arith, more)))
    | inr (inr upto) ↦ elim (dec_lt (length entries) (length entries')) [
      | yes more ↦ inr (inl (omega arith))
      | no same ↦ inr (inr (omega arith))
    ]
  ];
}

pub announces-Leaves :
    (w : Source) (n : ℕ) (entries : List LogEntry) (sub : Option Int64)
    → Leaves w entries sub (record w { ping = notify w.ping; unannounced = n }) entries
unfolding notify
announces-Leaves w n entries sub = record {
  present = λ id s h. (h.0, λ e. cc (find-signal_all id w.ping.subs h.1, e));
  covered = λ id last s h c. inl (find-signal_all id w.ping.subs h.1);
}

pub others-Leaves :
    (w w' : Source) (entries : List LogEntry) (sub other : Option Int64)
    → ((id : Int64) → sub ≡ some id → other ≢ some id)
    → Keeps w other w'
    → Leaves w entries sub w' entries
others-Leaves w w' entries sub other apart k = record {
  present =
      λ id s h. (omega (arith, k.seq, h.0), λ e. h.1 (sym (k.waiting id h.0 (apart id s)) ∙ e));
  covered = λ id last s h c. elim c [
    | inl waits ↦ inl (k.waiting id h.0 (apart id s) ∙ waits)
    | inr (inl more) ↦ inr (inl (omega (arith, more, k.unannounced)))
    | inr (inr upto) ↦ inr (inr upto)
  ];
}

abbrev pub Woken : List LogEntry → Push → Type 0
Woken entries blocked = Unit
Woken entries panicked = Unit
Woken entries (moves w' p') = Ready w' entries p'.rounds p'.phase

module _ (w : Source) (entries : List LogEntry) where
  stop_or-Woken :
      (a : Action) (p : Pusher) (other : Push)
      → Woken entries other
      → Woken entries (stop_or a w p other)
  stop_or-Woken goes p other o = o
  stop_or-Woken fails p other o = o
  stop_or-Woken stops p other o = if_either (Woken entries) w.leader.stopped _ _ tt tt

  push_message-Woken :
      (a : Action) (p : Pusher) (ms : List Payload) (rest : After)
      → Attached w p.rounds (sub_after rest)
      → Woken entries (push_message a w p ms rest)
  push_message-Woken a p [] (reads_position sub) h = h
  push_message-Woken a p [] (has_sent id li) h = h
  push_message-Woken fails p (m ∷ ms) rest h = tt
  push_message-Woken goes p (m ∷ ms) rest h = h
  push_message-Woken stops p (m ∷ ms) rest h = h

  push_first-Woken : (p : Pusher) → p.rounds ≡ 0 → Woken entries (push_first w p)
  push_first-Woken p h =
      elim p.initial
        as (λ o. Woken entries (elim o as (λ o. Push) [
          | none ↦ blocked
          | some last ↦ moves w (to_phase p (catching_up none last))
        ])) [ none ↦ tt | some last ↦ h ]

  push_catchup-Woken :
      (p : Pusher) (sub : Option Int64) (last : Int64)
      → Attached w p.rounds sub
      → Woken entries (push_catchup w p sub last)
  push_catchup-Woken p sub last h =
      elim (catchup w.leader last)
        as (λ o. Woken entries (elim o as (λ o. Push) [
          | none ↦ panicked
          | some r ↦ moves w (to_phase p (sending (catchup_messages r) (reads_position sub)))
        ])) [ none ↦ tt | some r ↦ h ]

  push_entries-Woken :
      (p : Pusher) (id last li : Int64) → Present w id → Woken entries (push_entries w p id last li)
  push_entries-Woken p id last li h =
      elim (entries_after w.leader last)
        as (λ o. Woken entries (elim o as (λ o. Push) [
          | none ↦ panicked
          | some none ↦ moves w (to_phase p (catching_up (some id) last))
          | some (some es) ↦ moves w (to_phase p (sending (map entry es) (has_sent id li)))
        ])) [ none ↦ tt | some none ↦ h | some (some es) ↦ h ]

  push_subscribe-Woken :
      (p : Pusher) (last : Int64) → p.rounds ≡ 0 → Woken entries (push_subscribe w p last)
  unfolding subscribe
  push_subscribe-Woken p last h = ((omega arith, λ e. find-stored _ false w.ping.subs e), inl h)

  take_signal-Woken :
      (p : Pusher) (id last : Int64) (o : Option Bool)
      → Present w id
      → Woken entries (take_signal w p id last o)
  take_signal-Woken p id last none h = tt
  take_signal-Woken p id last (some false) h = tt
  take_signal-Woken p id last (some true) h = (h.0, λ e. find-stored id false w.ping.subs e)

  -- The position is compared with the last index.
  push_check-Woken :
      (p : Pusher) (id last : Int64)
      → last_index w.leader ≡ length entries
      → length entries < 2 ^ 50
      → Present w id
      → Woken entries (push_check w p id last)
  push_check-Woken p id last at few h =
      if_cases (Ready w entries p.rounds) (Int64.le (last_index w.leader) last) (idle id last)
        (fetched id last (last_index w.leader))
        (λ e. (h, inr (inr (inr (ground (arith, e, at, few)))))) (λ e. h)

  abbrev at : Option Int64 → Phase → ℕ → List Payload → Pusher
  at initial phase rounds sent = record {
    initial = initial;
    phase = phase;
    rounds = rounds;
    sent = sent;
  }

  pub push-Woken :
      (a : Action) (initial : Option Int64) (phase : Phase) (rounds : ℕ) (sent : List Payload)
      → last_index w.leader ≡ length entries
      → length entries < 2 ^ 50
      → Ready w entries rounds phase
      → Woken entries (push a w (at initial phase rounds sent))
  unfolding push
  push-Woken a initial waiting_first rounds sent end few h =
      stop_or-Woken a (at initial waiting_first rounds sent) _
        (push_first-Woken (at initial waiting_first rounds sent) h)
  push-Woken a initial finished rounds sent end few h = tt
  push-Woken a initial (catching_up sub last) rounds sent end few h =
      push_catchup-Woken (at initial (catching_up sub last) rounds sent) sub last h
  push-Woken a initial (sending ms rest) rounds sent end few h =
      push_message-Woken a (at initial (sending ms rest) rounds sent) ms rest h
  push-Woken a initial (positioning none) rounds sent end few h = h
  push-Woken a initial (positioning (some id)) rounds sent end few h = h
  push-Woken a initial (subscribing last) rounds sent end few h =
      push_subscribe-Woken (at initial (subscribing last) rounds sent) last h
  push-Woken a initial (idle id last) rounds sent end few h =
      stop_or-Woken a (at initial (idle id last) rounds sent) _ (
        take_signal-Woken (at initial (idle id last) rounds sent) id last (find id w.ping.subs) h.0)
  push-Woken a initial (checking id last) rounds sent end few h =
      push_check-Woken (at initial (checking id last) rounds sent) id last end few h
  push-Woken a initial (fetched id last li) rounds sent end few h =
      push_entries-Woken (at initial (fetched id last li) rounds sent) id last li h
