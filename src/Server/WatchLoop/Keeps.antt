-- ===== src/Server/WatchLoop/Keeps.antt =====
-- What the calls of a watch loop on the store keep: the history, the ids, and the other subscribers
-- (store.go: WatchKV, CloseKVWatcher; watch.go: the receive).
use mathlib.Core.Path.{subst}
use repository.Base.{
  ◌+◌, ◌^◌, ◌≤◌, ◌<◌, ◌≡◌, ◌≢◌, refl, ap, ◌∙◌, true, false, String, List, [], ◌∷◌, Option, none,
  some, arith, inl, inr, nat_comparable, Option-cases,
}
use repository.Base.Int64.{Int64}
use repository.Proto.{WatchEvent}
use repository.Store.Ring.{Event}
use repository.Store.State.{Store}
use repository.Store.Watch.{
  subscribe, next_id, close_kv_watcher, watch_kv, too_old, backlog_from, kv_watcher_chan,
}
use repository.Server.WatchLoop.{
  receive_event, Phase, opening, sending, looking, listening, returned, Session, Stream, takes,
  fails, Turn, blocked, faulted, moves, open_turn, backlog_turn, look_turn, live_turn, turn,
}
use repository.Server.WatchLoop.Pending.{Hub}
use repository.Server.WatchLoop.Leaves.{
  Leaves, subscribe-Leaves, subscribe-Hub, close_kv_watcher-Leaves, close_kv_watcher-Hub,
  receive_event-Leaves, receive_event-Hub,
}

pub record Keeps (at : Option Int64) (s : Store) (log : List Event) (s' : Store) : Type 0 where
  pub hub : Hub s' log
  pub rev : s'.rev ≡ s.rev
  pub leaves : (j : Int64) → j ≤ s.watcher_seq → at ≢ some j → Leaves j s s'
  pub up : s.watcher_seq ≤ s'.watcher_seq

module _ (s : Store) (log : List Event) (h : Hub s log) where
  pub Keeps-refl : (at : Option Int64) → Keeps at s log s
  Keeps-refl at = record {
    hub = h;
    rev = refl;
    leaves = λ j old other. record { watchers = refl; closed = refl };
    up = omega arith;
  }

  pub subscribe-Keeps :
      (ns key : String) (at : Option Int64)
      → s.watcher_seq + 1 < 2 ^ 63
      → Keeps at s log (subscribe s ns key)
  subscribe-Keeps ns key at room = record {
    hub = subscribe-Hub s log h ns key room;
    rev = refl;
    leaves = λ j old other.
        subscribe-Leaves s log h ns key room j (λ (e : next_id s ≡ j). omega (arith, e, old, room));
    up = omega (arith, room);
  }

  pub close_kv_watcher-Keeps : (id : Int64) → Keeps (some id) s log (close_kv_watcher s id)
  unfolding close_kv_watcher
  close_kv_watcher-Keeps id = record {
    hub = close_kv_watcher-Hub s log h id;
    rev = ground arith;
    leaves =
        λ j old other. close_kv_watcher-Leaves s log h id j (λ (e : id ≡ j). other (ap some e));
    up = ground arith;
  }

  pub receive_event-Keeps :
      (id : Int64) (e : Option WatchEvent) (s' : Store)
      → receive_event s id ≡ some (e, s')
      → Keeps (some id) s log s'
  unfolding receive_event
  receive_event-Keeps id e s' r = record {
    hub = receive_event-Hub s log h id e s' r;
    rev = ground arith;
    leaves =
        λ j old other. receive_event-Leaves s log h id e s' r j (λ (e : id ≡ j). other (ap some e));
    up = ground arith;
  }

Keeps-trans :
    (at : Option Int64) (s s₁ s₂ : Store) (log : List Event)
    → Keeps at s log s₁
    → Keeps at s₁ log s₂
    → Keeps at s log s₂
Keeps-trans at s s₁ s₂ log p q = record {
  hub = q.hub;
  rev = q.rev ∙ p.rev;
  leaves = λ j old other.
      let a = p.leaves j old other in
      let b = q.leaves j (omega (arith, old, p.up)) other in
      record { watchers = b.watchers ∙ a.watchers; closed = b.closed ∙ a.closed };
  up = omega (arith, p.up, q.up);
}

-- The subscriber that a phase stands for.
abbrev pub id_of : Phase → Option Int64
id_of opening = none
id_of (sending id backlog) = some id
id_of (looking id) = some id
id_of (listening id) = some id
id_of (returned why) = none

abbrev result_store : Turn → Store → Store
result_store blocked s = s
result_store faulted s = s
result_store (moves s' x') s = s'

leave-Keeps :
    (s s₁ : Store) (log : List Event) (id : Int64)
    → Keeps (some id) s log s₁
    → Keeps (some id) s log (close_kv_watcher s₁ id)
leave-Keeps s s₁ log id k =
    Keeps-trans (some id) s s₁ _ log k (close_kv_watcher-Keeps s₁ log k.hub id)

module _ (ns key : String) (s : Store) (log : List Event) (h : Hub s log)
    (room : s.watcher_seq + 1 < 2 ^ 63) where
  open_turn-Keeps : (x : Session) → Keeps none s log (result_store (open_turn ns key s x) s)
  unfolding open_turn watch_kv
  open_turn-Keeps x = elim (Option-cases (too_old s x.cursor)) [
    | inl e ↦ rw (e, open_turn, watch_kv) (Keeps-refl s log h none)
    | inr (true, e) ↦ rw (e, open_turn, watch_kv) (Keeps-refl s log h none)
    | inr (false, e) ↦ elim (Option-cases (backlog_from s.ring ns key x.cursor 0 s.ring.count)) [
      | inl b ↦ rw (e, b, open_turn, watch_kv) (Keeps-refl s log h none)
      | inr (evs, b) ↦ rw (e, b, open_turn, watch_kv) (subscribe-Keeps s log h ns key none room)
    ]
  ]

  backlog_turn-Keeps :
      (c : Stream) (x : Session) (id : Int64) (backlog : List WatchEvent)
      → Keeps (some id) s log (result_store (backlog_turn c s x id backlog) s)
  unfolding backlog_turn
  backlog_turn-Keeps c x id [] = Keeps-refl s log h (some id)
  backlog_turn-Keeps takes x id (ev ∷ rest) = Keeps-refl s log h (some id)
  backlog_turn-Keeps Stream.done x id (ev ∷ rest) = Keeps-refl s log h (some id)
  backlog_turn-Keeps fails x id (ev ∷ rest) = close_kv_watcher-Keeps s log h id

  look_turn-Keeps :
      (x : Session) (id : Int64) → Keeps (some id) s log (result_store (look_turn s x id) s)
  unfolding look_turn
  look_turn-Keeps x id = elim (Option-cases (kv_watcher_chan s id)) [
    | inl e ↦ rw (e, look_turn) (Keeps-refl s log h (some id))
    | inr (ch, e) ↦ rw (e, look_turn) (Keeps-refl s log h (some id))
  ]

  live_turn-Keeps :
      (c : Stream) (x : Session) (id : Int64)
      → Keeps (some id) s log (result_store (live_turn c s x id) s)
  unfolding live_turn
  live_turn-Keeps Stream.done x id = close_kv_watcher-Keeps s log h id
  live_turn-Keeps takes x id = elim (Option-cases (receive_event s id)) [
    | inl e ↦ rw (e, live_turn) (Keeps-refl s log h (some id))
    | inr ((none, s₁), e) ↦
        rw (e, live_turn) (leave-Keeps s s₁ log id (receive_event-Keeps s log h id none s₁ e))
    | inr ((some ev, s₁), e) ↦ rw (e, live_turn) (receive_event-Keeps s log h id (some ev) s₁ e)
  ]
  live_turn-Keeps fails x id = elim (Option-cases (receive_event s id)) [
    | inl e ↦ rw (e, live_turn) (Keeps-refl s log h (some id))
    | inr ((none, s₁), e) ↦
        rw (e, live_turn) (leave-Keeps s s₁ log id (receive_event-Keeps s log h id none s₁ e))
    | inr ((some ev, s₁), e) ↦
        rw (e, live_turn) (leave-Keeps s s₁ log id (receive_event-Keeps s log h id (some ev) s₁ e))
  ]

  phase-Keeps :
      (c : Stream) (x : Session) (p : Phase)
      → x.phase ≡ p
      → Keeps (id_of p) s log (result_store (turn ns key c s x) s)
  unfolding turn
  phase-Keeps c x opening e = rw (e, turn) (open_turn-Keeps x)
  phase-Keeps c x (sending id backlog) e = rw (e, turn) (backlog_turn-Keeps c x id backlog)
  phase-Keeps c x (looking id) e = rw (e, turn) (look_turn-Keeps x id)
  phase-Keeps c x (listening id) e = rw (e, turn) (live_turn-Keeps c x id)
  phase-Keeps c x (returned why) e = rw (e, turn) (Keeps-refl s log h none)

  -- A turn of any session.
  pub turn-Keeps :
      (c : Stream) (x : Session) (s' : Store) (x' : Session)
      → turn ns key c s x ≡ moves s' x'
      → Keeps (id_of x.phase) s log s'
  turn-Keeps c x s' x' e =
      subst (λ t. Keeps (id_of x.phase) s log (result_store t s)) e (phase-Keeps c x x.phase refl)
