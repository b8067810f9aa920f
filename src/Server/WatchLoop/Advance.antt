-- ===== src/Server/WatchLoop/Advance.antt =====
-- One step of the loop, or one entry of the log, as its stream sees it (watch.go: watchLoop).
use mathlib.Core.List.{append_assoc, append-nil}
use repository.Base.{
  ◌+◌, ◌*◌, ◌^◌, ◌<◌, ◌≡◌, refl, ap, sym, ◌∙◌, String, List, [], ◌∷◌, ◌++◌, Option, none, some,
  arith, inl, inr, nat_comparable, if◌then◌else◌, Option-cases, eq_of_some-eq,
}
use repository.Base.Int64.{Int64}
use repository.Base.Dict.{Dict, find, store, find-store, agree_refl}
use repository.Proto.{WatchEvent}
use repository.Store.Ring.{Event}
use repository.Store.State.{Store, KvWatcher}
use repository.Store.Watch.{subscribe, next_id, kv_watcher_chan, close_kv_watcher}
use repository.Store.Log.Backlog.{missing, watch_kv_complete}
use repository.Store.Log.Resume.{missing-next}
use repository.Store.Feed.{Open, IsAbsent}
use repository.Server.WatchLoop.{
  receive_event, Phase, opening, sending, looking, listening, returned, Session, Stream, takes,
  fails, Turn, blocked, faulted, moves, open_turn, backlog_turn, look_turn, live_turn, turn, send,
  to_phase,
}
use repository.Server.WatchLoop.Pending.{Hub, Pending}
use repository.Server.WatchLoop.Leaves.{
  Leaves, Taken, from_open, from_shut, at_end, receive_event-Taken,
}
use repository.Server.WatchLoop.Keeps.{receive_event-Keeps, close_kv_watcher-Keeps}

-- What a phase has still to send.
abbrev pub Waits : Store → String → String → Int64 → List Event → Phase → Type 0
Waits s ns key cursor log opening = Unit
Waits s ns key cursor log (sending id backlog) = Pending s id ns key cursor log backlog
Waits s ns key cursor log (looking id) = Pending s id ns key cursor log []
Waits s ns key cursor log (listening id) = Pending s id ns key cursor log []
Waits s ns key cursor log (returned why) = Unit

-- A stream that was asked for what is newer than `from`: what it was sent and what its cursor misses
-- are together what `from` misses.
pub record Follows (ns key : String) (from : Int64) (s : Store) (log : List Event) (x : Session)
    : Type 0 where
  pub hub : Hub s log
  pub positive : 0 < x.cursor
  pub from_behind : from < (s.rev + 1) * 4096
  pub behind : x.cursor < (s.rev + 1) * 4096
  pub resume : x.sent ++ missing ns key x.cursor log ≡ missing ns key from log
  pub waits : Waits s ns key x.cursor log x.phase

-- The stream's own part of that, without the store's.
pub record Sends (ns key : String) (from : Int64) (s : Store) (log : List Event) (x : Session)
    : Type 0 where
  pub positive : 0 < x.cursor
  pub behind : x.cursor < (s.rev + 1) * 4096
  pub resume : x.sent ++ missing ns key x.cursor log ≡ missing ns key from log
  pub waits : Waits s ns key x.cursor log x.phase

-- A subscriber's channel is that of another store if nothing of its id differs.
pub Leaves-Pending :
    (s s' : Store) (id : Int64) (ns key : String) (cursor : Int64) (log : List Event)
    (front : List WatchEvent)
    → Leaves id s s'
    → Pending s id ns key cursor log front
    → Pending s' id ns key cursor log front
Leaves-Pending s s' id ns key cursor log front l (inl (ch, o, eq)) =
    inl (ch, (l.watchers ∙ o.0, l.closed ∙ o.1), eq)
Leaves-Pending s s' id ns key cursor log front l (inr (ch, rest, h, eq)) =
    inr (ch, rest, (l.watchers ∙ h.0, l.closed ∙ h.1), eq)

pub Pending-present :
    (s : Store) (id : Int64) (ns key : String) (cursor : Int64) (log : List Event)
    (front : List WatchEvent)
    → Pending s id ns key cursor log front
    → ¬ IsAbsent s id
Pending-present s id ns key cursor log front (inl (ch, o, eq)) a = cc
Pending-present s id ns key cursor log front (inr (ch, rest, h, eq)) a = cc

-- The first of what is pending, and what is pending after it.
abbrev Next :
    Store → Int64 → String → String → Int64 → List Event → WatchEvent → List WatchEvent → Type 0
Next s id ns key cursor log ev rest =
    (more : List WatchEvent) × (missing ns key cursor log ≡ ev ∷ more)
    × ((c : Int64) → missing ns key c log ≡ more → Pending s id ns key c log rest)

front-Next :
    (s : Store) (id : Int64) (ns key : String) (cursor : Int64) (log : List Event) (ev : WatchEvent)
    (rest : List WatchEvent)
    → Pending s id ns key cursor log (ev ∷ rest)
    → Next s id ns key cursor log ev rest
front-Next s id ns key cursor log ev rest (inl (ch, o, eq)) =
    (rest ++ ch, sym eq, λ c e. inl (ch, o, sym e))
front-Next s id ns key cursor log ev rest (inr (ch, more, h, eq)) =
    (rest ++ (ch ++ more), sym eq, λ c e. inr (ch, more, h, sym e))

rewritten {ℓ} :
    {V : Type ℓ} (id : Int64) (v : V) (m : Dict Int64 V) → find id (store id v m) ≡ some v
rewritten id v m = find-store id id v m ∙ ap (λ b. if b then some v else find id m) (agree_refl id)

received-Next :
    (s : Store) (id : Int64) (ns key : String) (cursor : Int64) (log : List Event) (ev : WatchEvent)
    (s' : Store)
    → Taken s id (some ev) s'
    → Pending s id ns key cursor log []
    → Next s' id ns key cursor log ev []
received-Next s id ns key cursor log ev s' (from_open w x rest there full out same)
      (inl (ch, o, eq)) =
    let mine : w ≡ record { ns = ns; key = key; ch = ch } = eq_of_some-eq (sym there ∙ o.0) in
    let head : ch ≡ ev ∷ rest =
      sym (ap (λ (v : KvWatcher). v.ch) mine)
      ∙ full
      ∙ ap (λ z. z ∷ rest) (sym (eq_of_some-eq out)) in
    (
      rest,
      sym eq ∙ head,
      λ c e. inl (
        rest,
        (
          ap (λ (t : Store). find id t.kv_watchers) same
              ∙ rewritten id (record w { ch = rest }) s.kv_watchers
              ∙ ap (λ (v : KvWatcher). some (record v { ch = rest })) mine,
          ap (λ (t : Store). find id t.kv_closed) same ∙ o.1,
        ),
        sym e,
      ),
    )
received-Next s id ns key cursor log ev s' (from_open w x rest there full out same)
      (inr (ch, more, h, eq)) =
    cc
received-Next s id ns key cursor log ev s' (from_shut x rest absent full out same)
      (inl (ch, o, eq)) =
    cc
received-Next s id ns key cursor log ev s' (from_shut x rest absent full out same)
      (inr (ch, more, h, eq)) =
    let head : ch ≡ ev ∷ rest =
      eq_of_some-eq (sym h.1 ∙ full) ∙ ap (λ z. z ∷ rest) (sym (eq_of_some-eq out)) in
    (
      rest ++ more,
      sym eq ∙ ap (λ z. z ++ more) head,
      λ c e. inr (
        rest,
        more,
        (
          ap (λ (t : Store). find id t.kv_watchers) same ∙ absent,
          ap (λ (t : Store). find id t.kv_closed) same ∙ rewritten id rest s.kv_closed,
        ),
        sym e,
      ),
    )
received-Next s id ns key cursor log ev s' (at_end absent over out same) p = cc

subscribe-Open :
    (ns key : String) (s : Store) (log : List Event)
    → Hub s log
    → s.watcher_seq + 1 < 2 ^ 63
    → Open (subscribe s ns key) (next_id s) ns key []
subscribe-Open ns key s log h room =
    (rewritten (next_id s) _ s.kv_watchers, (h.fresh (next_id s) (omega (arith, room))).1)

-- What a turn that moves leaves.
abbrev pub Goes : String → String → Int64 → Store → List Event → Turn → Type 0
Goes ns key from s log blocked = Unit
Goes ns key from s log faulted = ⊥
Goes ns key from s log (moves s' x') = Sends ns key from s' log x'

module _ (ns key : String) (from : Int64) (s : Store) (log : List Event) (h : Hub s log) where
  left_rev :
      (id : Int64) (e : Option WatchEvent) (s₁ : Store)
      → receive_event s id ≡ some (e, s₁)
      → (close_kv_watcher s₁ id).rev ≡ s.rev
  left_rev id e s₁ r =
      let k = receive_event-Keeps s log h id e s₁ r in
      (close_kv_watcher-Keeps s₁ log k.hub id).rev ∙ k.rev

  -- The next missing event is sent.
  send-Sends :
      (s' : Store) (x : Session) (ev : WatchEvent) (rest : List WatchEvent) (phase : Phase)
      → s'.rev ≡ s.rev
      → Sends ns key from s log x
      → missing ns key x.cursor log ≡ ev ∷ rest
      → (missing ns key ev.revision log ≡ rest → Waits s' ns key ev.revision log phase)
      → Sends ns key from s' log (send x ev phase)
  send-Sends s' x ev rest phase same f e waits =
      let step =
        missing-next ns key x.cursor 0 ((s.rev + 1) * 4096) log ev rest
          (omega (arith, f.behind, h.small)) (omega (arith, h.small)) h.tracked.ordered
          h.tracked.below e in
      record {
        positive = omega (arith, step.0);
        behind = omega (arith, step.1, same);
        resume =
            append_assoc x.sent (ev ∷ []) _
            ∙ ap (λ z. x.sent ++ ev ∷ z) step.2
            ∙ ap (λ z. x.sent ++ z) (sym e)
            ∙ f.resume;
        waits = waits step.2;
      }

  -- A change of phase.
  turn-Sends :
      (s' : Store) (x : Session) (phase : Phase)
      → s'.rev ≡ s.rev
      → Sends ns key from s log x
      → Waits s' ns key x.cursor log phase
      → Sends ns key from s' log (to_phase x phase)
  turn-Sends s' x phase same f waits = record {
    positive = f.positive;
    behind = omega (arith, same, f.behind);
    resume = f.resume;
    waits = waits;
  }

  module _ (room : s.watcher_seq + 1 < 2 ^ 63) (x : Session) (f : Sends ns key from s log x) where
    open_turn-Sends : Goes ns key from s log (open_turn ns key s x)
    unfolding open_turn
    open_turn-Sends =
        elim (watch_kv_complete s ns key x.cursor log _ (omega (arith, h.small))
          (omega (arith, f.behind, h.small)) h.tracked) [
            | inl (e, pos, early) ↦ rw (e, open_turn) (turn-Sends s x (returned _) refl f tt)
            | inr (e, inl zero_cursor) ↦ absurd (omega (arith, f.positive, zero_cursor))
            | inr (e, inr all) ↦
                rw (e, open_turn)
                  (turn-Sends (subscribe s ns key) x (sending (next_id s) _) refl f
                    (inl ([], subscribe-Open ns key s log h room, append-nil _ ∙ all)))
          ]

    send_moves_on :
        (s' : Store) (id : Int64) (ev : WatchEvent) (rest : List WatchEvent) (phase : Phase)
        → s'.rev ≡ s.rev
        → Next s' id ns key x.cursor log ev rest
        → ((c : Int64) → Pending s' id ns key c log rest → Waits s' ns key c log phase)
        → Sends ns key from s' log (send x ev phase)
    send_moves_on s' id ev rest phase same (more, e, p) waits =
        send-Sends s' x ev more phase same f e (λ later. waits ev.revision (p ev.revision later))

    backlog_turn-Sends :
        (c : Stream) (id : Int64) (backlog : List WatchEvent)
        → Pending s id ns key x.cursor log backlog
        → Goes ns key from s log (backlog_turn c s x id backlog)
    unfolding backlog_turn
    backlog_turn-Sends c id [] p = turn-Sends s x (looking id) refl f p
    backlog_turn-Sends fails id (ev ∷ rest) p =
        turn-Sends (close_kv_watcher s id) x (returned _) (close_kv_watcher-Keeps s log h id).rev f
          tt
    backlog_turn-Sends takes id (ev ∷ rest) p =
        send_moves_on s id ev rest (sending id rest) refl
          (front-Next s id ns key x.cursor log ev rest p) (λ c q. q)
    backlog_turn-Sends Stream.done id (ev ∷ rest) p =
        send_moves_on s id ev rest (sending id rest) refl
          (front-Next s id ns key x.cursor log ev rest p) (λ c q. q)

    look_turn-Sends :
        (id : Int64)
        → Pending s id ns key x.cursor log []
        → Goes ns key from s log (look_turn s x id)
    unfolding look_turn
    look_turn-Sends id p = elim (Option-cases (kv_watcher_chan s id)) [
      | inl e ↦ rw (e, look_turn) (turn-Sends s x opening refl f tt)
      | inr (ch, e) ↦ rw (e, look_turn) (turn-Sends s x (listening id) refl f p)
    ]

    live_turn-Sends :
        (c : Stream) (id : Int64)
        → Pending s id ns key x.cursor log []
        → Goes ns key from s log (live_turn c s x id)
    unfolding live_turn
    live_turn-Sends Stream.done id p =
        turn-Sends (close_kv_watcher s id) x (returned _) (close_kv_watcher-Keeps s log h id).rev f
          tt
    live_turn-Sends takes id p = elim (Option-cases (receive_event s id)) [
      | inl e ↦ rw (e, live_turn) tt
      | inr ((none, s₁), e) ↦
          rw (e, live_turn)
            (turn-Sends (close_kv_watcher s₁ id) x opening (left_rev id none s₁ e) f tt)
      | inr ((some ev, s₁), e) ↦
          rw (e, live_turn)
            (send_moves_on s₁ id ev [] (listening id)
              (receive_event-Keeps s log h id (some ev) s₁ e).rev
              (received-Next s id ns key x.cursor log ev s₁
                (receive_event-Taken s id (some ev) s₁ e) p)
              (λ c q. q))
    ]
    live_turn-Sends fails id p = elim (Option-cases (receive_event s id)) [
      | inl e ↦ rw (e, live_turn) tt
      | inr ((none, s₁), e) ↦
          rw (e, live_turn)
            (turn-Sends (close_kv_watcher s₁ id) x opening (left_rev id none s₁ e) f tt)
      | inr ((some ev, s₁), e) ↦
          rw (e, live_turn)
            (turn-Sends (close_kv_watcher s₁ id) x (returned _) (left_rev id (some ev) s₁ e) f tt)
    ]

    phase-Sends :
        (c : Stream) (p : Phase)
        → x.phase ≡ p
        → Waits s ns key x.cursor log p
        → Goes ns key from s log (turn ns key c s x)
    unfolding turn
    phase-Sends c opening e w = rw (e, turn) open_turn-Sends
    phase-Sends c (sending id backlog) e w = rw (e, turn) (backlog_turn-Sends c id backlog w)
    phase-Sends c (looking id) e w = rw (e, turn) (look_turn-Sends id w)
    phase-Sends c (listening id) e w = rw (e, turn) (live_turn-Sends c id w)
    phase-Sends c (returned why) e w = rw (e, turn) tt

    -- A turn of the stream's own loop; it never faults.
    pub turn-Goes : (c : Stream) → Goes ns key from s log (turn ns key c s x)
    turn-Goes c = phase-Sends c x.phase refl f.waits
