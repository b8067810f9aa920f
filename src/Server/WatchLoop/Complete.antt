-- ===== src/Server/WatchLoop/Complete.antt =====
-- What a watch stream delivers (distconf/internal/server/watch.go: watchLoop).
use mathlib.Core.Path.{subst}
use mathlib.Core.List.{append-nil}
use repository.Base.{
  ◌+◌, ◌*◌, ◌^◌, ◌<◌, ◌≡◌, ◌≢◌, refl, ap, sym, ◌∙◌, String, List, [], ◌∷◌, ◌++◌, none, some, arith,
  inl, inr, Option-cases,
}
use repository.Base.Int64.{Int64}
use repository.Proto.{LogEntry}
use repository.Store.Ring.{Event}
use repository.Store.State.{Store, new}
use repository.Store.Log.Backlog.{missing}
use repository.Repl.Applier.{replay}
use repository.Repl.Replay.{Rising, history}
use repository.Server.WatchLoop.{
  Session, Stream, takes, Phase, opening, sending, looking, listening, returned, open_turn,
  backlog_turn, look_turn, Turn, blocked, faulted, moves, turn, live_turn, receive_event, start,
}
use repository.Server.WatchLoop.Pending.{Pending}
use repository.Server.WatchLoop.Advance.{Waits, Follows, Goes, turn-Goes}
use repository.Server.WatchLoop.Run.{Reach, Follows-Sends, replay-Follows}

blocked-receive_event :
    (s : Store) (x : Session) (id : Int64)
    → live_turn takes s x id ≡ blocked
    → receive_event s id ≡ none
unfolding live_turn
blocked-receive_event s x id e = elim (Option-cases (receive_event s id)) [
  | inl h ↦ h
  | inr ((none, s'), h) ↦ absurd (ground arith)
  | inr ((some ev, s'), h) ↦ absurd (ground arith)
]

blocked-Pending :
    (s : Store) (id : Int64) (ns key : String) (cursor : Int64) (log : List Event)
    → receive_event s id ≡ none
    → Pending s id ns key cursor log []
    → missing ns key cursor log ≡ []
unfolding receive_event
blocked-Pending s id ns key cursor log h (inl ([], o, eq)) = sym eq
blocked-Pending s id ns key cursor log h (inl (ev ∷ ch, o, eq)) = absurd (ground (arith, o.0))
blocked-Pending s id ns key cursor log h (inr ([], rest, shut, eq)) =
    absurd (ground (arith, shut.0, shut.1))
blocked-Pending s id ns key cursor log h (inr (ev ∷ ch, rest, shut, eq)) =
    absurd (ground (arith, shut.0, shut.1))

blocked-missing :
    (ns key : String) (s : Store) (log : List Event) (x : Session) (id : Int64) (p : Phase)
    → x.phase ≡ p
    → p ≡ listening id
    → turn ns key takes s x ≡ blocked
    → Waits s ns key x.cursor log p
    → missing ns key x.cursor log ≡ []
unfolding turn
blocked-missing ns key s log x id (listening id') at same e w =
    blocked-Pending s id' ns key x.cursor log
      (blocked-receive_event s x id' (
        subst
          (λ p.
            elim p [
              | opening ↦ open_turn ns key s x
              | sending id backlog ↦ backlog_turn takes s x id backlog
              | looking id ↦ look_turn s x id
              | listening id ↦ live_turn takes s x id
              | returned why ↦ blocked
            ]
            ≡ blocked)
          at e))
      w
blocked-missing ns key s log x id opening at same e w = absurd (ground arith)
blocked-missing ns key s log x id (sending id' b) at same e w = absurd (ground arith)
blocked-missing ns key s log x id (looking id') at same e w = absurd (ground arith)
blocked-missing ns key s log x id (returned b) at same e w = absurd (ground arith)

module _ (clock : Int64 → Int64) (es : List LogEntry) (ns key : String) (from : Int64)
    (s₀ s : Store) (log : List Event) (x : Session) (up : Rising 0 es)
    (e : replay clock new es ≡ some s₀) (positive : 0 < from) (behind : from < (s₀.rev + 1) * 4096)
    (r : Reach ns key s₀ (history clock new es) (start from) s log x) where
  follows : Follows ns key from s log x
  follows = replay-Follows clock es ns key from up e positive behind r

  -- In every run of a watch stream beside the replicated log and other streams, what was sent is the
  -- first part of the matching events newer than the cursor asked for, in order and once each; the
  -- rest of them is what a new request with the stream's last cursor would find missing.
  pub turn_sends_in_order : x.sent ++ missing ns key x.cursor log ≡ missing ns key from log
  turn_sends_in_order = follows.resume

  never_faults :
      (t : Turn) (c : Stream) → turn ns key c s x ≡ t → Goes ns key from s log t → t ≢ faulted
  never_faults blocked c h g k = cc
  never_faults faulted c h g k = g
  never_faults (moves s' x') c h g k = cc

  -- No turn of such a stream faults.
  pub turn_total : (c : Stream) → s.watcher_seq + 1 < 2 ^ 63 → turn ns key c s x ≢ faulted
  turn_total c room =
      never_faults (turn ns key c s x) c refl (
        turn-Goes ns key from s log follows.hub room x (Follows-Sends ns key from s log x follows)
          c)

  -- A stream that waits on its channel, with a client that takes what is sent, has sent every
  -- matching event newer than the cursor asked for.
  pub turn_blocked_sent :
      (id : Int64)
      → x.phase ≡ listening id
      → turn ns key takes s x ≡ blocked
      → x.sent ≡ missing ns key from log
  turn_blocked_sent id at e =
      sym (append-nil x.sent)
      ∙ sym (
          ap (λ z. x.sent ++ z) (blocked-missing ns key s log x id x.phase refl at e follows.waits))
      ∙ follows.resume
