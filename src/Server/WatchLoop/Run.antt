-- ===== src/Server/WatchLoop/Run.antt =====
-- Every run of a watch stream beside the replicated log and the other streams of the node
-- (distconf/internal/server/watch.go: watchLoop).
use mathlib.Core.Path.{subst}
use mathlib.Core.List.{append_assoc}
use repository.Base.{
  ◌+◌, ◌*◌, ◌^◌, ◌≤◌, ◌<◌, ◌≡◌, ◌≢◌, refl, ap, sym, ◌∙◌, String, List, [], ◌++◌, Option, some,
  arith, nat_comparable,
}
use repository.Base.Int64.{Int64}
use repository.Base.Dict.{find}
use repository.Proto.{
  Op, LogEntry, empty, put, delete, register, heartbeat, expire_keys, expire_services,
}
use repository.Store.Ring.{Event}
use repository.Store.State.{Store, new}
use repository.Store.Feed.{matching}
use repository.Repl.Applier.{Applied, apply_op, replay}
use repository.Repl.History.{events_of}
use repository.Repl.Advance.{rev-apply_op}
use repository.Repl.Replay.{Rising, history, IsTracked-new, replay-IsTracked}
use repository.Repl.Feed.{replay-Carries}
use repository.Server.WatchLoop.{
  Phase, opening, sending, looking, listening, returned, Session, Stream, moves, turn, start,
}
use repository.Server.WatchLoop.Pending.{Hub, apply_op-Hub, apply_op-Pending, missing-apply_op}
use repository.Server.WatchLoop.Leaves.{given_out}
use repository.Server.WatchLoop.Keeps.{Keeps, id_of, turn-Keeps}
use repository.Server.WatchLoop.Advance.{
  Waits, Follows, Sends, Goes, turn-Goes, Leaves-Pending, Pending-present,
}

-- A turn of the stream's loop, an entry of the log, or a turn of another stream with another id.
pub data Step (ns key : String)
    : Store → List Event → Session → Store → List Event → Session → Type 0 where
  turns :
      {s s' : Store} {log log' : List Event} {x x' : Session} (c : Stream)
      → s.watcher_seq + 1 < 2 ^ 63
      → turn ns key c s x ≡ moves s' x'
      → log' ≡ log
      → Step ns key s log x s' log' x'
  applies :
      {s s' : Store} {log log' : List Event} {x x' : Session} (now index : Int64) (op : Op)
      (r : Applied)
      → s.rev < index
      → index < 2 ^ 50
      → apply_op now s index op ≡ some (r, s')
      → log' ≡ log ++ events_of s index op r
      → x' ≡ x
      → Step ns key s log x s' log' x'
  others :
      {s s' : Store} {log log' : List Event} {x x' : Session} (ns' key' : String) (c : Stream)
      (y y' : Session)
      → s.watcher_seq + 1 < 2 ^ 63
      → ((id : Int64) → id_of x.phase ≡ some id → id_of y.phase ≢ some id)
      → turn ns' key' c s y ≡ moves s' y'
      → log' ≡ log
      → x' ≡ x
      → Step ns key s log x s' log' x'

pub data Reach (ns key : String) (s₀ : Store) (log₀ : List Event) (x₀ : Session)
    : Store → List Event → Session → Type 0 where
  here :
      {s : Store} {log : List Event} {x : Session}
      → s ≡ s₀
      → log ≡ log₀
      → x ≡ x₀
      → Reach ns key s₀ log₀ x₀ s log x
  next :
      {s s' : Store} {log log' : List Event} {x x' : Session}
      → Reach ns key s₀ log₀ x₀ s log x
      → Step ns key s log x s' log' x'
      → Reach ns key s₀ log₀ x₀ s' log' x'

Sends-Follows :
    (ns key : String) (from : Int64) (s : Store) (log : List Event) (x : Session)
    → Hub s log
    → from < (s.rev + 1) * 4096
    → Sends ns key from s log x
    → Follows ns key from s log x
Sends-Follows ns key from s log x h behind f = record {
  hub = h;
  positive = f.positive;
  from_behind = behind;
  behind = f.behind;
  resume = f.resume;
  waits = f.waits;
}

pub Follows-Sends :
    (ns key : String) (from : Int64) (s : Store) (log : List Event) (x : Session)
    → Follows ns key from s log x
    → Sends ns key from s log x
Follows-Sends ns key from s log x f = record {
  positive = f.positive;
  behind = f.behind;
  resume = f.resume;
  waits = f.waits;
}

-- The applied index does not fall.
rev-le-apply_op :
    (now : Int64) (s s' : Store) (index : Int64) (op : Op) (r : Applied)
    → s.rev < index
    → apply_op now s index op ≡ some (r, s')
    → s.rev ≤ s'.rev
unfolding apply_op
rev-le-apply_op now s s' index empty r later e = ground arith
rev-le-apply_op now s s' index (put op) r later e =
    omega (arith, rev-apply_op now s index (put op) r s' (λ h. cc) e)
rev-le-apply_op now s s' index (delete op) r later e =
    omega (arith, rev-apply_op now s index (delete op) r s' (λ h. cc) e)
rev-le-apply_op now s s' index (register op) r later e =
    omega (arith, rev-apply_op now s index (register op) r s' (λ h. cc) e)
rev-le-apply_op now s s' index (heartbeat op) r later e =
    omega (arith, rev-apply_op now s index (heartbeat op) r s' (λ h. cc) e)
rev-le-apply_op now s s' index (expire_keys items) r later e =
    omega (arith, rev-apply_op now s index (expire_keys items) r s' (λ h. cc) e)
rev-le-apply_op now s s' index (expire_services items) r later e =
    omega (arith, rev-apply_op now s index (expire_services items) r s' (λ h. cc) e)

module _ (ns key : String) (from : Int64) (s s' : Store) (log : List Event) where
  turns-Follows :
      (x x' : Session) (c : Stream)
      → s.watcher_seq + 1 < 2 ^ 63
      → turn ns key c s x ≡ moves s' x'
      → Follows ns key from s log x
      → Follows ns key from s' log x'
  turns-Follows x x' c room e f =
      let k = turn-Keeps ns key s log f.hub room c x s' x' e in
      Sends-Follows ns key from s' log x' k.hub (omega (arith, k.rev, f.from_behind)) (
        subst (Goes ns key from s log) e
          (turn-Goes ns key from s log f.hub room x (Follows-Sends ns key from s log x f) c))

  Waits-apply_op :
      (now index : Int64) (op : Op) (r : Applied) (cursor : Int64) (p : Phase)
      → s.rev < index
      → index < 2 ^ 50
      → Hub s log
      → apply_op now s index op ≡ some (r, s')
      → cursor < (s.rev + 1) * 4096
      → Waits s ns key cursor log p
      → Waits s' ns key cursor (log ++ events_of s index op r) p
  Waits-apply_op now index op r cursor opening later small h e behind w = tt
  Waits-apply_op now index op r cursor (returned why) later small h e behind w = tt
  Waits-apply_op now index op r cursor (sending id backlog) later small h e behind w =
      apply_op-Pending now s s' index op r log later small h e ns key cursor behind id backlog w
  Waits-apply_op now index op r cursor (looking id) later small h e behind w =
      apply_op-Pending now s s' index op r log later small h e ns key cursor behind id [] w
  Waits-apply_op now index op r cursor (listening id) later small h e behind w =
      apply_op-Pending now s s' index op r log later small h e ns key cursor behind id [] w

  applies-Follows :
      (x : Session) (now index : Int64) (op : Op) (r : Applied)
      → s.rev < index
      → index < 2 ^ 50
      → apply_op now s index op ≡ some (r, s')
      → Follows ns key from s log x
      → Follows ns key from s' (log ++ events_of s index op r) x
  applies-Follows x now index op r later small e f =
      let up = rev-le-apply_op now s s' index op r later e in
      let grows = missing-apply_op now s s' index op r log later small f.hub e ns key in
      record {
        hub = apply_op-Hub now s s' index op r log later small f.hub e;
        positive = f.positive;
        from_behind = omega (arith, up, f.from_behind);
        behind = omega (arith, up, f.behind);
        resume =
            ap (λ z. x.sent ++ z) (grows x.cursor f.behind)
            ∙ sym (append_assoc x.sent _ _)
            ∙ ap (λ z. z ++ matching ns key (events_of s index op r)) f.resume
            ∙ sym (grows from f.from_behind);
        waits = Waits-apply_op now index op r x.cursor x.phase later small f.hub e f.behind f.waits;
      }

  Waits-Keeps :
      (at : Option Int64) (cursor : Int64) (p : Phase)
      → Hub s log
      → Keeps at s log s'
      → ((id : Int64) → id_of p ≡ some id → at ≢ some id)
      → Waits s ns key cursor log p
      → Waits s' ns key cursor log p
  Waits-Keeps at cursor opening h k apart w = tt
  Waits-Keeps at cursor (returned why) h k apart w = tt
  Waits-Keeps at cursor (sending id backlog) h k apart w =
      Leaves-Pending s s' id ns key cursor log backlog
        (k.leaves id (given_out s log id h (Pending-present s id ns key cursor log backlog w))
          (apart id refl))
        w
  Waits-Keeps at cursor (looking id) h k apart w =
      Leaves-Pending s s' id ns key cursor log []
        (k.leaves id (given_out s log id h (Pending-present s id ns key cursor log [] w))
          (apart id refl))
        w
  Waits-Keeps at cursor (listening id) h k apart w =
      Leaves-Pending s s' id ns key cursor log []
        (k.leaves id (given_out s log id h (Pending-present s id ns key cursor log [] w))
          (apart id refl))
        w

  others-Follows :
      (x : Session) (at : Option Int64)
      → Keeps at s log s'
      → ((id : Int64) → id_of x.phase ≡ some id → at ≢ some id)
      → Follows ns key from s log x
      → Follows ns key from s' log x
  others-Follows x at k apart f = record {
    hub = k.hub;
    positive = f.positive;
    from_behind = omega (arith, k.rev, f.from_behind);
    behind = omega (arith, k.rev, f.behind);
    resume = f.resume;
    waits = Waits-Keeps at x.cursor x.phase f.hub k apart f.waits;
  }

Step-Follows :
    (ns key : String) (from : Int64) {s s' : Store} {log log' : List Event} {x x' : Session}
    → Step ns key s log x s' log' x'
    → Follows ns key from s log x
    → Follows ns key from s' log' x'
Step-Follows ns key from {s} {s'} {log} {log'} {x} {x'} (turns c room e same) f =
    subst (λ l. Follows ns key from s' l x') (sym same)
      (turns-Follows ns key from s s' log x x' c room e f)
Step-Follows ns key from {s} {s'} {log} {log'} {x} {x'}
      (applies now index op r later small e grown same) f =
    subst (λ l. Follows ns key from s' l x') (sym grown)
      (subst (Follows ns key from s' (log ++ events_of s index op r)) (sym same)
        (applies-Follows ns key from s s' log x now index op r later small e f))
Step-Follows ns key from {s} {s'} {log} {log'} {x} {x'}
      (others ns' key' c y y' room apart e same kept) f =
    subst (λ l. Follows ns key from s' l x') (sym same)
      (subst (Follows ns key from s' log) (sym kept) (
        others-Follows ns key from s s' log x (id_of y.phase)
          (turn-Keeps ns' key' s log f.hub room c y s' y' e) apart f))

Reach-Follows :
    (ns key : String) (from : Int64) {s₀ : Store} {log₀ : List Event} {x₀ : Session} {s : Store}
    {log : List Event} {x : Session}
    → Follows ns key from s₀ log₀ x₀
    → Reach ns key s₀ log₀ x₀ s log x
    → Follows ns key from s log x
Reach-Follows ns key from {s₀} {log₀} {x₀} {s} {log} {x} f (here a b c) =
    subst (Follows ns key from s log) (sym c) (
      subst (λ l. Follows ns key from s l x₀) (sym b)
        (subst (λ t. Follows ns key from t log₀ x₀) (sym a) f))
Reach-Follows ns key from f (next r st) =
    Step-Follows ns key from st (Reach-Follows ns key from f r)

-- A node that has applied a run of the log, before its first subscriber.
replay-Hub :
    (clock : Int64 → Int64) (es : List LogEntry) (s : Store)
    → Rising 0 es
    → replay clock new es ≡ some s
    → Hub s (history clock new es)
unfolding find
replay-Hub clock es s up e =
    let (t, small) = replay-IsTracked clock es new s [] up (omega arith) IsTracked-new e in
    let c = replay-Carries clock es new s e in
    record {
      tracked = t;
      small = small;
      unique = c.unique tt;
      fresh = λ id above. c.absent id (refl, refl);
    }

-- The invariant of every run that starts on such a node.
pub replay-Follows :
    (clock : Int64 → Int64) (es : List LogEntry) (ns key : String) (from : Int64) {s₀ s : Store}
    {log : List Event} {x : Session}
    → Rising 0 es
    → replay clock new es ≡ some s₀
    → 0 < from
    → from < (s₀.rev + 1) * 4096
    → Reach ns key s₀ (history clock new es) (start from) s log x
    → Follows ns key from s log x
replay-Follows clock es ns key from {s₀} up e positive behind r =
    Reach-Follows ns key from
      (record {
        hub = replay-Hub clock es s₀ up e;
        positive = positive;
        from_behind = behind;
        behind = behind;
        resume = refl;
        waits = tt;
      })
      r
