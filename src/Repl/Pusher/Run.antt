-- ===== src/Repl/Pusher/Run.antt =====
-- Every run of a follower's stream beside the leader and the other streams (stream.go:
-- HandleStreamWithInitial; leader.go: Propose, whose proposal is appended before it is signalled).
use repository.Base.{
  ℕ, suc, ◌+◌, ◌-◌, ◌^◌, ◌≤◌, ◌<◌, ◌≡◌, ◌≢◌, ap, List, [], some, length, arith, nat_comparable,
}
use repository.Base.Int64.{Int64}
use repository.Proto.{LogEntry, PbSnapshot}
use repository.Store.State.{Store}
use repository.Repl.Leader.{Leader, Config, stop}
use repository.Repl.Broadcaster.{notify, new_broadcaster}
use repository.Repl.Commit.Run
use repository.Repl.Commit.Run.{Step-Holds, Step-length, Reach-Holds}
use repository.Repl.Pusher.{Source, Pusher, Action, moves, push, start, sub_of}

-- A call on the leader, the signal of an earlier proposal, the leader's stop, the first message of the
-- follower, a step of the sending goroutine, or one of another stream's.
pub data Step (clock : Int64 → Int64)
    : Source → List LogEntry → Pusher → Source → List LogEntry → Pusher → Type 0 where
  leads :
      {w w' : Source} {entries entries' : List LogEntry} {p p' : Pusher} (l' : Leader)
      → Run.Step clock w.leader entries l' entries'
      → w'
        ≡ record w { leader = l'; unannounced = w.unannounced + (length entries' - length entries) }
      → p' ≡ p
      → Step clock w entries p w' entries' p'
  announces :
      {w w' : Source} {entries entries' : List LogEntry} {p p' : Pusher} (n : ℕ)
      → w.unannounced ≡ suc n
      → w' ≡ record w { ping = notify w.ping; unannounced = n }
      → entries' ≡ entries
      → p' ≡ p
      → Step clock w entries p w' entries' p'
  halts :
      {w w' : Source} {entries entries' : List LogEntry} {p p' : Pusher}
      → w' ≡ record w { leader = stop w.leader }
      → entries' ≡ entries
      → p' ≡ p
      → Step clock w entries p w' entries' p'
  reports :
      {w w' : Source} {entries entries' : List LogEntry} {p p' : Pusher} (index : Int64)
      → w' ≡ w
      → entries' ≡ entries
      → p' ≡ record p { initial = some index }
      → Step clock w entries p w' entries' p'
  pushes :
      {w w' : Source} {entries entries' : List LogEntry} {p p' : Pusher} (a : Action)
      → w.ping.seq + 1 < 2 ^ 63
      → push a w p ≡ moves w' p'
      → entries' ≡ entries
      → Step clock w entries p w' entries' p'
  others :
      {w w' : Source} {entries entries' : List LogEntry} {p p' : Pusher} (a : Action)
      (q q' : Pusher)
      → w.ping.seq + 1 < 2 ^ 63
      → ((id : Int64) → sub_of p.phase ≡ some id → sub_of q.phase ≢ some id)
      → push a w q ≡ moves w' q'
      → entries' ≡ entries
      → p' ≡ p
      → Step clock w entries p w' entries' p'

-- A leader's start, before any stream.
abbrev pub source : Config → (Store → PbSnapshot) → Source
source cfg f = record { leader = Run.start cfg f; ping = new_broadcaster; unannounced = 0 }

pub data Reach (clock : Int64 → Int64) (w₀ : Source)
    : Source → List LogEntry → Pusher → Type 0 where
  here :
      {w : Source} {entries : List LogEntry} {p : Pusher}
      → w ≡ w₀
      → entries ≡ []
      → p ≡ start
      → Reach clock w₀ w entries p
  next :
      {w w' : Source} {entries entries' : List LogEntry} {p p' : Pusher}
      → Reach clock w₀ w entries p
      → Step clock w entries p w' entries' p'
      → Reach clock w₀ w' entries' p'

pub Step-longer :
    (clock : Int64 → Int64) {w w' : Source} {entries entries' : List LogEntry} {p p' : Pusher}
    → Step clock w entries p w' entries' p'
    → length entries ≤ length entries'
Step-longer clock (leads l' st same kept) = Step-length clock st
Step-longer clock (announces n e same still kept) = omega (arith, ap length still)
Step-longer clock (halts same still kept) = omega (arith, ap length still)
Step-longer clock (reports index same still kept) = omega (arith, ap length still)
Step-longer clock (pushes a room e still) = omega (arith, ap length still)
Step-longer clock (others a q q' room apart e still kept) = omega (arith, ap length still)
