-- ===== src/Repl/Pusher/Wakes.antt =====
-- A stream that waits for new entries is woken for them (stream.go: HandleStreamWithInitial; leader.go:
-- Propose, notifyReplicators; broadcaster.go).
use mathlib.Core.Path.{subst}
use repository.Base.{◌^◌, ◌<◌, ◌≡◌, refl, ap, sym, List, length, arith, inl, inr, nat_comparable}
use repository.Base.Int64.{Int64}
use repository.Proto.{LogEntry, PbSnapshot}
use repository.Store.State.{Store}
use repository.Repl.Leader.{Config, last_index}
use repository.Repl.Commit.Prefix.{last_index-length}
use repository.Repl.Commit.Run.{Step-length}
use repository.Repl.Pusher.{Source, Pusher, idle, sub_of}
use repository.Repl.Pusher.Keeps.{push-Keeps}
use repository.Repl.Pusher.Run.{
  Step, leads, announces, halts, reports, pushes, others, Reach, here, next, source, Step-longer,
}
use repository.Repl.Pusher.Genuine.{Reach-Holds}
use repository.Repl.Pusher.Ready.{
  Leaves, Ready, Woken, Covered, Leaves-Ready, leads-Leaves, announces-Leaves, others-Leaves,
  push-Woken,
}

-- A step of another party.
Moved :
    (w w₁ w' : Source) (entries entries₁ entries' : List LogEntry) (p p' : Pusher)
    → Leaves w entries (sub_of p.phase) w₁ entries₁
    → w' ≡ w₁
    → entries' ≡ entries₁
    → p'.rounds ≡ p.rounds
    → p'.phase ≡ p.phase
    → Ready w entries p.rounds p.phase
    → Ready w' entries' p'.rounds p'.phase
Moved w w₁ w' entries entries₁ entries' p p' k same still rounds phase h =
    rw (same, still, rounds, phase) (Leaves-Ready w w₁ entries entries₁ p.rounds p.phase k h)

Step-Ready :
    (clock : Int64 → Int64) {w w' : Source} {entries entries' : List LogEntry} {p p' : Pusher}
    → Step clock w entries p w' entries' p'
    → last_index w.leader ≡ length entries
    → length entries < 2 ^ 50
    → Ready w entries p.rounds p.phase
    → Ready w' entries' p'.rounds p'.phase
Step-Ready clock {w} {w'} {entries} {entries'} {p} {p'} (leads l' st same kept) end few h =
    Moved w _ w' entries entries' entries' p p'
      (leads-Leaves w l' entries entries' (sub_of p.phase) (Step-length clock st)) same refl
      (ap (λ x. x.rounds) kept) (ap (λ x. x.phase) kept) h
Step-Ready clock {w} {w'} {entries} {entries'} {p} {p'} (announces n e same still kept) end few h =
    Moved w _ w' entries entries entries' p p' (announces-Leaves w n entries (sub_of p.phase)) same
      still (ap (λ x. x.rounds) kept) (ap (λ x. x.phase) kept) h
Step-Ready clock {w} {w'} {entries} {entries'} {p} {p'} (halts same still kept) end few h =
    Moved w _ w' entries entries entries' p p'
      (record { present = λ id s a. a; covered = λ id last s a c. c }) same still
      (ap (λ x. x.rounds) kept) (ap (λ x. x.phase) kept) h
Step-Ready clock {w} {w'} {entries} {entries'} {p} {p'} (reports index same still kept) end few h =
    Moved w w w' entries entries entries' p p'
      (record { present = λ id s a. a; covered = λ id last s a c. c }) same still
      (ap (λ x. x.rounds) kept) (ap (λ x. x.phase) kept) h
Step-Ready clock {w} {w'} {entries} {entries'} {p} {p'} (pushes a room e still) end few h =
    subst (λ es. Ready w' es p'.rounds p'.phase) (sym still)
      (subst (Woken entries) e (push-Woken w entries a p.initial p.phase p.rounds p.sent end few h))
Step-Ready clock {w} {w'} {entries} {entries'} {p} {p'} (others a q q' room apart e still kept) end
      few h =
    Moved w w' w' entries entries entries' p p'
      (others-Leaves w w' entries (sub_of p.phase) (sub_of q.phase) apart
        (push-Keeps a w q w' q' room e))
      refl still (ap (λ x. x.rounds) kept) (ap (λ x. x.phase) kept) h

Reach-Ready :
    (clock : Int64 → Int64) (cfg : Config) (f : Store → PbSnapshot) {w : Source}
    {entries : List LogEntry} {p : Pusher}
    → Reach clock (source cfg f) w entries p
    → length entries < 2 ^ 50
    → Ready w entries p.rounds p.phase
Reach-Ready clock cfg f {w} {entries} {p} (here at none_yet first) few =
    rw (ap (λ x. x.rounds) first, ap (λ x. x.phase) first) refl
Reach-Ready clock cfg f (next {w = w} {entries = entries} r st) few =
    let before : length entries < 2 ^ 50 = omega (arith, Step-longer clock st, few) in
    Step-Ready clock st (last_index-length w.leader entries (Reach-Holds clock cfg f r before))
      before (Reach-Ready clock cfg f r before)

-- In every run of a leader from its start beside any streams, a stream that has taken a signal before
-- and now waits for the next has one that waits, or a proposal is appended whose signal is still to be
-- given, or the leader has no entry after the stream's position.
pub push-Covered :
    (clock : Int64 → Int64) (cfg : Config) (f : Store → PbSnapshot) {w : Source}
    {entries : List LogEntry} {p : Pusher} (id last : Int64)
    → Reach clock (source cfg f) w entries p
    → length entries < 2 ^ 50
    → p.phase ≡ idle id last
    → 0 < p.rounds
    → Covered w entries id last
push-Covered clock cfg f {w} {entries} {p} id last r few waits round =
    let (there, h) = subst (Ready w entries p.rounds) waits (Reach-Ready clock cfg f r few) in
    elim h [ inl first ↦ absurd (omega (arith, first, round)) | inr covered ↦ covered ]
