-- ===== src/Repl/Pusher/Genuine.antt =====
-- What a follower's stream carries (stream.go: HandleStreamWithInitial, sendCatchup).
use mathlib.Core.Path.{subst}
use repository.Base.{◌^◌, ◌<◌, ◌≡◌, refl, ap, sym, List, [], length, All, arith, nat_comparable}
use repository.Base.Int64.{Int64}
use repository.Proto.{LogEntry, Payload, unset, snapshot, entry, PbSnapshot}
use repository.Store.State.{Store}
use repository.Repl.Leader.{Leader, Config, stop}
use repository.Repl.Commit.Prefix.{Holds}
use repository.Repl.Commit.Saved.{Saves, Step-Saves, start-Saves, stop-Saves}
use repository.Repl.Catchup.Numbered.{Numbered, Numbered-append, All-weaken, All-get_elem?}
use repository.Repl.Commit.Run
use repository.Repl.Pusher.Keeps.{push-Keeps}
use repository.Repl.Commit.Prefix.{proposal}
use repository.Repl.Commit.Run.{proposes, gives_up, acks, resets, commits, Step-Holds, Step-length}
use repository.Repl.Follower.Stream.{AreSet}
use repository.Repl.Follower.Runner.Based.{Genuine}
use repository.Repl.Pusher.{
  Source, Pusher, Phase, waiting_first, finished, catching_up, sending, positioning, subscribing,
  idle, checking, fetched, start,
}
use repository.Repl.Pusher.Run.{
  Step, leads, announces, halts, reports, pushes, others, Reach, here, next, source, Step-longer,
}
use repository.Repl.Pusher.Sends.{Queued, Pushes, push-Pushes}

record Sound (clock : Int64 → Int64) (f : Store → PbSnapshot) (w : Source) (entries : List LogEntry)
    (p : Pusher) : Type 0 where
  holds : Holds clock w.leader entries
  saves : Saves clock f w.leader entries
  sent : All (Numbered clock f entries) p.sent
  queued : Queued clock f entries p.phase

Step-Numbered :
    (clock : Int64 → Int64) (f : Store → PbSnapshot) {l l' : Leader}
    {entries entries' : List LogEntry} (p : Payload)
    → Run.Step clock l entries l' entries'
    → Numbered clock f entries p
    → Numbered clock f entries' p
Step-Numbered clock f {entries = entries} p (proposes op index e grown) h =
    subst (λ es. Numbered clock f es p) (sym grown)
      (Numbered-append clock f (proposal index op) entries p h)
Step-Numbered clock f p (gives_up index e) h = h
Step-Numbered clock f p (acks id index e) h = h
Step-Numbered clock f p (resets id e) h = h
Step-Numbered clock f p (commits signals e) h = h

Numbered-Genuine :
    (clock : Int64 → Int64) (f : Store → PbSnapshot) (entries : List LogEntry) (p : Payload)
    → AreSet entries
    → Numbered clock f entries p
    → Genuine clock f entries p
Numbered-Genuine clock f entries unset set h = h
Numbered-Genuine clock f entries (snapshot snap) set h = h
Numbered-Genuine clock f entries (entry e) set (k, index, there) =
    (k, index, there, All-get_elem? _ entries k e set there)

Queued-weaken :
    (clock : Int64 → Int64) (f : Store → PbSnapshot) (entries entries' : List LogEntry)
    (phase : Phase)
    → ((p : Payload) → Numbered clock f entries p → Numbered clock f entries' p)
    → Queued clock f entries phase
    → Queued clock f entries' phase
Queued-weaken clock f entries entries' waiting_first grow q = tt
Queued-weaken clock f entries entries' finished grow q = tt
Queued-weaken clock f entries entries' (catching_up sub last) grow q = tt
Queued-weaken clock f entries entries' (sending ms rest) grow q = All-weaken grow ms q
Queued-weaken clock f entries entries' (positioning sub) grow q = tt
Queued-weaken clock f entries entries' (subscribing last) grow q = tt
Queued-weaken clock f entries entries' (idle id last) grow q = tt
Queued-weaken clock f entries entries' (checking id last) grow q = tt
Queued-weaken clock f entries entries' (fetched id last li) grow q = tt

stop-Holds :
    (clock : Int64 → Int64) (l : Leader) (entries : List LogEntry)
    → Holds clock l entries
    → Holds clock (stop l) entries
stop-Holds clock l entries h = record {
  few = h.few;
  indexed = h.indexed;
  window = h.window;
  compacted = h.compacted;
  committed = h.committed;
  applied = h.applied;
  state = h.state;
}

-- A step that leaves the messages alone.
Sound-with :
    (clock : Int64 → Int64) (f : Store → PbSnapshot) (w' : Source) (l' : Leader)
    (entries entries' : List LogEntry) (p p' : Pusher)
    → Holds clock l' entries'
    → Saves clock f l' entries'
    → w'.leader ≡ l'
    → entries' ≡ entries
    → p'.sent ≡ p.sent
    → p'.phase ≡ p.phase
    → All (Numbered clock f entries) p.sent
    → Queued clock f entries p.phase
    → Sound clock f w' entries' p'
Sound-with clock f w' l' entries entries' p p' h v at same sent phase s q = record {
  saves = subst (λ l. Saves clock f l entries') (sym at) v;
  holds = subst (λ l. Holds clock l entries') (sym at) h;
  sent = rw (same, sent) s;
  queued = rw (same, phase) q;
}

Step-Sound :
    (clock : Int64 → Int64) (f : Store → PbSnapshot) {w w' : Source}
    {entries entries' : List LogEntry} {p p' : Pusher}
    → Step clock w entries p w' entries' p'
    → length entries' < 2 ^ 50
    → Sound clock f w entries p
    → Sound clock f w' entries' p'
Step-Sound clock f {w} {w'} {entries} {entries'} {p} {p'} (leads l' st same kept) few s =
    let grow = λ (m : Payload). Step-Numbered clock f m st in
    Sound-with clock f w' l' entries' entries' p p' (Step-Holds clock st few s.holds).0
      (Step-Saves clock f st s.holds s.saves) (ap (λ x. x.leader) same) refl (ap (λ x. x.sent) kept)
      (ap (λ x. x.phase) kept) (All-weaken grow p.sent s.sent)
      (Queued-weaken clock f entries entries' p.phase grow s.queued)
Step-Sound clock f {w} {w'} {entries} {entries'} {p} {p'} (announces n e same still kept) few s =
    Sound-with clock f w' w.leader entries entries' p p'
      (subst (Holds clock w.leader) (sym still) s.holds)
      (subst (Saves clock f w.leader) (sym still) s.saves) (ap (λ x. x.leader) same) still
      (ap (λ x. x.sent) kept) (ap (λ x. x.phase) kept) s.sent s.queued
Step-Sound clock f {w} {w'} {entries} {entries'} {p} {p'} (halts same still kept) few s =
    Sound-with clock f w' (stop w.leader) entries entries' p p'
      (subst (Holds clock (stop w.leader)) (sym still) (stop-Holds clock w.leader entries s.holds))
      (subst (Saves clock f (stop w.leader)) (sym still)
        (stop-Saves clock f w.leader entries s.saves))
      (ap (λ x. x.leader) same) still (ap (λ x. x.sent) kept) (ap (λ x. x.phase) kept) s.sent
      s.queued
Step-Sound clock f {w} {w'} {entries} {entries'} {p} {p'} (reports index same still kept) few s =
    Sound-with clock f w' w.leader entries entries' p p'
      (subst (Holds clock w.leader) (sym still) s.holds)
      (subst (Saves clock f w.leader) (sym still) s.saves) (ap (λ x. x.leader) same) still
      (ap (λ x. x.sent) kept) (ap (λ x. x.phase) kept) s.sent s.queued
Step-Sound clock f {w} {w'} {entries} {entries'} {p} {p'} (pushes a room e still) few s =
    let (sent, queued) =
      subst (Pushes clock f w entries) e (
        push-Pushes w entries s.holds s.saves a p.initial p.phase p.rounds p.sent s.sent
          s.queued) in
    Sound-with clock f w' w.leader entries entries' p' p'
      (subst (Holds clock w.leader) (sym still) s.holds)
      (subst (Saves clock f w.leader) (sym still) s.saves) (push-Keeps a w p w' p' room e).leader
      still refl refl sent queued
Step-Sound clock f {w} {w'} {entries} {entries'} {p} {p'} (others a q q' room apart e still kept)
      few s =
    Sound-with clock f w' w.leader entries entries' p p'
      (subst (Holds clock w.leader) (sym still) s.holds)
      (subst (Saves clock f w.leader) (sym still) s.saves) (push-Keeps a w q w' q' room e).leader
      still (ap (λ x. x.sent) kept) (ap (λ x. x.phase) kept) s.sent s.queued

Reach-Sound :
    (clock : Int64 → Int64) (cfg : Config) (f : Store → PbSnapshot) {w : Source}
    {entries : List LogEntry} {p : Pusher}
    → Reach clock (source cfg f) w entries p
    → length entries < 2 ^ 50
    → Sound clock f w entries p
Reach-Sound clock cfg f {w} {entries} {p} (here at none_yet first) few =
    Sound-with clock f w (Run.start cfg f) [] entries start p
      (Run.Reach-Holds clock cfg f (Run.here refl none_yet) few)
      (subst (Saves clock f (Run.start cfg f)) (sym none_yet) (start-Saves clock cfg f))
      (ap (λ x. x.leader) at) none_yet (ap (λ x. x.sent) first) (ap (λ x. x.phase) first) tt tt
Reach-Sound clock cfg f (next r st) few =
    Step-Sound clock f st few (Reach-Sound clock cfg f r (omega (arith, Step-longer clock st, few)))

pub Reach-Holds :
    (clock : Int64 → Int64) (cfg : Config) (f : Store → PbSnapshot) {w : Source}
    {entries : List LogEntry} {p : Pusher}
    → Reach clock (source cfg f) w entries p
    → length entries < 2 ^ 50
    → Holds clock w.leader entries
Reach-Holds clock cfg f r few = (Reach-Sound clock cfg f r few).holds

-- In every run of a leader from its start, beside one follower's stream and any others, whose entries
-- are all set, each message that the stream was sent is an entry of the log under its own index, or the
-- snapshot that the exporter gives for the replay of a first part of the log; none is empty.
pub push-Genuine :
    (clock : Int64 → Int64) (cfg : Config) (f : Store → PbSnapshot) {w : Source}
    {entries : List LogEntry} {p : Pusher}
    → Reach clock (source cfg f) w entries p
    → length entries < 2 ^ 50
    → AreSet entries
    → All (Genuine clock f entries) p.sent
push-Genuine clock cfg f {entries = entries} {p} r few set =
    All-weaken (λ m. Numbered-Genuine clock f entries m set) p.sent
      (Reach-Sound clock cfg f r few).sent
