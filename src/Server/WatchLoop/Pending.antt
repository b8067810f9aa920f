-- ===== src/Server/WatchLoop/Pending.antt =====
-- What a watch stream has still to send, between the backlog and the channel (watch.go; store.go:
-- fanoutKVLocked).
use mathlib.Core.List.{append_assoc}
use repository.Base.{
  ℕ, suc, ◌+◌, ◌*◌, ◌^◌, ◌≤◌, ◌<◌, ◌≡◌, ap, sym, ◌∙◌, String, List, [], ◌∷◌, ◌++◌, some, All, arith,
  ◌⊎◌, inl, inr, nat_comparable,
}
use repository.Base.Int64.{Int64}
use repository.Base.Dict.{IsUnique}
use repository.Proto.{
  WatchEvent, Op, empty, put, delete, register, heartbeat, expire_keys, expire_services, Kind,
  KeyValue,
}
use repository.Store.Ring.{Event}
use repository.Store.State.{Store}
use repository.Store.Log.{IsTracked, Ascending, Below, Below-mono}
use repository.Store.Log.Backlog.{missing}
use repository.Store.Log.Resume.{missing-matching, missing-append}
use repository.Store.Log.Changes.{stamp}
use repository.Store.Feed.{matching, Open, Shut, IsAbsent, Carries}
use repository.Repl.Applier.{Applied, apply_op}
use repository.Repl.History.{events_of, apply_op-IsTracked}
use repository.Repl.Feed.{apply_op-Carries}

-- A store that stands for a history, whose subscribers have different ids, none above the last one given.
pub record Hub (s : Store) (log : List Event) : Type 0 where
  pub tracked : IsTracked s log
  pub small : s.rev < 2 ^ 50
  pub unique : IsUnique s.kv_watchers
  pub fresh : (id : Int64) → s.watcher_seq < id → IsAbsent s id

-- `front` and then the channel are the missing events: all of them while it is open, the first few
-- once it is closed.
abbrev pub Pending : Store → Int64 → String → String → Int64 → List Event → List WatchEvent → Type 0
Pending s id ns key cursor log front =
    ((ch : List WatchEvent) × Open s id ns key ch × (front ++ ch ≡ missing ns key cursor log))
    ⊎ ((ch : List WatchEvent) × (rest : List WatchEvent) × Shut s id ch
        × (front ++ (ch ++ rest) ≡ missing ns key cursor log))

module _ {ℓ} {A : Type ℓ} (a b c d : List A) where
  regroup_three : (a ++ (b ++ c)) ++ d ≡ a ++ (b ++ (c ++ d))
  regroup_three = simp append_assoc

  regroup_two : a ++ ((b ++ c) ++ d) ≡ (a ++ b) ++ (c ++ d)
  regroup_two = simp append_assoc

Ascending-tail :
    (lo : ℕ) (xs ys : List Event) → Ascending lo (xs ++ ys) → (lo' : ℕ) × Ascending lo' ys
Ascending-tail lo [] ys a = (lo, a)
Ascending-tail lo (x ∷ xs) ys a = Ascending-tail (suc x.seq) xs ys a.1

Below-tail : (hi : ℕ) (xs ys : List Event) → Below hi (xs ++ ys) → Below hi ys
Below-tail hi [] ys b = b
Below-tail hi (x ∷ xs) ys b = Below-tail hi xs ys b.1

Ascending-from :
    (lo n : ℕ) (evs : List Event) → n ≤ lo → Ascending lo evs → All (λ ev. n ≤ ev.seq) evs
Ascending-from lo n [] h a = tt
Ascending-from lo n (ev ∷ evs) h a =
    (omega arith, Ascending-from (suc ev.seq) n evs (omega arith) a.1)

stamp-from :
    (index : Int64) (changes : List (Kind × KeyValue)) (lo : ℕ)
    → index < 2 ^ 50
    → Ascending lo (stamp index 0 changes)
    → All (λ ev. index * 4096 ≤ ev.seq) (stamp index 0 changes)
stamp-from index [] lo small a = tt
stamp-from index ((kind, kv) ∷ changes) lo small a = (
  omega (arith, small),
  Ascending-from _ (index * 4096) (stamp index 1 changes) (omega (arith, small)) a.1,
)

events_of-from :
    (s : Store) (index : Int64) (op : Op) (r : Applied) (lo : ℕ)
    → index < 2 ^ 50
    → Ascending lo (events_of s index op r)
    → All (λ ev. index * 4096 ≤ ev.seq) (events_of s index op r)
events_of-from s index empty r lo small a = tt
events_of-from s index (put op) r lo small a = stamp-from index _ lo small a
events_of-from s index (delete op) r lo small a = stamp-from index _ lo small a
events_of-from s index (register op) r lo small a = tt
events_of-from s index (heartbeat op) r lo small a = tt
events_of-from s index (expire_keys items) r lo small a = stamp-from index _ lo small a
events_of-from s index (expire_services items) r lo small a = tt

All-lt :
    (n cursor : ℕ) (evs : List Event)
    → cursor < n
    → All (λ ev. n ≤ ev.seq) evs
    → All (λ ev. cursor < ev.seq) evs
All-lt n cursor [] h a = tt
All-lt n cursor (ev ∷ evs) h a = (omega (arith, a.0), All-lt n cursor evs h a.1)

module _ (now : Int64) (s s' : Store) (index : Int64) (op : Op) (r : Applied) (log : List Event)
    (later : s.rev < index) (small : index < 2 ^ 50) (h : Hub s log)
    (e : apply_op now s index op ≡ some (r, s')) where
  abbrev new_events : List Event
  new_events = events_of s index op r

  carries : Carries s new_events s'
  carries = apply_op-Carries now s index r s' op e

  tracked_next : IsTracked s' (log ++ new_events) × (s'.rev ≤ index)
  tracked_next = apply_op-IsTracked now s index log r s' op later small h.tracked e

  -- One more entry of the log.
  pub apply_op-Hub : Hub s' (log ++ new_events)
  apply_op-Hub = record {
    tracked = tracked_next.0;
    small = omega (arith, tracked_next.1, small);
    unique = carries.unique h.unique;
    fresh = λ id above. carries.absent id (h.fresh id (omega (arith, carries.seq, above)));
  }

  module _ (ns key : String) (cursor : Int64) (behind : cursor < (s.rev + 1) * 4096) where
    missing_new : missing ns key cursor new_events ≡ matching ns key new_events
    missing_new =
        let t = tracked_next.0 in
        let (lo, a) = Ascending-tail 0 log new_events t.ordered in
        missing-matching ns key cursor new_events (omega (arith, h.small))
          (All-lt (index * 4096) cursor new_events (omega arith)
            (events_of-from s index op r lo small a))
          (Below-mono new_events _ (2 ^ 63) (omega (arith, tracked_next.1, small))
            (Below-tail _ log new_events t.below))

    -- What a cursor that is not ahead misses grows by what matches.
    pub missing-apply_op :
        missing ns key cursor (log ++ new_events)
        ≡ missing ns key cursor log ++ matching ns key new_events
    missing-apply_op =
        missing-append ns key cursor log new_events
        ∙ ap (λ z. missing ns key cursor log ++ z) missing_new

    grow :
        (xs : List WatchEvent)
        → xs ≡ missing ns key cursor log
        → xs ++ matching ns key new_events ≡ missing ns key cursor (log ++ new_events)
    grow xs eq = ap (λ z. z ++ matching ns key new_events) eq ∙ sym missing-apply_op

    pub apply_op-Pending :
        (id : Int64) (front : List WatchEvent)
        → Pending s id ns key cursor log front
        → Pending s' id ns key cursor (log ++ new_events) front
    apply_op-Pending id front (inr (ch, rest, shut, eq)) = inr (
      ch,
      rest ++ matching ns key new_events,
      carries.stays id ch shut,
      sym (regroup_three front ch rest _) ∙ grow (front ++ (ch ++ rest)) eq,
    )
    apply_op-Pending id front (inl (ch, o, eq)) = elim (carries.feeds id ns key ch h.unique o) [
      | inl o' ↦ inl (
        ch ++ matching ns key new_events,
        o',
        sym (append_assoc front ch _) ∙ grow (front ++ ch) eq,
      )
      | inr (got, rest, split, shut) ↦ inr (
        ch ++ got,
        rest,
        shut,
        regroup_two front ch got rest
            ∙ ap (λ z. (front ++ ch) ++ z) (sym split)
            ∙ grow (front ++ ch) eq,
      )
    ]
