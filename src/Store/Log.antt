-- ===== src/Store/Log.antt =====
-- The history of KV events that a store stands for: every event of the replicated log in order, the
-- newest of them in the ring.
pub mod Emit
pub mod Backlog
pub mod Resume
pub mod Changes
pub mod Entries
pub mod Writes
use repository.Base.{
  ℕ, suc, ◌+◌, ◌*◌, ◌^◌, ◌≤◌, ◌<◌, ◌≡◌, refl, List, [], ◌∷◌, ◌++◌, All, All-append, arith,
}
use repository.Store.Ring.{Event}
use repository.Store.Ring.Window.{Represents}
use repository.Store.State.{Store}

-- Cursors rise strictly, from `lo` on.
abbrev pub Ascending : ℕ → List Event → Type 0
Ascending lo [] = Unit
Ascending lo (ev ∷ evs) = (lo ≤ ev.seq) × Ascending (suc ev.seq) evs

abbrev pub Below : ℕ → List Event → Type 0
Below hi evs = All (λ ev. ev.seq < hi) evs

-- All events so far have a cursor below `hi`; `lost` have left the ring, or were before the
-- snapshot that the store was restored from.
pub record Tracks (hi : ℕ) (s : Store) (log : List Event) : Type 0 where
  pub lost : List Event
  pub kept : List Event
  pub split : log ≡ lost ++ kept
  pub ring : Represents s.ring kept
  pub ordered : Ascending 0 log
  pub below : Below hi log
  pub covered : kept ≡ [] → All (λ ev. ev.seq ≤ s.baseline_seq) lost
  pub small : s.baseline_seq < 2 ^ 63

-- The cursors of log entries up to that of `s.rev` are taken.
abbrev pub IsTracked : Store → List Event → Type 0
IsTracked s log = Tracks ((s.rev + 1) * 4096) s log

pub Ascending-append :
    (lo hi : ℕ) (evs : List Event) (ev : Event)
    → Ascending lo evs
    → Below hi evs
    → lo ≤ ev.seq
    → hi ≤ ev.seq
    → Ascending lo (evs ++ ev ∷ [])
Ascending-append lo hi [] ev a b l h = (l, tt)
Ascending-append lo hi (x ∷ evs) ev a b l h =
    (a.0, Ascending-append (suc x.seq) hi evs ev a.1 b.1 (omega arith) h)

pub Below-append_self :
    (evs : List Event) (ev : Event) (hi : ℕ)
    → Below hi evs
    → hi ≤ suc ev.seq
    → Below (suc ev.seq) (evs ++ ev ∷ [])
Below-append_self [] ev hi b h = (omega arith, tt)
Below-append_self (x ∷ evs) ev hi b h = (omega arith, Below-append_self evs ev hi b.1 h)

pub Below-mono : (evs : List Event) (lo hi : ℕ) → lo ≤ hi → Below lo evs → Below hi evs
Below-mono [] lo hi h b = tt
Below-mono (x ∷ evs) lo hi h b = (omega arith, Below-mono evs lo hi h b.1)

-- What stands before an event has a smaller cursor.
pub Ascending-Below :
    (lo : ℕ) (xs : List Event) (ev : Event) (ys : List Event)
    → Ascending lo (xs ++ ev ∷ ys)
    → (lo ≤ ev.seq) × Below ev.seq xs
Ascending-Below lo [] ev ys a = (a.0, tt)
Ascending-Below lo (x ∷ xs) ev ys a =
    let (l, b) = Ascending-Below (suc x.seq) xs ev ys a.1 in (omega arith, (omega arith, b))

pub Below-at :
    (hi : ℕ) (xs : List Event) (ev : Event) (ys : List Event)
    → Below hi (xs ++ ev ∷ ys)
    → ev.seq < hi
Below-at hi [] ev ys b = b.0
Below-at hi (x ∷ xs) ev ys b = Below-at hi xs ev ys b.1
