-- ===== src/Store/Ring/Window.antt =====
-- The ring against the list of the events that it keeps, oldest first.
use repository.Base.{
  ℕ, suc, ◌+◌, ◌%◌, ◌≤◌, ◌<◌, ◌≡◌, List, [], ◌∷◌, ◌++◌, Option, some, length, length-append, drop,
  arith, ltb, if◌then◌else◌,
}
use repository.Store.Ring.{Ring, Event, history_capacity, assign, append_event, empty_ring}

-- From its i-th slot on the ring holds `evs`.
abbrev pub Window : (ℕ → Option Event) → ℕ → ℕ → List Event → Type 0
Window slots head i [] = Unit
Window slots head i (ev ∷ evs) =
    (slots ((head + i) % history_capacity) ≡ some ev) × Window slots head (suc i) evs

pub record Represents (r : Ring) (evs : List Event) : Type 0 where
  pub head : r.head < history_capacity
  pub count : r.count ≡ length evs
  pub fits : length evs ≤ history_capacity
  pub window : Window r.history r.head 0 evs

-- The events that are kept after one more: all, or all but the oldest.
abbrev pub push : List Event → Event → List Event
push evs ev = if ltb (length evs) history_capacity then evs ++ ev ∷ [] else drop 1 evs ++ ev ∷ []

Window-assign_next :
    (slots : ℕ → Option Event) (head i : ℕ) (ev : Event) (evs : List Event) (k : ℕ)
    → k ≡ i + length evs
    → k < history_capacity
    → Window slots head i evs
    → Window (assign slots ((head + k) % history_capacity) ev) head i (evs ++ ev ∷ [])
Window-assign_next slots head i ev [] k e h w = ground arith
Window-assign_next slots head i ev (x ∷ evs) k e h w =
    ground (arith, Window-assign_next slots head (suc i) ev evs k (omega arith) h w.1)

Window-assign_oldest :
    (slots : ℕ → Option Event) (head i : ℕ) (ev : Event) (evs : List Event)
    → head < history_capacity
    → suc (i + length evs) ≡ history_capacity
    → Window slots head (suc i) evs
    → Window (assign slots head ev) ((head + 1) % history_capacity) i (evs ++ ev ∷ [])
Window-assign_oldest slots head i ev [] h e w = ground arith
Window-assign_oldest slots head i ev (x ∷ evs) h e w =
    ground (arith, Window-assign_oldest slots head (suc i) ev evs h (omega arith) w.1)

pub Represents-empty : Represents empty_ring []
Represents-empty = record {
  head = omega arith;
  count = omega arith;
  fits = omega arith;
  window = tt;
}

-- Appending an event keeps the ring well formed; it holds the new event last, and drops the oldest
-- one exactly if it was full.
pub append_event-Represents :
    (r : Ring) (evs : List Event) (ev : Event)
    → Represents r evs
    → Represents (append_event r ev) (push evs ev)
unfolding append_event
append_event-Represents r [] ev rep = record {
  head = ground arith;
  count = ground arith;
  fits = ground arith;
  window = ground (arith, Window-assign_next r.history r.head 0 ev [] r.count);
}
append_event-Represents r (x ∷ evs) ev rep = record {
  head = ground arith;
  count = ground (arith, length-append evs (ev ∷ []));
  fits = ground (arith, length-append evs (ev ∷ []));
  window = ground (
    arith,
    Window-assign_next r.history r.head 0 ev (x ∷ evs) r.count,
    Window-assign_oldest r.history r.head 0 ev evs,
  );
}
