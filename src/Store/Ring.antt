-- ===== src/Store/Ring.antt =====
-- The ring of KV events (store.go: history, head, count, appendEventLocked, oldestSeq). The array is
-- a function from its indices; a slot that was never written is nil.
pub mod Window
use repository.Base.{
  ℕ, suc, ◌+◌, ◌-◌, ◌%◌, ◌≡◌, Option, none, some, if◌then◌else◌, ltb, ◌==◌, nat_comparable,
}
use repository.Base.Int64.{Int64}
use repository.Proto.{Kind, KeyValue}

abbrev pub history_capacity : ℕ
history_capacity = 100_000

pub record Event : Type 0 where
  pub seq : Int64
  pub kind : Kind
  pub kv : KeyValue

pub record Ring : Type 0 where
  pub history : ℕ → Option Event
  pub head : ℕ
  pub count : ℕ

abbrev pub empty_ring : Ring
empty_ring = record { history = λ _. none; head = 0; count = 0 }

-- `history[i] = ev`
abbrev pub assign : (ℕ → Option Event) → ℕ → Event → ℕ → Option Event
assign slots i ev j = if i == j then some ev else slots j

unfoldable pub append_event : Ring → Event → Ring
append_event r ev =
    if ltb r.count history_capacity
    then record r {
      history = assign r.history ((r.head + r.count) % history_capacity) ev;
      count = r.count + 1;
    }
    else record r { history = assign r.history r.head ev; head = (r.head + 1) % history_capacity }

-- The i-th event from the oldest. `none` is the nil pointer.
abbrev pub slot : Ring → ℕ → Option Event
slot r i = r.history ((r.head + i) % history_capacity)

-- `oldestSeq`; `none` is the fault of a nil pointer.
unfoldable pub oldest_seq : Ring → Option Int64
oldest_seq r =
    if r.count == 0 then some 0 else elim (r.history r.head) [ none ↦ none | some ev ↦ some ev.seq ]
