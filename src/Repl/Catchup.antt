-- ===== src/Repl/Catchup.antt =====
-- What the leader sends to a follower (leader.go: Catchup, EntriesAfter; stream.go: sendCatchup).
pub mod Sends
pub mod Numbered
use repository.Base.{
  ℕ, zero, suc, ◌+◌, ◌++◌, Bool, true, false, List, [], ◌∷◌, map, Option, none, some, length, drop,
  if◌then◌else◌, ltb, ◌==◌, nat_comparable,
}
use repository.Base.Int64.{Int64}
use repository.Base.Int64
use repository.Proto.{LogEntry, PbSnapshot, Payload, snapshot, entry}
use repository.Repl.Leader.{Leader}

-- `xs[start:]`; `none` is the panic of a start past the end.
unfoldable pub slice_from {ℓ} : {A : Type ℓ} → List A → ℕ → Option (List A)
slice_from xs start = if ltb (length xs) start then none else some (drop start xs)

abbrev pub with_snapshot :
    Option PbSnapshot → List LogEntry → Option (Option PbSnapshot × List LogEntry)
with_snapshot snap entries = some (snap, entries)

-- The snapshot that goes with the whole window.
unfoldable pub catchup_snapshot : Leader → Option PbSnapshot
catchup_snapshot l = elim l.saved_snap [
  | some snap ↦ some snap
  | none ↦ elim l.export_snapshot [ none ↦ none | some f ↦ some (f l.store) ]
]

unfoldable pub catchup : Leader → Int64 → Option (Option PbSnapshot × List LogEntry)
unfolding slice_from catchup_snapshot
catchup l follower_last =
    if Int64.le (Int64.add l.compact_index 1) follower_last
    then elim (slice_from l.log (Int64.sub follower_last l.compact_index)) [
      | none ↦ none
      | some entries ↦ some (none, entries)
    ]
    else if l.compact_index == 0
    then some (none, l.log)
    else some (catchup_snapshot l, l.log)

-- `none` is the panic; otherwise the entries, or none of them outside the window.
unfoldable pub entries_after : Leader → Int64 → Option (Option (List LogEntry))
unfolding slice_from
entries_after l follower_last =
    if Int64.lt follower_last l.compact_index
    then some none
    else elim (slice_from l.log (Int64.sub follower_last l.compact_index)) [
      | none ↦ none
      | some entries ↦ some (some entries)
    ]

-- `sendCatchup`: the messages, in order.
unfoldable pub catchup_messages : Option PbSnapshot × List LogEntry → List Payload
catchup_messages (none, entries) = map entry entries
catchup_messages (some snap, entries) = snapshot snap ∷ map entry entries
