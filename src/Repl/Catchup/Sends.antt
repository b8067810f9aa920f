-- ===== src/Repl/Catchup/Sends.antt =====
-- What a follower is sent when it connects, against the entries that were proposed (leader.go:
-- Catchup, EntriesAfter).
use native.Mathlib.Decide.{dec_lt}
use repository.Base.{
  ℕ, ◌+◌, ◌-◌, ◌^◌, ◌≤◌, ◌<◌, ◌≡◌, ap, ◌∙◌, Bool, true, false, List, none, some, length,
  length-drop, drop-drop, drop, arith, ◌⊎◌, inl, inr, nat_comparable, ◌==◌,
}
use repository.Base.Int64.{Int64}
use repository.Base.Int64
use repository.Proto.{LogEntry}
use repository.Repl.Leader.{Leader}
use repository.Repl.Commit.Prefix.{Holds}
use repository.Repl.Catchup.{slice_from, catchup, catchup_snapshot, entries_after}

slice_from-some {ℓ} :
    {A : Type ℓ} (xs : List A) (n : ℕ) → n ≤ length xs → slice_from xs n ≡ some (drop n xs)
unfolding slice_from
slice_from-some xs n h = ground arith

slice_from-none {ℓ} : {A : Type ℓ} (xs : List A) (n : ℕ) → length xs < n → slice_from xs n ≡ none
unfolding slice_from
slice_from-none xs n h = ground arith

module _ (l : Leader) (p : Int64) where
  abbrev past_window : Bool
  past_window = Int64.le (Int64.add l.compact_index 1) p

  abbrev start_at : ℕ
  start_at = Int64.sub p l.compact_index

  catchup-tail :
      (es : List LogEntry)
      → past_window ≡ true
      → slice_from l.log start_at ≡ some es
      → catchup l p ≡ some (none, es)
  unfolding catchup
  catchup-tail es a b = rw (a, b, catchup)

  catchup-fault : past_window ≡ true → slice_from l.log start_at ≡ none → catchup l p ≡ none
  unfolding catchup
  catchup-fault a b = rw (a, b, catchup)

  catchup-whole :
      past_window ≡ false → (l.compact_index == 0) ≡ true → catchup l p ≡ some (none, l.log)
  unfolding catchup
  catchup-whole a b = rw (a, b, catchup)

  catchup-from_snapshot :
      past_window ≡ false
      → (l.compact_index == 0) ≡ false
      → catchup l p ≡ some (catchup_snapshot l, l.log)
  unfolding catchup
  catchup-from_snapshot a b = rw (a, b, catchup)

module _ (clock : Int64 → Int64) (l : Leader) (entries : List LogEntry)
    (h : Holds clock l entries) where
  window-length : length l.log ≡ length entries - l.compact_index
  window-length = ap length h.window ∙ length-drop l.compact_index entries

  slice-window :
      (p : Int64)
      → l.compact_index ≤ p
      → p ≤ length entries
      → slice_from l.log (start_at l p) ≡ some (drop p entries)
  slice-window p from upto =
      let sum : l.compact_index + start_at l p ≡ p = omega (arith, h.few) in
      slice_from-some l.log (start_at l p) (omega (arith, window-length, h.few))
      ∙ ap (λ xs. some (drop (start_at l p) xs)) h.window
      ∙ ap some (drop-drop (start_at l p) l.compact_index entries ∙ ap (λ n. drop n entries) sum)

  pub catchup_lem :
      (p : Int64)
      → p < 2 ^ 63
      → ((length entries < p) × (catchup l p ≡ none))
        ⊎ ((p ≤ length entries)
            × ((l.compact_index < p) ⊎ (l.compact_index ≡ 0))
            × (catchup l p ≡ some (none, drop p entries)))
        ⊎ ((p ≤ l.compact_index)
            × (0 < l.compact_index)
            × (catchup l p ≡ some (catchup_snapshot l, drop l.compact_index entries)))
  catchup_lem p fits = elim (dec_lt l.compact_index p) [
    | yes past ↦
        let reached : past_window l p ≡ true = ground (arith, h.few, h.compacted, h.committed) in
        elim (dec_lt (length entries) p) [
          | yes over ↦ inl (
            over,
            catchup-fault l p reached (
                slice_from-none l.log (start_at l p)
                  (omega (arith, window-length, h.few, h.compacted, h.committed))),
          )
          | no inside ↦ inr (
              inl (
                omega arith,
                inl past,
                catchup-tail l p (drop p entries) reached
                    (slice-window p (omega arith) (omega arith)),
              ))
        ]
    | no before ↦
        let short : past_window l p ≡ false = ground (arith, h.few, h.compacted, h.committed) in
        elim (dec_lt 0 l.compact_index) [
          | yes truncated ↦ inr (
              inr (
                omega arith,
                truncated,
                catchup-from_snapshot l p short (ground arith)
                    ∙ ap (λ xs. some (catchup_snapshot l, xs)) h.window,
              ))
          | no never ↦
              let here : l.compact_index ≡ p = omega arith in
              inr (
                inl (
                  omega (arith, h.compacted, h.committed),
                  inr (omega arith),
                  catchup-whole l p short (ground arith)
                      ∙ ap (λ xs. some (none, xs)) (h.window ∙ ap (λ n. drop n entries) here),
                ))
        ]
  ]

  -- Tailing: the entries after a position within the log, a request for a catchup before it.
  pub entries_after_lem :
      (p : Int64)
      → p ≤ length entries
      → ((p < l.compact_index) × (entries_after l p ≡ some none))
        ⊎ ((l.compact_index ≤ p) × (entries_after l p ≡ some (some (drop p entries))))
  unfolding entries_after
  entries_after_lem p upto = elim (dec_lt p l.compact_index) [
    | yes before ↦ inl (before, ground (arith, h.few, h.compacted, h.committed))
    | no inside ↦
        let here = slice-window p (omega arith) upto in
        inr (omega arith, ground (arith, here, h.few, h.compacted, h.committed))
  ]
