-- ===== src/Store/Log/Backlog.antt =====
-- What `watch_kv` reads of the history (store.go: WatchKV).
use native.Mathlib.Decide.{dec_lt}
use repository.Base.{
  ℕ, suc, ◌+◌, ◌-◌, ◌%◌, ◌^◌, ◌≤◌, ◌<◌, ◌≡◌, refl, ap, sym, ◌∙◌, Bool, true, false, ◌&&◌, String,
  List, [], ◌∷◌, ◌++◌, map, some, All, All-map, length, select, select-append, select-none, arith,
  if◌then◌else◌, ◌⊎◌, inl, inr,
}
use repository.Base.Int64.{Int64}
use repository.Base.Int64
use repository.Proto.{WatchEvent}
use repository.Store.Ring.{Ring, Event, oldest_seq}
use repository.Store.Ring.Window.{Window, Represents}
use repository.Store.State.{Store, ok, err, revision_compacted}
use repository.Store.Watch.{
  match_kv, to_watch_event, backlog_from, horizon, too_old, watch_kv, subscribe, next_id,
}
use repository.Store.Log.{Ascending, Below, Tracks, Ascending-Below, Below-at}

-- The events that a subscriber with a cursor has still to see.
abbrev pub unseen : String → String → Int64 → Event → Bool
unseen ns key from_seq ev = Int64.lt from_seq ev.seq && match_kv ns key ev

unfoldable pub missing : String → String → Int64 → List Event → List WatchEvent
missing ns key from_seq log = map to_watch_event (select (unseen ns key from_seq) log)

backlog_from-Window :
    (r : Ring) (ns key : String) (from_seq : Int64) (i : ℕ) (evs : List Event)
    → Window r.history r.head i evs
    → backlog_from r ns key from_seq i (length evs) ≡ some (missing ns key from_seq evs)
unfolding backlog_from missing
backlog_from-Window r ns key from_seq i [] w = refl
backlog_from-Window r ns key from_seq i (ev ∷ evs) w =
    ground (arith, backlog_from-Window r ns key from_seq (suc i) evs w.1)

-- The ring yields exactly the unseen events that it keeps, and no read of it faults.
pub backlog_from-Represents :
    (r : Ring) (ns key : String) (from_seq : Int64) (evs : List Event)
    → Represents r evs
    → backlog_from r ns key from_seq 0 r.count ≡ some (missing ns key from_seq evs)
backlog_from-Represents r ns key from_seq evs rep =
    ap (λ n. backlog_from r ns key from_seq 0 n) rep.count
    ∙ backlog_from-Window r ns key from_seq 0 evs rep.window

seen-not-unseen :
    (ns key : String) (from_seq : Int64) (ev : Event)
    → from_seq < 2 ^ 63
    → ev.seq ≤ from_seq
    → unseen ns key from_seq ev ≡ false
seen-not-unseen ns key from_seq ev h k = ground arith

pub seen-missing :
    (ns key : String) (from_seq : Int64) (evs : List Event)
    → from_seq < 2 ^ 63
    → All (λ ev. ev.seq ≤ from_seq) evs
    → select (unseen ns key from_seq) evs ≡ []
seen-missing ns key from_seq evs h a = select-none (unseen ns key from_seq) evs (
    All-map (λ ev. ev.seq ≤ from_seq) (λ ev. unseen ns key from_seq ev ≡ false)
      (λ ev k. seen-not-unseen ns key from_seq ev h k) evs a)

-- An empty ring's horizon is the baseline.
pub horizon-nil : (s : Store) → Represents s.ring [] → horizon s ≡ some s.baseline_seq
unfolding horizon
horizon-nil s rep = ground arith

horizon-cons :
    (s : Store) (ev : Event) (evs : List Event)
    → Represents s.ring (ev ∷ evs)
    → horizon s ≡ some (Int64.sub ev.seq 1)
unfolding horizon oldest_seq
horizon-cons s ev evs rep =
    let at_head : (s.ring.head + 0) % 100_000 ≡ s.ring.head = omega (arith, rep.head) in
    let first : s.ring.history s.ring.head ≡ some ev =
      ap s.ring.history (sym at_head) ∙ rep.window.0 in
    ground (arith, first, rep.count)

-- A cursor that is not refused is at or past every event that has left the ring.
lost-seen :
    (s : Store) (from_seq : Int64) (log lost kept : List Event) (hi : ℕ)
    → hi ≤ 2 ^ 63
    → log ≡ lost ++ kept
    → Represents s.ring kept
    → Ascending 0 log
    → Below hi log
    → (kept ≡ [] → All (λ ev. ev.seq ≤ s.baseline_seq) lost)
    → s.baseline_seq < 2 ^ 63
    → 0 < from_seq
    → from_seq < 2 ^ 63
    → too_old s from_seq ≡ some false
    → All (λ ev. ev.seq ≤ from_seq) lost
unfolding too_old
lost-seen s from_seq log lost [] hi top split rep asc bel cov small pos fits fresh =
    All-map (λ ev. ev.seq ≤ s.baseline_seq) (λ ev. ev.seq ≤ from_seq)
      (λ ev k. ground (arith, horizon-nil s rep)) lost (cov refl)
lost-seen s from_seq log lost (ev ∷ evs) hi top split rep asc bel cov small pos fits fresh =
    let bound : ev.seq < hi = Below-at hi lost ev evs (rw split at bel) in
    All-map (λ x. x.seq < ev.seq) (λ x. x.seq ≤ from_seq)
      (λ x k. ground (arith, horizon-cons s ev evs rep, bound)) lost
      (Ascending-Below 0 lost ev evs (rw split at asc)).1

missing-append_seen :
    (ns key : String) (from_seq : Int64) (lost kept : List Event)
    → from_seq < 2 ^ 63
    → All (λ ev. ev.seq ≤ from_seq) lost
    → missing ns key from_seq (lost ++ kept) ≡ missing ns key from_seq kept
unfolding missing
missing-append_seen ns key from_seq lost kept fits seen =
    rw (
      select-append (unseen ns key from_seq) lost kept,
      seen-missing ns key from_seq lost fits seen,
    )

too_old-some :
    (s : Store) (from_seq : Int64) (kept : List Event)
    → Represents s.ring kept
    → (old : Bool) × (too_old s from_seq ≡ some old)
unfolding too_old
too_old-some s from_seq [] rep = (
  if Int64.lt 0 from_seq then Int64.lt from_seq s.baseline_seq else false,
  ground (arith, horizon-nil s rep),
)
too_old-some s from_seq (ev ∷ evs) rep = (
  if Int64.lt 0 from_seq then Int64.lt from_seq (Int64.sub ev.seq 1) else false,
  ground (arith, horizon-cons s ev evs rep),
)

-- The oldest cursor whose followers a store still has: the one before its oldest kept event, or the
-- baseline.
abbrev pub lowest : Store → List Event → ℕ
lowest s [] = s.baseline_seq
lowest s (ev ∷ evs) = ev.seq - 1

too_old-lowest :
    (s : Store) (from_seq : Int64) (log lost kept : List Event) (hi : ℕ)
    → hi ≤ 2 ^ 63
    → log ≡ lost ++ kept
    → Represents s.ring kept
    → Below hi log
    → s.baseline_seq < 2 ^ 63
    → from_seq < 2 ^ 63
    → too_old s from_seq ≡ some true
    → (0 < from_seq) × (from_seq < lowest s kept)
unfolding too_old
too_old-lowest s from_seq log lost [] hi top split rep bel small fits old =
    (ground arith, ground (arith, horizon-nil s rep))
too_old-lowest s from_seq log lost (ev ∷ evs) hi top split rep bel small fits old =
    let bound : ev.seq < hi = Below-at hi lost ev evs (rw split at bel) in
    (ground arith, ground (arith, horizon-cons s ev evs rep, bound))

module _ (s : Store) (ns key : String) (from_seq : Int64) where
  pub watch_kv-refused :
      too_old s from_seq ≡ some true → watch_kv s ns key from_seq ≡ some (err revision_compacted, s)
  unfolding watch_kv
  watch_kv-refused e = rw (e, watch_kv)

  pub watch_kv-served :
      (evs : List WatchEvent)
      → too_old s from_seq ≡ some false
      → backlog_from s.ring ns key from_seq 0 s.ring.count ≡ some evs
      → watch_kv s ns key from_seq ≡ some (ok (next_id s, evs), subscribe s ns key)
  unfolding watch_kv
  watch_kv-served evs e b = rw (e, b, watch_kv)

-- On a store that tracks a history, with cursors in range, watching never faults. It refuses a cursor
-- above 0, only one before the oldest that it can serve, and changes nothing; or it subscribes, and
-- replays the unseen events that the ring keeps, in order, which from a cursor above 0 are all the
-- unseen events of the history.
pub watch_kv_complete :
    (s : Store) (ns key : String) (from_seq : Int64) (log : List Event) (hi : ℕ)
    → hi ≤ 2 ^ 63
    → from_seq < 2 ^ 63
    → (t : Tracks hi s log)
    → ((watch_kv s ns key from_seq ≡ some (err revision_compacted, s))
        × (0 < from_seq)
        × (from_seq < lowest s t.kept))
      ⊎ ((watch_kv s ns key from_seq
            ≡ some (ok (next_id s, missing ns key from_seq t.kept), subscribe s ns key))
          × ((from_seq ≡ 0) ⊎ (missing ns key from_seq t.kept ≡ missing ns key from_seq log)))
watch_kv_complete s ns key from_seq log hi top fits t = go (too_old-some s from_seq t.kept t.ring)
  where
    all :
        too_old s from_seq ≡ some false
        → 0 < from_seq
        → missing ns key from_seq t.kept ≡ missing ns key from_seq log
    all fresh pos = sym (
        ap (missing ns key from_seq) t.split
        ∙ missing-append_seen ns key from_seq t.lost t.kept fits (
            lost-seen s from_seq log t.lost t.kept hi top t.split t.ring t.ordered t.below t.covered
              t.small pos fits fresh))

    go :
        (old : Bool) × (too_old s from_seq ≡ some old)
        → ((watch_kv s ns key from_seq ≡ some (err revision_compacted, s))
            × (0 < from_seq)
            × (from_seq < lowest s t.kept))
          ⊎ ((watch_kv s ns key from_seq
                ≡ some (ok (next_id s, missing ns key from_seq t.kept), subscribe s ns key))
              × ((from_seq ≡ 0) ⊎ (missing ns key from_seq t.kept ≡ missing ns key from_seq log)))
    go (true, e) =
        let (pos, early) =
          too_old-lowest s from_seq log t.lost t.kept hi top t.split t.ring t.below t.small fits
            e in
        inl (watch_kv-refused s ns key from_seq e, pos, early)
    go (false, e) = inr (
      watch_kv-served s ns key from_seq (missing ns key from_seq t.kept) e
          (backlog_from-Represents s.ring ns key from_seq t.kept t.ring),
      elim (dec_lt 0 from_seq) [ yes pos ↦ inr (all e pos) | no zero_cursor ↦ inl (omega arith) ],
    )
