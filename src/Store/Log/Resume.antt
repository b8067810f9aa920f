-- ===== src/Store/Log/Resume.antt =====
-- Going on from the last cursor that was sent (watch.go: watchLoop; store.go: WatchKV).
use mathlib.Core.List.{map-append}
use repository.Base.{
  ℕ, suc, ◌^◌, ◌≤◌, ◌<◌, ◌≡◌, refl, ap, String, List, [], ◌∷◌, ◌++◌, All, select-append, arith,
  Bool-cases, inl, inr,
}
use repository.Base.Int64.{Int64}
use repository.Proto.{WatchEvent}
use repository.Store.Ring.{Event}
use repository.Store.Watch.{to_watch_event}
use repository.Store.Log.{Ascending, Below, Below-mono}
use repository.Store.Log.Backlog.{missing, unseen}
use repository.Store.Feed.{matching}

-- Past a cursor that all events exceed, what is missing is what matches.
pub missing-matching :
    (ns key : String) (cursor : Int64) (evs : List Event)
    → cursor < 2 ^ 63
    → All (λ ev. cursor < ev.seq) evs
    → Below (2 ^ 63) evs
    → missing ns key cursor evs ≡ matching ns key evs
unfolding missing matching
missing-matching ns key cursor [] fits newer b = refl
missing-matching ns key cursor (ev ∷ evs) fits newer b =
    ground (arith, missing-matching ns key cursor evs fits newer.1 b.1)

pub missing-append :
    (ns key : String) (cursor : Int64) (xs ys : List Event)
    → missing ns key cursor (xs ++ ys) ≡ missing ns key cursor xs ++ missing ns key cursor ys
unfolding missing
missing-append ns key cursor xs ys =
    rw (select-append (unseen ns key cursor) xs ys) (map-append to_watch_event _ _)

Ascending-newer :
    (lo cursor : ℕ) (evs : List Event)
    → cursor < lo
    → Ascending lo evs
    → All (λ ev. cursor < ev.seq) evs
Ascending-newer lo cursor [] h a = tt
Ascending-newer lo cursor (ev ∷ evs) h a =
    (omega arith, Ascending-newer (suc ev.seq) cursor evs (omega arith) a.1)

-- After the first missing event the others are missing.
pub missing-next :
    (ns key : String) (cursor : Int64) (lo hi : ℕ) (log : List Event) (out : WatchEvent)
    (rest : List WatchEvent)
    → cursor < 2 ^ 63
    → hi ≤ 2 ^ 63
    → Ascending lo log
    → Below hi log
    → missing ns key cursor log ≡ out ∷ rest
    → (cursor < out.revision) × (out.revision < hi) × (missing ns key out.revision log ≡ rest)
unfolding missing
missing-next ns key cursor lo hi [] out rest fits top a b e = cc
missing-next ns key cursor lo hi (ev ∷ log) out rest fits top a b e =
    elim (Bool-cases (unseen ns key cursor ev)) [
      | inr seen ↦
          let ih =
            missing-next ns key cursor (suc ev.seq) hi log out rest fits top a.1 b.1
              (ground arith) in
          (ih.0, ih.1, ground (arith, ih.0, ih.1, ih.2))
      | inl here ↦
          let same : out ≡ to_watch_event ev = ground arith in
          let at : out.revision ≡ ev.seq = ap (λ (x : WatchEvent). x.revision) same in
          let skip =
            missing-matching ns key ev.seq log (omega (arith, b.0))
              (Ascending-newer (suc ev.seq) ev.seq log (omega arith) a.1)
              (Below-mono log hi (2 ^ 63) top b.1) in
          let before : cursor < ev.seq = ground arith in
          let all =
            missing-matching ns key cursor log fits
              (Ascending-newer (suc ev.seq) cursor log (omega arith) a.1)
              (Below-mono log hi (2 ^ 63) top b.1) in
          (omega (arith, at, before), omega (arith, at, b.0), ground (arith, at, skip, all))
    ]
