-- ===== src/Repl/Replay.antt =====
-- Runs of log entries, and what a subscriber of a node that has applied one is sent (repl.go:
-- applyOne; store.go: WatchKV).
use mathlib.Core.List.{append-nil, append_assoc}
use mathlib.Core.Path.{subst}
use repository.Base.{
  ◌^◌, ◌≤◌, ◌<◌, ◌≡◌, refl, sym, ◌∙◌, List, [], ◌∷◌, ◌++◌, none, some, arith, Option-cases, ◌⊎◌,
  inl, inr, eq_of_some-eq, String,
}
use repository.Base.Int64.{Int64}
use repository.Proto.{LogEntry}
use repository.Store.Ring.{Event}
use repository.Store.State.{Store, new, ok, err, map_key_comparable, revision_compacted}
use repository.Store.Watch.{watch_kv, subscribe, next_id}
use repository.Store.Log.{IsTracked}
use repository.Store.Log.Backlog.{missing, watch_kv_complete}
use repository.Store.Ring.Window.{Represents-empty}
use repository.Repl.History.{events_of, apply_op-IsTracked}
use repository.Repl.Applier.{Applied, apply_one, replay}

-- Entries in the order of their indices, above `lo`.
abbrev pub Rising : Int64 → List LogEntry → Type 0
Rising lo [] = Unit
Rising lo (e ∷ es) = (lo < e.index) × (e.index < 2 ^ 50) × Rising e.index es

Rising-mono : (lo hi : Int64) (es : List LogEntry) → lo ≤ hi → Rising hi es → Rising lo es
Rising-mono lo hi [] h r = tt
Rising-mono lo hi (e ∷ es) h r = (omega arith, r.1, r.2)

-- All KV events of a run of entries.
unfoldable pub history : (Int64 → Int64) → Store → List LogEntry → List Event
history clock s [] = []
history clock s (e ∷ es) = elim (apply_one (clock e.index) s e) [
  | none ↦ []
  | some (r, s') ↦ events_of s e.index e.op r ++ history clock s' es
]

module _ (clock : Int64 → Int64) (s : Store) (e : LogEntry) (es : List LogEntry) where
  pub replay-fault : apply_one (clock e.index) s e ≡ none → replay clock s (e ∷ es) ≡ none
  unfolding replay
  replay-fault h = rw (h, replay)

  module _ (r : Applied) (s₁ : Store) (h : apply_one (clock e.index) s e ≡ some (r, s₁)) where
    pub replay-cons : replay clock s (e ∷ es) ≡ replay clock s₁ es
    unfolding replay
    replay-cons = rw (h, replay)

    pub history-cons : history clock s (e ∷ es) ≡ events_of s e.index e.op r ++ history clock s₁ es
    unfolding history
    history-cons = rw (h, history)

pub replay-nil : (clock : Int64 → Int64) (s : Store) → replay clock s [] ≡ some s
unfolding replay
replay-nil clock s = refl

pub history-nil : (clock : Int64 → Int64) (s : Store) → history clock s [] ≡ []
unfolding history
history-nil clock s = refl

pub replay-IsTracked :
    (clock : Int64 → Int64) (es : List LogEntry) (s s' : Store) (log : List Event)
    → Rising s.rev es
    → s.rev < 2 ^ 50
    → IsTracked s log
    → replay clock s es ≡ some s'
    → IsTracked s' (log ++ history clock s es) × (s'.rev < 2 ^ 50)
replay-IsTracked clock [] s s' log up small t e =
    let same : s ≡ s' = eq_of_some-eq (sym (replay-nil clock s) ∙ e) in
    (rw (history-nil, append-nil) (subst (λ x. IsTracked x log) same t), ground arith)
replay-IsTracked clock (x ∷ es) s s' log up small t e =
    elim (Option-cases (apply_one (clock x.index) s x)) [
      | inl fault ↦ cc (replay-fault clock s x es fault)
      | inr ((r, s₁), h) ↦
          let (t₁, le) = apply_op-IsTracked (clock x.index) s x.index log r s₁ x.op up.0 up.1 t h in
          let rest =
            replay-IsTracked clock es s₁ s' (log ++ events_of s x.index x.op r)
              (Rising-mono s₁.rev x.index es le up.2) (omega (arith, le, up.1)) t₁
              (sym (replay-cons clock s x es r s₁ h) ∙ e) in
          (rw (history-cons clock s x es r s₁ h) (rw append_assoc at (rest.0)), rest.1)
    ]

pub IsTracked-new : IsTracked new []
IsTracked-new = record {
  lost = [];
  kept = [];
  split = refl;
  ring = Represents-empty;
  ordered = tt;
  below = tt;
  covered = λ _. tt;
  small = omega arith;
}

-- On a node that has applied a run of the log to an empty store, watching never faults. A cursor above
-- 0 is refused, and nothing changes; or the subscriber is registered and gets, in order and once
-- each, all events of the run that match and are newer than the cursor. From 0 it gets a suffix of
-- the run's events.
pub replay-watch_kv :
    (clock : Int64 → Int64) (es : List LogEntry) (s : Store) (ns key : String) (from_seq : Int64)
    → Rising 0 es
    → from_seq < 2 ^ 63
    → replay clock new es ≡ some s
    → (lost : List Event) × (kept : List Event) × (history clock new es ≡ lost ++ kept)
      × (((watch_kv s ns key from_seq ≡ some (err revision_compacted, s)) × (0 < from_seq))
          ⊎ ((watch_kv s ns key from_seq
                ≡ some (ok (next_id s, missing ns key from_seq kept), subscribe s ns key))
              × ((from_seq ≡ 0)
                  ⊎ (missing ns key from_seq kept
                      ≡ missing ns key from_seq (history clock new es)))))
replay-watch_kv clock es s ns key from_seq up fits e =
    let (t, small) = replay-IsTracked clock es new s [] up (omega arith) IsTracked-new e in
    (
      t.lost,
      t.kept,
      t.split,
      elim (watch_kv_complete s ns key from_seq (history clock new es) _ (omega arith) fits t) [
        | inl (e, pos, early) ↦ inl (e, pos)
        | inr served ↦ inr served
      ],
    )
