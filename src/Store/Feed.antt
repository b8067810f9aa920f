-- ===== src/Store/Feed.antt =====
-- What a subscriber's channel holds while events are emitted (store.go: fanoutKVLocked).
pub mod Writes
use mathlib.Core.List.{append-nil, append_assoc, map-append}
use mathlib.Core.Path.{subst}
use repository.Base.{
  ℕ, ◌+◌, ◌≡◌, refl, ap, sym, ◌∙◌, Bool, true, false, not, ◌&&◌, String, List, [], ◌∷◌, ◌++◌, map,
  Option, none, some, length, select, ltb, if◌then◌else◌, ◌==◌, arith, Bool-cases, ◌⊎◌, inl, inr,
  nat_comparable, text_comparable, select-append,
}
use repository.Base.Int64.{Int64}
use repository.Base.Dict.{Dict, find, IsUnique}
use repository.Proto.{Kind, KeyValue, WatchEvent}
use repository.Store.Ring.{Event}
use repository.Store.State.{Store, KvWatcher, clone_kv}
use repository.Store.Emit.{emit_kv, after_emit, fanout_kv, wants, watcher_buffer, event_cursor}
use repository.Store.Watch.{match_kv, to_watch_event}
use repository.Store.Log.Emit.{emitted}

abbrev out_of : WatchEvent → WatchEvent
out_of ev = record { kind = ev.kind; kv = clone_kv ev.kv; revision = ev.revision }

-- What becomes of one subscriber, and what its channel holds if it is closed.
delivered : WatchEvent → KvWatcher → Option KvWatcher
delivered ev w =
    if not (wants w ev)
    then some w
    else if ltb (length w.ch) watcher_buffer
    then some (record w { ch = w.ch ++ out_of ev ∷ [] })
    else none

overflow : WatchEvent → KvWatcher → Option (List WatchEvent)
overflow ev w =
    if not (wants w ev) then none else if ltb (length w.ch) watcher_buffer then none else some w.ch

find-fanout_kv-none :
    (ev : WatchEvent) (ws : Dict Int64 KvWatcher) (id : Int64)
    → find id ws ≡ none
    → (find id (fanout_kv ev ws).0 ≡ none) × (find id (fanout_kv ev ws).1 ≡ none)
unfolding fanout_kv find
find-fanout_kv-none ev [] id h = (refl, refl)
find-fanout_kv-none ev ((j, w) ∷ ws) id h =
    ground (arith, nat_comparable.agree_iff j id, find-fanout_kv-none ev ws id)

find-fanout_kv-some :
    (ev : WatchEvent) (ws : Dict Int64 KvWatcher) (id : Int64) (w : KvWatcher)
    → IsUnique ws
    → find id ws ≡ some w
    → (find id (fanout_kv ev ws).0 ≡ delivered ev w) × (find id (fanout_kv ev ws).1 ≡ overflow ev w)
unfolding fanout_kv find delivered overflow
find-fanout_kv-some ev [] id w u h = cc
find-fanout_kv-some ev ((j, x) ∷ ws) id w u h = ground (
  arith,
  nat_comparable.agree_iff j id,
  find-fanout_kv-none ev ws id,
  find-fanout_kv-none ev ws j,
  find-fanout_kv-some ev ws id w u.1,
)

IsUnique-fanout_kv :
    (ev : WatchEvent) (ws : Dict Int64 KvWatcher) → IsUnique ws → IsUnique (fanout_kv ev ws).0
unfolding fanout_kv
IsUnique-fanout_kv ev [] u = tt
IsUnique-fanout_kv ev ((j, w) ∷ ws) u =
    ground (arith, find-fanout_kv-none ev ws j u.0, IsUnique-fanout_kv ev ws u.1)

-- The events of a run that a subscriber is sent.
unfoldable pub matching : String → String → List Event → List WatchEvent
matching ns key evs = map to_watch_event (select (match_kv ns key) evs)

pub matching-append :
    (ns key : String) (xs ys : List Event)
    → matching ns key (xs ++ ys) ≡ matching ns key xs ++ matching ns key ys
unfolding matching
matching-append ns key xs ys = rw select-append (map-append to_watch_event _ _)

-- A subscriber with its channel open, holding `ch`.
abbrev pub Open : Store → Int64 → String → String → List WatchEvent → Type 0
Open s id ns key ch =
    (find id s.kv_watchers ≡ some (record { ns = ns; key = key; ch = ch }))
    × (find id s.kv_closed ≡ none)

-- A subscriber that was removed; its closed channel still holds `ch`.
abbrev pub Shut : Store → Int64 → List WatchEvent → Type 0
Shut s id ch = (find id s.kv_watchers ≡ none) × (find id s.kv_closed ≡ some ch)

-- The channel has got all of the events, or was closed after the first few of them.
abbrev pub Fed : Store → Int64 → String → String → List WatchEvent → List Event → Type 0
Fed s id ns key ch evs =
    Open s id ns key (ch ++ matching ns key evs)
    ⊎ ((got : List WatchEvent) × (rest : List WatchEvent) × (matching ns key evs ≡ got ++ rest)
        × Shut s id (ch ++ got))

-- An id that no subscriber has had.
abbrev pub IsAbsent : Store → Int64 → Type 0
IsAbsent s id = (find id s.kv_watchers ≡ none) × (find id s.kv_closed ≡ none)

-- From one store to another while `evs` are emitted.
pub record Carries (s : Store) (evs : List Event) (s' : Store) : Type 0 where
  pub unique : IsUnique s.kv_watchers → IsUnique s'.kv_watchers
  pub feeds :
      (id : Int64) (ns key : String) (ch : List WatchEvent)
      → IsUnique s.kv_watchers
      → Open s id ns key ch
      → Fed s' id ns key ch evs
  pub stays : (id : Int64) (ch : List WatchEvent) → Shut s id ch → Shut s' id ch
  pub absent : (id : Int64) → IsAbsent s id → IsAbsent s' id
  pub seq : s'.watcher_seq ≡ s.watcher_seq

pub find-append {ℓ} :
    {V : Type ℓ} (id : Int64) (xs ys : Dict Int64 V)
    → find id (xs ++ ys) ≡ (elim (find id xs) [ none ↦ find id ys | some v ↦ some v ])
unfolding find
find-append id [] ys = refl
find-append id ((j, v) ∷ xs) ys = ground (arith, find-append id xs ys)

wants-match_kv :
    (ns key : String) (ch : List WatchEvent) (kind : Kind) (kv : KeyValue) (seq : Int64)
    → wants
        (record { ns = ns; key = key; ch = ch })
        (record { kind = kind; kv = clone_kv kv; revision = seq })
      ≡ match_kv ns key (record { seq = seq; kind = kind; kv = kv })
unfolding wants match_kv clone_kv
wants-match_kv ns key ch kind kv seq = ground (
  arith,
  text_comparable.agree_iff ns kv.namespace,
  text_comparable.agree_iff kv.namespace ns,
  text_comparable.agree_iff key kv.key,
  text_comparable.agree_iff kv.key key,
)

module _ (s s' : Store) (kind : Kind) (kv : KeyValue) (e : emit_kv s kind kv ≡ some s') where
  abbrev announced : WatchEvent
  announced = record { kind = kind; kv = clone_kv kv; revision = event_cursor kv.revision s.sub }

  watchers-emit_kv : s'.kv_watchers ≡ (fanout_kv announced s.kv_watchers).0
  unfolding emit_kv after_emit
  watchers-emit_kv = ground arith

  closed-emit_kv : s'.kv_closed ≡ s.kv_closed ++ (fanout_kv announced s.kv_watchers).1
  unfolding emit_kv after_emit
  closed-emit_kv = ground arith

  emit_kv-feeds :
      (id : Int64) (ns key : String) (ch : List WatchEvent)
      → IsUnique s.kv_watchers
      → Open s id ns key ch
      → Fed s' id ns key ch (emitted s kind kv ∷ [])
  unfolding delivered overflow matching clone_kv
  emit_kv-feeds id ns key ch u o =
      let w : KvWatcher = record { ns = ns; key = key; ch = ch } in
      let (left, shut) = find-fanout_kv-some announced s.kv_watchers id w u o.0 in
      let same = wants-match_kv ns key ch kind kv (event_cursor kv.revision s.sub) in
      let now_open : find id s'.kv_watchers ≡ delivered announced w =
        ap (find id) watchers-emit_kv ∙ left in
      let now_shut : find id s'.kv_closed ≡ overflow announced w =
        ap (find id) closed-emit_kv
        ∙ find-append id s.kv_closed (fanout_kv announced s.kv_watchers).1
        ∙ rw o.1 shut in
      elim (Bool-cases (wants w announced)) [
        | inr other ↦ inl (ground (arith, append-nil ch), ground arith)
        | inl mine ↦ elim (Bool-cases (ltb (length ch) watcher_buffer)) [
          | inl room ↦ inl (ground arith, ground arith)
          | inr full ↦ inr (
            [],
            matching ns key (emitted s kind kv ∷ []),
            refl,
            (ground arith, ground (arith, append-nil ch)),
          )
        ]
      ]

  emit_kv-stays : (id : Int64) (ch : List WatchEvent) → Shut s id ch → Shut s' id ch
  emit_kv-stays id ch h =
      let (left, shut) = find-fanout_kv-none announced s.kv_watchers id h.0 in
      (
        ap (find id) watchers-emit_kv ∙ left,
        ap (find id) closed-emit_kv
            ∙ find-append id s.kv_closed (fanout_kv announced s.kv_watchers).1
            ∙ rw h.1 refl,
      )

  emit_kv-IsAbsent : (id : Int64) → IsAbsent s id → IsAbsent s' id
  emit_kv-IsAbsent id h =
      let (left, shut) = find-fanout_kv-none announced s.kv_watchers id h.0 in
      (
        ap (find id) watchers-emit_kv ∙ left,
        ap (find id) closed-emit_kv
            ∙ find-append id s.kv_closed (fanout_kv announced s.kv_watchers).1
            ∙ rw h.1 shut,
      )

  watcher_seq-emit_kv : s'.watcher_seq ≡ s.watcher_seq
  unfolding emit_kv after_emit
  watcher_seq-emit_kv = ground arith

  pub emit_kv-Carries : Carries s (emitted s kind kv ∷ []) s'
  emit_kv-Carries = record {
    unique = λ u. rw watchers-emit_kv (IsUnique-fanout_kv announced s.kv_watchers u);
    feeds = emit_kv-feeds;
    stays = emit_kv-stays;
    absent = emit_kv-IsAbsent;
    seq = watcher_seq-emit_kv;
  }

-- A step that leaves the subscribers alone.
pub same-Carries :
    (s s' : Store)
    → s'.kv_watchers ≡ s.kv_watchers
    → s'.kv_closed ≡ s.kv_closed
    → s'.watcher_seq ≡ s.watcher_seq
    → Carries s [] s'
unfolding matching
same-Carries s s' a b c = record {
  unique = λ u. rw a u;
  feeds = λ id ns key ch u o. inl (
    ap (find id) a
        ∙ o.0
        ∙ ap (λ x. some (record { ns = ns; key = key; ch = x })) (sym (append-nil ch)),
    ap (find id) b ∙ o.1,
  );
  stays = λ id ch h. (ap (find id) a ∙ h.0, ap (find id) b ∙ h.1);
  absent = λ id h. (ap (find id) a ∙ h.0, ap (find id) b ∙ h.1);
  seq = c;
}

Fed-append :
    (s₁ s₂ : Store) (xs ys : List Event) (id : Int64) (ns key : String) (ch : List WatchEvent)
    → Carries s₁ ys s₂
    → IsUnique s₁.kv_watchers
    → Fed s₁ id ns key ch xs
    → Fed s₂ id ns key ch (xs ++ ys)
Fed-append s₁ s₂ xs ys id ns key ch c u (inr (got, rest, split, h)) = inr (
  got,
  rest ++ matching ns key ys,
  matching-append ns key xs ys ∙ ap (λ z. z ++ matching ns key ys) split ∙ append_assoc got rest _,
  c.stays id _ h,
)
Fed-append s₁ s₂ xs ys id ns key ch c u (inl o) =
    elim (c.feeds id ns key (ch ++ matching ns key xs) u o) [
      | inl o' ↦ inl (
          subst (λ z. Open s₂ id ns key z)
            (append_assoc ch _ _ ∙ ap (λ z. ch ++ z) (sym (matching-append ns key xs ys))) o')
      | inr (got, rest, split, h) ↦ inr (
        matching ns key xs ++ got,
        rest,
        matching-append ns key xs ys
            ∙ ap (λ z. matching ns key xs ++ z) split
            ∙ sym (append_assoc (matching ns key xs) got rest),
        subst (λ z. Shut s₂ id z) (append_assoc ch (matching ns key xs) got) h,
      )
    ]

pub append-Carries :
    (s s₁ s₂ : Store) (xs ys : List Event)
    → Carries s xs s₁
    → Carries s₁ ys s₂
    → Carries s (xs ++ ys) s₂
append-Carries s s₁ s₂ xs ys c d = record {
  unique = λ u. d.unique (c.unique u);
  feeds = λ id ns key ch u o.
      Fed-append s₁ s₂ xs ys id ns key ch d (c.unique u) (c.feeds id ns key ch u o);
  stays = λ id ch h. d.stays id ch (c.stays id ch h);
  absent = λ id h. d.absent id (c.absent id h);
  seq = d.seq ∙ c.seq;
}
