-- ===== src/Store/Apply/Expiry.antt =====
-- Batched expiry: which keys go, and when the batch is too large (store.go: ApplyExpireKeys,
-- emitKVLocked).
use repository.Base.{
  ℕ, suc, ◌+◌, ◌≤◌, ◌<◌, ◌≡◌, ◌↔◌, ◌⊎◌, inl, inr, refl, ap, sym, ◌∙◌, Bool, false, List, [], ◌∷◌,
  Option, none, some, length, arith, if◌then◌else◌, leb, ◌==◌, ◌&&◌, ◌||◌, nat_comparable,
  Option-cases, Bool-cases, eq_of_some-eq,
}
use repository.Base.Int64.{Int64}
use repository.Base.Dict.{Dict, find, erase, find-erase}
use repository.Proto.{Kind, ExpireKey}
use repository.Store.State.{Store, KvEntry, MapKey, map_key_comparable}
use repository.Store.Emit.{emit_kv, after_emit, sub_limit}
use repository.Store.Apply.{
  expire_items, apply_expire_keys, guarded, expire_key, expire_one, expire_record, begin_entry,
}
use repository.Store.Log.Emit.{emit_kv-Emits}
use repository.Store.Log.Changes.{expire_changes}
use repository.Store.Log.Entries.{
  expire_items-nil, expire_changes-nil, expire_items-miss, expire_changes-miss, expire_items-fault,
  expire_items-hit, expire_changes-hit,
}

-- One removal: it fails exactly at the limit, and otherwise uses one more offset.
pub expire_one-cases :
    (index : Int64) (s : Store) (item : ExpireKey) (cur : KvEntry)
    → ((4096 ≤ s.sub + 1) × (expire_one index s item cur ≡ none))
      ⊎ ((s.sub + 1 < 4096)
          × (s' : Store) × (expire_one index s item cur ≡ some s')
          × (s'.sub ≡ s.sub + 1)
          × (s'.kvs ≡ erase (expire_key item) s.kvs))
unfolding emit_kv after_emit
expire_one-cases index s item cur = elim (Bool-cases (leb sub_limit (s.sub + 1))) [
  | inl full ↦ inl (ground arith, ground arith)
  | inr room ↦ inr (
    ground arith,
    after_emit (record s { kvs = erase (expire_key item) s.kvs }) Kind.expired
        (expire_record index item cur),
    ground arith,
    ground arith,
    ground arith,
  )
]

-- The offsets that a batch needs.
abbrev pub used : Int64 → Store → List ExpireKey → ℕ
used index s items = s.sub + length (expire_changes index s.kvs items)

-- What is left of the batch decides between a result and the panic.
expire_items-cases :
    (index : Int64) (items : List ExpireKey) (s : Store)
    → s.sub < 4096
    → ((4096 ≤ used index s items) × (expire_items index s items ≡ none))
      ⊎ ((used index s items < 4096) × (s' : Store) × (expire_items index s items ≡ some s'))
expire_items-cases index [] s room =
    inr (omega (arith, ap length (expire_changes-nil index s.kvs)), s, expire_items-nil index s)
expire_items-cases index (item ∷ items) s room =
    elim (Option-cases (guarded item.guard_revision (find (expire_key item) s.kvs))) [
      | inl miss ↦
          rw
            (expire_items-miss index item items s miss, expire_changes-miss index item items s miss)
            (expire_items-cases index items s room)
      | inr (cur, hit) ↦
          rw (expire_changes-hit index item items s cur hit)
            (elim (expire_one-cases index s item cur) [
              | inl (full, fault) ↦
                  inl (omega arith, expire_items-fault index item items s cur hit fault)
              | inr (more, s₁, step, next, same) ↦
                  rw (expire_items-hit index item items s cur hit s₁ step)
                    (elim (expire_items-cases index items s₁ (omega (arith, next))) [
                      | inl (full, fault) ↦ inl (omega (arith, full, shift s₁ next same), fault)
                      | inr (rest, s', e) ↦ inr (omega (arith, rest, shift s₁ next same), s', e)
                    ])
            ])
    ]
  where
    shift :
        (s₁ : Store)
        → s₁.sub ≡ s.sub + 1
        → s₁.kvs ≡ erase (expire_key item) s.kvs
        → used index s₁ items
          ≡ s.sub + suc (length (expire_changes index (erase (expire_key item) s.kvs) items))
    shift s₁ next same = omega (arith, next, ap (λ m. length (expire_changes index m items)) same)

-- A batch brings the node down exactly if 4096 or more of its keys are still to be removed: the
-- limit allows one event fewer than there are offsets.
pub apply_expire_keys_fault_iff :
    (s : Store) (index : Int64) (items : List ExpireKey)
    → (apply_expire_keys s index items ≡ none) ↔ (4096 ≤ length (expire_changes index s.kvs items))
unfolding apply_expire_keys
apply_expire_keys_fault_iff s index items =
    elim (expire_items-cases index items (begin_entry s index) (omega arith)) [
      | inl (full, fault) ↦ (λ _. omega (arith, full), λ _. fault)
      | inr (rest, s', e) ↦ (λ fault. cc, λ full. absurd (omega (arith, rest, full)))
    ]

-- The guards that hit an entry.
abbrev pub doomed : List ExpireKey → MapKey → KvEntry → Bool
doomed [] k cur = false
doomed (item ∷ items) k cur =
    expire_key item == k && cur.revision == item.guard_revision || doomed items k cur

abbrev pub survivor : List ExpireKey → MapKey → Option KvEntry → Option KvEntry
survivor items k none = none
survivor items k (some cur) = if doomed items k cur then none else some cur

expire_step : Dict MapKey KvEntry → ExpireKey → Dict MapKey KvEntry
expire_step m item = elim (guarded item.guard_revision (find (expire_key item) m)) [
  | none ↦ m
  | some cur ↦ erase (expire_key item) m
]

find-expire_step :
    (m : Dict MapKey KvEntry) (item : ExpireKey) (j : MapKey)
    → find j (expire_step m item) ≡ survivor (item ∷ []) j (find j m)
unfolding expire_step
find-expire_step m item j =
    ground
      (arith, find-erase (expire_key item) j m, map_key_comparable.agree_iff (expire_key item) j)

survivor-cons :
    (item : ExpireKey) (items : List ExpireKey) (j : MapKey) (o : Option KvEntry)
    → survivor items j (survivor (item ∷ []) j o) ≡ survivor (item ∷ items) j o
survivor-cons item items j none = refl
survivor-cons item items j (some cur) = ground arith

expire_step-miss :
    (m : Dict MapKey KvEntry) (item : ExpireKey)
    → guarded item.guard_revision (find (expire_key item) m) ≡ none
    → expire_step m item ≡ m
unfolding expire_step
expire_step-miss m item miss = rw (miss, expire_step)

expire_step-hit :
    (m : Dict MapKey KvEntry) (item : ExpireKey) (cur : KvEntry)
    → guarded item.guard_revision (find (expire_key item) m) ≡ some cur
    → expire_step m item ≡ erase (expire_key item) m
unfolding expire_step
expire_step-hit m item cur hit = rw (hit, expire_step)

-- The recursion step of the theorem below.
find-after_step :
    (item : ExpireKey) (items : List ExpireKey) (s s₁ s' : Store) (j : MapKey)
    → s₁.kvs ≡ expire_step s.kvs item
    → find j s'.kvs ≡ survivor items j (find j s₁.kvs)
    → find j s'.kvs ≡ survivor (item ∷ items) j (find j s.kvs)
find-after_step item items s s₁ s' j same ih =
    ih
    ∙ ap (survivor items j) (ap (find j) same ∙ find-expire_step s.kvs item j)
    ∙ survivor-cons item items j (find j s.kvs)

find-expire_items :
    (index : Int64) (items : List ExpireKey) (s s' : Store) (j : MapKey)
    → expire_items index s items ≡ some s'
    → find j s'.kvs ≡ survivor items j (find j s.kvs)
find-expire_items index [] s s' j e =
    let same : s ≡ s' = eq_of_some-eq (sym (expire_items-nil index s) ∙ e) in
    elim (Option-cases (find j s.kvs)) [ inl h ↦ ground arith | inr (x, h) ↦ ground arith ]
find-expire_items index (item ∷ items) s s' j e =
    elim (Option-cases (guarded item.guard_revision (find (expire_key item) s.kvs))) [
      | inl miss ↦ find-after_step item items s s s' j (sym (expire_step-miss s.kvs item miss)) (
          find-expire_items index items s s' j
            (sym (expire_items-miss index item items s miss) ∙ e))
      | inr (cur, hit) ↦ elim (expire_one-cases index s item cur) [
        | inl (full, fault) ↦ cc (expire_items-fault index item items s cur hit fault)
        | inr (more, s₁, step, next, same) ↦
            find-after_step item items s s₁ s' j (same ∙ sym (expire_step-hit s.kvs item cur hit)) (
              find-expire_items index items s₁ s' j
                (sym (expire_items-hit index item items s cur hit s₁ step) ∙ e))
      ]
    ]

-- The loop leaves the applied index alone.
pub rev-expire_items :
    (index : Int64) (items : List ExpireKey) (s s' : Store)
    → expire_items index s items ≡ some s'
    → s'.rev ≡ s.rev
rev-expire_items index [] s s' e =
    let same : s ≡ s' = eq_of_some-eq (sym (expire_items-nil index s) ∙ e) in ground arith
rev-expire_items index (item ∷ items) s s' e =
    elim (Option-cases (guarded item.guard_revision (find (expire_key item) s.kvs))) [
      | inl miss ↦
          rev-expire_items index items s s' (sym (expire_items-miss index item items s miss) ∙ e)
      | inr (cur, hit) ↦ elim (Option-cases (expire_one index s item cur)) [
        | inl fault ↦ cc (expire_items-fault index item items s cur hit fault)
        | inr (s₁, step) ↦
            rev-expire_items index items s₁ s'
              (sym (expire_items-hit index item items s cur hit s₁ step) ∙ e)
            ∙ (emit_kv-Emits (record s { kvs = erase (expire_key item) s.kvs }) s₁ Kind.expired
                (expire_record index item cur) step).rev
      ]
    ]

-- A batch removes a key exactly if an item names it with the revision that it has at that time, so an
-- entry written since the sweeper's scan stays; no other key changes.
pub apply_expire_keys_guard :
    (s s' : Store) (index : Int64) (items : List ExpireKey) (j : MapKey)
    → apply_expire_keys s index items ≡ some s'
    → find j s'.kvs ≡ survivor items j (find j s.kvs)
unfolding apply_expire_keys
apply_expire_keys_guard s s' index items j e =
    find-expire_items index items (begin_entry s index) s' j e
