-- ===== src/Store/Log/Entries.antt =====
-- Each log entry on keys extends the history by exactly its changes (store.go: ApplyPut,
-- ApplyDelete, ApplyExpireKeys).
use mathlib.Core.List.{append-nil, append_assoc}
use mathlib.Core.Path.{subst}
use repository.Base.{
  ◌+◌, ◌*◌, ◌^◌, ◌<◌, ◌≡◌, refl, sym, ◌∙◌, List, [], ◌∷◌, ◌++◌, none, some, arith, Option-cases,
  inl, inr, eq_of_some-eq,
}
use repository.Base.Int64.{Int64}
use repository.Base.Dict.{Dict, find, erase}
use repository.Proto.{Kind, KeyValue, ExpireKey}
use repository.Store.Ring.{Event}
use repository.Store.State.{Store, KvEntry, map_key_comparable, MapKey}
use repository.Store.Emit.{emit_kv}
use repository.Store.Apply.{
  expire_items, guarded, expire_key, expire_one, expire_record, begin_entry,
}
use repository.Store.Log.{Tracks, IsTracked}
use repository.Store.Log.Emit.{emitted, Emits, emit_kv-Emits, Tracks-Emits, Tracks-transfer}
use repository.Store.Log.Changes.{stamp, expire_changes}

-- While entry `index` is applied.
pub record During (index : Int64) (s : Store) (log : List Event) : Type 0 where
  pub rev : s.rev ≡ index
  pub room : s.sub < 4096
  pub tracks : Tracks (index * 4096 + s.sub) s log

module _ (index : Int64) (s : Store) (log : List Event) where
  pub During-begin : s.rev < index → IsTracked s log → During index (begin_entry s index) log
  During-begin later t = record {
    rev = refl;
    room = omega arith;
    tracks = Tracks-transfer s (begin_entry s index) log _ _ refl refl (omega arith) t;
  }

  pub IsTracked-During : During index s log → IsTracked s log
  IsTracked-During d = Tracks-transfer s s log _ _ refl refl (omega (arith, d.rev, d.room)) d.tracks

  pub During-kvs :
      (m : Dict MapKey KvEntry) → During index s log → During index (record s { kvs = m }) log
  During-kvs m d = record {
    rev = d.rev;
    room = d.room;
    tracks = Tracks-transfer s (record s { kvs = m }) log _ _ refl refl (omega arith) d.tracks;
  }

  pub During-emit :
      (s' : Store) (kind : Kind) (kv : KeyValue)
      → index < 2 ^ 50
      → kv.revision ≡ index
      → During index s log
      → emit_kv s kind kv ≡ some s'
      → During index s' (log ++ emitted s kind kv ∷ [])
  During-emit s' kind kv small rev d e = record {
    rev = em.rev ∙ d.rev;
    room = em.room;
    tracks = Tracks-transfer s' s' _ _ _ refl refl (omega (arith, em.rev, d.rev)) (
        Tracks-Emits s s' (emitted s kind kv) log (omega (arith, rev, d.rev, d.room))
          (Tracks-transfer s s log _ _ refl refl (omega (arith, d.rev)) d.tracks) em);
  }
    where
      em : Emits s (emitted s kind kv) s'
      em = emit_kv-Emits s s' kind kv e

module _ (index : Int64) (item : ExpireKey) (items : List ExpireKey) (s : Store) where
  module _ (miss : guarded item.guard_revision (find (expire_key item) s.kvs) ≡ none) where
    pub expire_items-miss : expire_items index s (item ∷ items) ≡ expire_items index s items
    unfolding expire_items
    expire_items-miss = rw (miss, expire_items)

    pub expire_changes-miss :
        expire_changes index s.kvs (item ∷ items) ≡ expire_changes index s.kvs items
    unfolding expire_changes
    expire_changes-miss = rw (miss, expire_changes)

  module _ (cur : KvEntry)
      (hit : guarded item.guard_revision (find (expire_key item) s.kvs) ≡ some cur) where
    pub expire_items-fault :
        expire_one index s item cur ≡ none → expire_items index s (item ∷ items) ≡ none
    unfolding expire_items
    expire_items-fault fault = rw (hit, fault, expire_items)

    pub expire_items-hit :
        (s₁ : Store)
        → expire_one index s item cur ≡ some s₁
        → expire_items index s (item ∷ items) ≡ expire_items index s₁ items
    unfolding expire_items
    expire_items-hit s₁ step = rw (hit, step, expire_items)

    pub expire_changes-hit :
        expire_changes index s.kvs (item ∷ items)
        ≡ (Kind.expired, expire_record index item cur)
          ∷ expire_changes index (erase (expire_key item) s.kvs) items
    unfolding expire_changes
    expire_changes-hit = rw (hit, expire_changes)

pub expire_items-nil : (index : Int64) (s : Store) → expire_items index s [] ≡ some s
unfolding expire_items
expire_items-nil index s = refl

pub expire_changes-nil : (index : Int64) (m : Dict MapKey KvEntry) → expire_changes index m [] ≡ []
unfolding expire_changes
expire_changes-nil index m = refl

expire_one-During :
    (index : Int64) (item : ExpireKey) (s s' : Store) (log : List Event) (cur : KvEntry)
    → index < 2 ^ 50
    → During index s log
    → expire_one index s item cur ≡ some s'
    → (s'.kvs ≡ erase (expire_key item) s.kvs)
      × (s'.sub ≡ s.sub + 1)
      × During index s'
          (log ++ stamp index s.sub ((Kind.expired, expire_record index item cur) ∷ []))
expire_one-During index item s s' log cur small d e =
    let s₀ : Store = record s { kvs = erase (expire_key item) s.kvs } in
    let em = emit_kv-Emits s₀ s' Kind.expired (expire_record index item cur) e in
    (
      em.kvs,
      em.sub,
      During-emit index s₀ log s' Kind.expired (expire_record index item cur) small refl
          (During-kvs index s log (erase (expire_key item) s.kvs) d) e,
    )

-- The loop: the items whose guard holds are removed, and their events get consecutive cursors.
pub expire_items-During :
    (index : Int64) (items : List ExpireKey) (s s' : Store) (log : List Event)
    → index < 2 ^ 50
    → During index s log
    → expire_items index s items ≡ some s'
    → During index s' (log ++ stamp index s.sub (expire_changes index s.kvs items))
expire_items-During index [] s s' log small d e =
    rw (expire_changes-nil index s.kvs, append-nil)
      (subst (λ t. During index t log) (eq_of_some-eq (sym (expire_items-nil index s) ∙ e)) d)
expire_items-During index (item ∷ items) s s' log small d e =
    elim (Option-cases (guarded item.guard_revision (find (expire_key item) s.kvs))) [
      | inl miss ↦ rw (expire_changes-miss index item items s miss) (
          expire_items-During index items s s' log small d
            (sym (expire_items-miss index item items s miss) ∙ e))
      | inr (cur, hit) ↦ elim (Option-cases (expire_one index s item cur)) [
        | inl fault ↦ cc (expire_items-fault index item items s cur hit fault)
        | inr (s₁, step) ↦
            let (same_kvs, next_sub, d₁) = expire_one-During index item s s₁ log cur small d step in
            let rest =
              expire_items-During index items s₁ s' _ small d₁
                (sym (expire_items-hit index item items s cur hit s₁ step) ∙ e) in
            rw (expire_changes-hit index item items s cur hit)
              (simp (same_kvs, next_sub, append_assoc) at rest)
      ]
    ]
