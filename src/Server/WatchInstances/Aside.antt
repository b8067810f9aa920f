-- ===== src/Server/WatchInstances/Aside.antt =====
-- Entries of the log that leave the instances and the watches of services alone (store.go: ApplyPut,
-- ApplyDelete, ApplyExpireKeys).
use mathlib.Core.Path.{subst}
use repository.Base.{
  if_either, leb, ◌+◌, ◌≤◌, ◌≡◌, refl, ap, sym, ◌∙◌, Bool, String, List, [], ◌∷◌, Option, none,
  some, arith, nat_comparable,
}
use repository.Base.Int64.{Int64}
use repository.Base.Dict.{find, IsUnique}
use repository.Proto.{KeyValue, PutOp, DeleteOp, ExpireKey}
use repository.Store.State.{
  Store, Result, KvEntry, SvcWatcher, svc_key_comparable, map_key_comparable,
}
use repository.Store.Emit.{emit_kv, after_emit, sub_limit}
use repository.Store.Apply.{
  apply_put, apply_delete, expire_items, expire_one, write_entry, remove_entry, guarded, expire_key,
}
use repository.Server.WatchInstances.Changes.{Lists}

-- What a step does to the subscribers of services and to the map that they watch.
pub record Serves (s s' : Store) : Type 0 where
  pub unique : IsUnique s.svc_watchers → IsUnique s'.svc_watchers
  pub seq : s.watcher_seq ≤ s'.watcher_seq
  pub lists :
      (ns service : String) (view : String → Bool) (id : Int64) (w' : SvcWatcher)
      → IsUnique s.svc_watchers
      → ((w : SvcWatcher) → find id s.svc_watchers ≡ some w → Lists ns service view s.instances w)
      → find id s'.svc_watchers ≡ some w'
      → Lists ns service view s'.instances w'

pub record Aside (s s' : Store) : Type 0 where
  pub instances : s'.instances ≡ s.instances
  pub watchers : s'.svc_watchers ≡ s.svc_watchers
  pub seq : s'.watcher_seq ≡ s.watcher_seq

pub Aside-Serves : (s s' : Store) → Aside s s' → Serves s s'
Aside-Serves s s' a = record {
  unique = λ u. rw a.watchers u;
  seq = omega (arith, a.seq);
  lists = λ ns service view id w' u h e.
      subst (λ m. Lists ns service view m w') (sym a.instances)
        (h w' (ap (find id) (sym a.watchers) ∙ e));
}

pub apply_put-Aside :
    (now index : Int64) (s s' : Store) (op : PutOp) (r : Result KeyValue)
    → apply_put now s index op ≡ some (r, s')
    → Aside s s'
unfolding apply_put write_entry emit_kv after_emit
apply_put-Aside now index s s' op r e = ground arith

pub apply_delete-Aside :
    (now index : Int64) (s s' : Store) (op : DeleteOp) (r : Result Bool)
    → apply_delete now s index op ≡ some (r, s')
    → Aside s s'
unfolding apply_delete remove_entry emit_kv after_emit
apply_delete-Aside now index s s' op r e = ground arith

Aside-trans : (s s₁ s₂ : Store) → Aside s s₁ → Aside s₁ s₂ → Aside s s₂
Aside-trans s s₁ s₂ a b = record {
  instances = b.instances ∙ a.instances;
  watchers = b.watchers ∙ a.watchers;
  seq = b.seq ∙ a.seq;
}

abbrev pub Asides : Store → Option Store → Type 0
Asides s none = Unit
Asides s (some s') = Aside s s'

pub Asides-trans : (s s₁ : Store) (o : Option Store) → Aside s s₁ → Asides s₁ o → Asides s o
Asides-trans s s₁ none a b = tt
Asides-trans s s₁ (some s₂) a b = Aside-trans s s₁ s₂ a b

expire_one-Asides :
    (index : Int64) (s : Store) (item : ExpireKey) (cur : KvEntry)
    → Asides s (expire_one index s item cur)
unfolding emit_kv after_emit
expire_one-Asides index s item cur =
    if_either (Asides s) (leb sub_limit (s.sub + 1)) none _ tt
      (record { instances = refl; watchers = refl; seq = refl })

pub expire_items-Asides :
    (index : Int64) (items : List ExpireKey) (s : Store) → Asides s (expire_items index s items)
unfolding expire_items
expire_items-Asides index [] s = record { instances = refl; watchers = refl; seq = refl }
expire_items-Asides index (item ∷ items) s =
    elim (guarded item.guard_revision (find (expire_key item) s.kvs))
      as (λ o. Asides s (elim o as (λ o. Option Store) [
        | none ↦ expire_items index s items
        | some cur ↦ elim (expire_one index s item cur) as (λ o. Option Store) [
          | none ↦ none
          | some s₁ ↦ expire_items index s₁ items
        ]
      ])) [
        | none ↦ expire_items-Asides index items s
        | some cur ↦
            elim (expire_one index s item cur)
                as (λ o.
                  Asides s o
                  → Asides s (elim o as (λ o. Option Store) [
                    | none ↦ none
                    | some s₁ ↦ expire_items index s₁ items
                  ])) [
                    | none ↦ (λ a. tt)
                    | some s₁ ↦ (λ a.
                        Asides-trans s s₁ (expire_items index s₁ items) a
                          (expire_items-Asides index items s₁))
                  ]
              (expire_one-Asides index s item cur)
      ]
