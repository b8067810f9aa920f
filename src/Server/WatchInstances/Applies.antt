-- ===== src/Server/WatchInstances/Applies.antt =====
-- What one entry of the log does to the subscriber of a service (repl.go: applyOne; store.go).
use mathlib.Core.Path.{subst}
use repository.Base.{
  if_cases, eq_of_some-eq, ◌≡◌, refl, ap, sym, ◌∙◌, true, false, String, List, [], ◌∷◌, Option,
  none, some, arith, Option-cases, inl, inr, nat_comparable,
}
use repository.Base.Int64.{Int64}
use repository.Base.Dict.{find, store}
use repository.Proto.{
  Instance, Op, empty, put, delete, register, heartbeat, expire_keys, expire_services, ExpireKey,
  RegisterOp, HeartbeatOp, ExpireService,
}
use repository.Store.State.{
  Store, instance_not_found, Result, ok, err, InstEntry, SvcKey, ServiceChange, svc_key_comparable,
  map_key_comparable, inst_to_pb, clone_instance,
}
use repository.Store.Apply.{apply_put, apply_delete, apply_expire_keys, expire_items, begin_entry}
use repository.Store.Registry.{
  filter_instances, is_empty, fanout_svc, apply_register, apply_heartbeat, apply_expire_services,
  expire_instances, register_key, register_entry, heartbeat_key, extendable,
}
use repository.Repl.Applier.{Applied, nothing, of_put, of_delete, apply_op}
use repository.Server.WatchInstances.Changes.{
  Tells, delivered-Lists, instance_key, names, find-store_kept, find-store_key, names-one,
  expire_instances-Listed, find-fanout_watchers-some, find-fanout_watchers-none,
  IsUnique-fanout_watchers,
}
use repository.Server.WatchInstances.Aside.{
  Serves, Asides, Aside-Serves, apply_put-Aside, apply_delete-Aside, Asides-trans,
  expire_items-Asides,
}

-- A change of the map that is sent to the subscribers.
fanout_svc-Serves :
    (s s₁ : Store) (c : ServiceChange)
    → s₁.svc_watchers ≡ s.svc_watchers
    → s₁.watcher_seq ≡ s.watcher_seq
    → ((ns service : String) → Tells ns service s.instances c s₁.instances)
    → Serves s (fanout_svc s₁ c)
unfolding fanout_svc
fanout_svc-Serves s s₁ c same seq t = record {
  unique = λ u. IsUnique-fanout_watchers c s₁.svc_watchers (rw same u);
  seq = omega (arith, seq);
  lists = λ ns service view id w' u h e. elim (Option-cases (find id s₁.svc_watchers)) [
    | inl gone ↦ cc (find-fanout_watchers-none c s₁.svc_watchers id gone, e)
    | inr (w, there) ↦
        delivered-Lists ns service view s.instances s₁.instances c (t ns service) w w'
          (h w (ap (find id) (sym same) ∙ there))
          (sym (find-fanout_watchers-some c s₁.svc_watchers id w (rw same u) there) ∙ e)
  ];
}

-- A write that keeps every instance there, and is not sent.
stored-Serves :
    (s : Store) (index : Int64) (k : SvcKey) (e : InstEntry)
    → Serves s (record s { rev = index; instances = store k e s.instances })
stored-Serves s index k e = record {
  unique = λ u. u;
  seq = omega arith;
  lists = λ ns service view id w' u h there.
      let l = h w' there in
      record {
        of_ns = l.of_ns;
        of_service_name = l.of_service_name;
        registered = λ iid a.
            find-store_kept k (instance_key ns service iid) e s.instances (l.registered iid a);
      };
}

apply_register-Serves :
    (s : Store) (index : Int64) (op : RegisterOp) → Serves s (apply_register s index op).1
unfolding apply_register clone_instance inst_to_pb
apply_register-Serves s index op =
    elim (find (register_key op) s.instances)
      as (λ o.
        Serves s
          (elim o as (λ o. Instance × Store) [
            | none ↦ (
              inst_to_pb op.namespace op.service op.instance_id (register_entry index op),
              fanout_svc
                  (record s {
                    rev = index;
                    instances = store (register_key op) (register_entry index op) s.instances;
                  })
                  (record {
                    added =
                        clone_instance (
                          inst_to_pb op.namespace op.service op.instance_id
                            (register_entry index op))
                        ∷ [];
                    removed = [];
                  }),
            )
            | some old ↦ (
              inst_to_pb op.namespace op.service op.instance_id (register_entry index op),
              record s {
                rev = index;
                instances = store (register_key op) (register_entry index op) s.instances;
              },
            )
          ]).1) [
            | none ↦ fanout_svc-Serves s _ _ refl refl (λ ns service iid. (
              λ u there.
                  find-store_kept (register_key op) (instance_key ns service iid)
                    (register_entry index op) s.instances there,
              λ n.
                  find-store_key (register_key op) (instance_key ns service iid)
                    (register_entry index op) s.instances (names-one ns service iid _ n),
            ))
            | some old ↦ stored-Serves s index (register_key op) (register_entry index op)
          ]

apply_heartbeat-Serves :
    (now index : Int64) (s : Store) (op : HeartbeatOp) → Serves s (apply_heartbeat now s index op).1
unfolding apply_heartbeat
apply_heartbeat-Serves now index s op =
    elim (extendable now op (find (heartbeat_key op) s.instances))
      as (λ o.
        Serves s
          (elim o as (λ o. Result Instance × Store) [
            | none ↦ (err instance_not_found, record s { rev = index })
            | some e ↦ (
              ok (
                  inst_to_pb op.namespace op.service op.instance_id
                    (record e { expire_at_ms = op.new_expire_at_ms; revision = index })),
              record s {
                rev = index;
                instances =
                    store (heartbeat_key op)
                      (record e { expire_at_ms = op.new_expire_at_ms; revision = index })
                      s.instances;
              },
            )
          ]).1) [
            | none ↦ Aside-Serves s _ (record { instances = refl; watchers = refl; seq = refl })
            | some e ↦ stored-Serves s index (heartbeat_key op) _
          ]

filter-empty :
    (ns service iid : String) (xs : List Instance)
    → is_empty xs ≡ true
    → names iid (filter_instances ns service xs) ≡ false
unfolding filter_instances
filter-empty ns service iid [] h = refl
filter-empty ns service iid (x ∷ xs) h = cc

filter-nil : (ns service iid : String) → names iid (filter_instances ns service []) ≡ true → ⊥
unfolding filter_instances
filter-nil ns service iid h = cc

apply_expire_services-Serves :
    (s : Store) (index : Int64) (items : List ExpireService)
    → Serves s (apply_expire_services s index items)
unfolding apply_expire_services
apply_expire_services-Serves s index items =
    let left = (expire_instances index s.instances items).0 in
    let removed = (expire_instances index s.instances items).1 in
    if_cases (Serves s) (is_empty removed) (record s { rev = index; instances = left }) _
      (λ nothing_gone. record {
        unique = λ u. u;
        seq = omega arith;
        lists = λ ns service view id w' u h there.
            let l = h w' there in
            record {
              of_ns = l.of_ns;
              of_service_name = l.of_service_name;
              registered = λ iid a.
                  expire_instances-Listed ns service iid items index s.instances
                    (l.registered iid a) (filter-empty ns service iid removed nothing_gone);
            };
      })
      (λ some_gone.
        fanout_svc-Serves s (record s { rev = index; instances = left })
          (record { added = []; removed = removed }) refl refl
          (λ ns service iid. (
            λ u there. expire_instances-Listed ns service iid items index s.instances there u,
            λ n. absurd (filter-nil ns service iid n),
          )))

mapped-Serves {ℓ} :
    {X : Type ℓ} (s s' : Store) (f : X → Applied) (r : Applied) (o : Option (X × Store))
    → ((x : X) (s₁ : Store) → o ≡ some (x, s₁) → Serves s s₁)
    → (elim o as (λ o. Option (Applied × Store)) [ none ↦ none | some (x, s₁) ↦ some (f x, s₁) ])
      ≡ some (r, s')
    → Serves s s'
mapped-Serves s s' f r none h e = cc
mapped-Serves s s' f r (some (x, s₁)) h e =
    subst (Serves s) (ap (λ q. q.1) (eq_of_some-eq e)) (h x s₁ refl)

expired-Serves :
    (s s' : Store) (r : Applied) (o : Option Store)
    → Asides s o
    → (elim o as (λ o. Option (Applied × Store)) [ none ↦ none | some s₁ ↦ some (nothing, s₁) ])
      ≡ some (r, s')
    → Serves s s'
expired-Serves s s' r none a e = cc
expired-Serves s s' r (some s₁) a e =
    subst (Serves s) (ap (λ q. q.1) (eq_of_some-eq e)) (Aside-Serves s s₁ a)

apply_expire_keys-Asides :
    (index : Int64) (items : List ExpireKey) (s : Store)
    → Asides s (apply_expire_keys s index items)
unfolding apply_expire_keys
apply_expire_keys-Asides index items s =
    Asides-trans s (begin_entry s index) (expire_items index (begin_entry s index) items)
      (record { instances = refl; watchers = refl; seq = refl })
      (expire_items-Asides index items (begin_entry s index))

pub apply_op-Serves :
    (now index : Int64) (s s' : Store) (op : Op) (r : Applied)
    → apply_op now s index op ≡ some (r, s')
    → Serves s s'
unfolding apply_op
apply_op-Serves now index s s' empty r e =
    subst (Serves s) (ap (λ q. q.1) (eq_of_some-eq e))
      (Aside-Serves s s (record { instances = refl; watchers = refl; seq = refl }))
apply_op-Serves now index s s' (put op) r e =
    mapped-Serves s s' of_put r (apply_put now s index op)
      (λ x s₁ h. Aside-Serves s s₁ (apply_put-Aside now index s s₁ op x h)) e
apply_op-Serves now index s s' (delete op) r e =
    mapped-Serves s s' of_delete r (apply_delete now s index op)
      (λ x s₁ h. Aside-Serves s s₁ (apply_delete-Aside now index s s₁ op x h)) e
apply_op-Serves now index s s' (register op) r e =
    subst (Serves s) (ap (λ q. q.1) (eq_of_some-eq e)) (apply_register-Serves s index op)
apply_op-Serves now index s s' (heartbeat op) r e =
    subst (Serves s) (ap (λ q. q.1) (eq_of_some-eq e)) (apply_heartbeat-Serves now index s op)
apply_op-Serves now index s s' (expire_keys items) r e =
    expired-Serves s s' r (apply_expire_keys s index items) (apply_expire_keys-Asides index items s)
      e
apply_op-Serves now index s s' (expire_services items) r e =
    subst (Serves s) (ap (λ q. q.1) (eq_of_some-eq e)) (apply_expire_services-Serves s index items)
