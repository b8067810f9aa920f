-- ===== src/Store/Registry/Leases.antt =====
-- A lease that is renewed outlives the batches scanned before it (store.go: ApplyHeartbeat,
-- ApplyExpireServices).
use mathlib.Core.Path.{subst}
use repository.Base.{
  ◌<◌, ◌≡◌, refl, ap, sym, ◌∙◌, List, [], ◌∷◌, some, All, arith, nat_comparable, Option-cases, inl,
  inr,
}
use repository.Base.Int64.{Int64}
use repository.Base.Dict.{Dict, find, erase, agree_refl, find-erase, find-store}
use repository.Proto.{Instance, HeartbeatOp, ExpireService}
use repository.Store.State.{Store, InstEntry, SvcKey, ok, svc_key_comparable}
use repository.Store.Registry.{
  apply_heartbeat, apply_expire_services, expire_instances, extendable, heartbeat_key, service_key,
  fanout_svc,
}

find-expire_instances :
    (index : Int64) (items : List ExpireService) (m : Dict SvcKey InstEntry) (k : SvcKey)
    (e : InstEntry)
    → find k m ≡ some e
    → All (λ item. item.guard_revision < e.revision) items
    → find k (expire_instances index m items).0 ≡ some e
unfolding expire_instances
find-expire_instances index [] m k e h older = h
find-expire_instances index (item ∷ items) m k e h older = ground (
  arith,
  svc_key_comparable.agree_iff (service_key item) k,
  find-erase (service_key item) k m,
  find-expire_instances index items m k e h older.1,
  find-expire_instances index items (erase (service_key item) m) k e,
)

instances-apply_expire_services :
    (s : Store) (index : Int64) (items : List ExpireService)
    → (apply_expire_services s index items).instances ≡ (expire_instances index s.instances items).0
unfolding apply_expire_services fanout_svc
instances-apply_expire_services s index items = ground arith

find-apply_heartbeat :
    (now : Int64) (s s' : Store) (index : Int64) (op : HeartbeatOp) (inst : Instance)
    → apply_heartbeat now s index op ≡ (ok inst, s')
    → (e : InstEntry) × (find (heartbeat_key op) s'.instances ≡ some e)
      × (e.revision ≡ index)
      × (e.expire_at_ms ≡ op.new_expire_at_ms)
unfolding apply_heartbeat
find-apply_heartbeat now s s' index op inst a =
    elim (Option-cases (extendable now op (find (heartbeat_key op) s.instances))) [
      | inl refused ↦ ground arith
      | inr (e, h) ↦ (
        record e { expire_at_ms = op.new_expire_at_ms; revision = index },
        ground (
          arith,
          find-store (heartbeat_key op) (heartbeat_key op)
              (record e { expire_at_ms = op.new_expire_at_ms; revision = index }) s.instances,
          agree_refl (heartbeat_key op),
        ),
        refl,
        refl,
      )
    ]

-- An instance whose lease a heartbeat has renewed stays, with the heartbeat's index and expiry, when a
-- batch is applied all of whose items name revisions before that index.
pub apply_heartbeat-apply_expire_services :
    (now : Int64) (s s' : Store) (index later : Int64) (op : HeartbeatOp) (inst : Instance)
    (items : List ExpireService)
    → apply_heartbeat now s index op ≡ (ok inst, s')
    → All (λ item. item.guard_revision < index) items
    → (e : InstEntry) × (find (heartbeat_key op) (apply_expire_services s' later items).instances
        ≡ some e)
      × (e.revision ≡ index)
      × (e.expire_at_ms ≡ op.new_expire_at_ms)
apply_heartbeat-apply_expire_services now s s' index later op inst items a older =
    let (e, there, at, until) = find-apply_heartbeat now s s' index op inst a in
    (
      e,
      ap (find (heartbeat_key op)) (instances-apply_expire_services s' later items)
          ∙ find-expire_instances later items s'.instances (heartbeat_key op) e there
              (subst (λ n. All (λ item. item.guard_revision < n) items) (sym at) older),
      at,
      until,
    )
