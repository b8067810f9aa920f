-- ===== src/Store/Registry.antt =====
-- Service instances (store.go: ApplyRegister, ApplyHeartbeat, ApplyExpireServices, discoverLocked,
-- WatchService, CloseServiceWatcher, fanoutSvcLocked, filterInstances).
pub mod Leases
use repository.Base.{
  ℕ, suc, ◌++◌, Bool, true, false, ◌&&◌, ◌||◌, not, String, List, [], ◌∷◌, Option, none, some,
  length, select, ltb, if◌then◌else◌, ◌==◌, text_comparable, nat_comparable,
}
use repository.Base.Int64.{Int64}
use repository.Base.Int64
use repository.Base.Dict.{Dict, find, store, erase}
use repository.Proto.{Instance, RegisterOp, HeartbeatOp, ExpireService}
use repository.Store.State.{
  Store, InstEntry, SvcKey, SvcWatcher, ServiceChange, instance_not_found, Result, ok, err,
  inst_alive, inst_to_pb, clone_map, clone_instance, svc_key_comparable,
}
use repository.Store.Emit.{watcher_buffer}

-- The test of `filterInstances`.
abbrev pub of_service : String → String → Instance → Bool
of_service ns service x = x.namespace == ns && x.service == service

unfoldable pub filter_instances : String → String → List Instance → List Instance
filter_instances ns service xs = select (of_service ns service) xs

abbrev pub is_empty {ℓ} : {A : Type ℓ} → List A → Bool
is_empty [] = true
is_empty (x ∷ xs) = false

-- What a subscriber is sent of a change.
abbrev pub seen_by : SvcWatcher → ServiceChange → ServiceChange
seen_by w c = record {
  added = filter_instances w.ns w.service c.added;
  removed = filter_instances w.ns w.service c.removed;
}

unfoldable pub fanout_watchers :
    ServiceChange
    → Dict Int64 SvcWatcher
    → Dict Int64 SvcWatcher × List (Int64 × List ServiceChange)
unfolding filter_instances
fanout_watchers c [] = ([], [])
fanout_watchers c ((id, w) ∷ ws) =
    let (kept, closed) = fanout_watchers c ws in
    let change = seen_by w c in
    if is_empty change.added && is_empty change.removed
    then ((id, w) ∷ kept, closed)
    else if ltb (length w.ch) watcher_buffer
    then ((id, record w { ch = w.ch ++ change ∷ [] }) ∷ kept, closed)
    else (kept, (id, w.ch) ∷ closed)

unfoldable pub fanout_svc : Store → ServiceChange → Store
unfolding fanout_watchers
fanout_svc s c =
    let (kept, closed) = fanout_watchers c s.svc_watchers in
    record s { svc_watchers = kept; svc_closed = s.svc_closed ++ closed }

abbrev pub register_key : RegisterOp → SvcKey
register_key op = record { ns = op.namespace; service = op.service; id = op.instance_id }

abbrev pub register_entry : Int64 → RegisterOp → InstEntry
register_entry index op = record {
  address = op.address;
  metadata = clone_map op.metadata;
  lease_ttl_ms = op.lease_ttl_ms;
  expire_at_ms = op.expire_at_ms;
  revision = index;
}

unfoldable pub apply_register : Store → Int64 → RegisterOp → Instance × Store
apply_register s index op =
    let e = register_entry index op in
    let inst = inst_to_pb op.namespace op.service op.instance_id e in
    let s' : Store = record s { rev = index; instances = store (register_key op) e s.instances } in
    elim (find (register_key op) s.instances) [
      | none ↦ (inst, fanout_svc s' (record { added = clone_instance inst ∷ []; removed = [] }))
      | some old ↦ (inst, s')
    ]

abbrev pub heartbeat_key : HeartbeatOp → SvcKey
heartbeat_key op = record { ns = op.namespace; service = op.service; id = op.instance_id }

-- The instance that a heartbeat extends.
unfoldable pub extendable : Int64 → HeartbeatOp → Option InstEntry → Option InstEntry
extendable now op none = none
extendable now op (some e) =
    if not (op.guard_revision == 0) && not (e.revision == op.guard_revision)
      || not (inst_alive now e)
    then none
    else some e

unfoldable pub apply_heartbeat : Int64 → Store → Int64 → HeartbeatOp → Result Instance × Store
unfolding extendable
apply_heartbeat now s index op = elim (extendable now op (find (heartbeat_key op) s.instances)) [
  | none ↦ (err instance_not_found, record s { rev = index })
  | some e ↦
      let e' : InstEntry = record e { expire_at_ms = op.new_expire_at_ms; revision = index } in
      (
        ok (inst_to_pb op.namespace op.service op.instance_id e'),
        record s { rev = index; instances = store (heartbeat_key op) e' s.instances },
      )
]

abbrev pub service_key : ExpireService → SvcKey
service_key item = record { ns = item.namespace; service = item.service; id = item.instance_id }

abbrev pub guarded_inst : Int64 → Option InstEntry → Option InstEntry
guarded_inst revision none = none
guarded_inst revision (some e) = if e.revision == revision then some e else none

-- The loop of `ApplyExpireServices`: what is left of the map, and the instances removed.
unfoldable pub expire_instances :
    Int64 → Dict SvcKey InstEntry → List ExpireService → Dict SvcKey InstEntry × List Instance
expire_instances index m [] = (m, [])
expire_instances index m (item ∷ items) =
    elim (guarded_inst item.guard_revision (find (service_key item) m)) [
      | none ↦ expire_instances index m items
      | some e ↦
          let (m', removed) = expire_instances index (erase (service_key item) m) items in
          let inst : Instance = record (inst_to_pb item.namespace item.service item.instance_id e) {
            revision = index;
          } in
          (m', inst ∷ removed)
    ]

unfoldable pub apply_expire_services : Store → Int64 → List ExpireService → Store
unfolding expire_instances
apply_expire_services s index items =
    let (left, removed) = expire_instances index s.instances items in
    let s' : Store = record s { rev = index; instances = left } in
    if is_empty removed then s' else fanout_svc s' (record { added = []; removed = removed })

-- The loop of `discoverLocked`. The clock is read anew for each instance of the service: `clock i`
-- is what its i-th reading gives.
unfoldable pub discover_from :
    (ℕ → Int64) → ℕ → String → String → Dict SvcKey InstEntry → List Instance
discover_from clock i ns service [] = []
discover_from clock i ns service ((k, e) ∷ m) =
    let mine = k.ns == ns && k.service == service in
    let rest = discover_from clock (if mine then suc i else i) ns service m in
    if mine && inst_alive (clock i) e then inst_to_pb k.ns k.service k.id e ∷ rest else rest

unfoldable pub discover : (ℕ → Int64) → Store → String → String → List Instance
unfolding discover_from
discover clock s ns service = discover_from clock 0 ns service s.instances

unfoldable pub watch_service :
    (ℕ → Int64) → Store → String → String → (Int64 × List Instance) × Store
unfolding discover
watch_service clock s ns service =
    let id = Int64.add s.watcher_seq 1 in
    (
      (id, discover clock s ns service),
      record s {
        watcher_seq = id;
        svc_watchers = store id (record { ns = ns; service = service; ch = [] }) s.svc_watchers;
      },
    )

unfoldable pub close_service_watcher : Store → Int64 → Store
close_service_watcher s id = elim (find id s.svc_watchers) [
  | none ↦ s
  | some w ↦ record s {
    svc_watchers = erase id s.svc_watchers;
    svc_closed = s.svc_closed ++ (id, w.ch) ∷ [];
  }
]
