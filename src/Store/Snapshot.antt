-- ===== src/Store/Snapshot.antt =====
-- Snapshots and the sweeper's scans (helpers.go: Snapshot to SnapshotFromProto).
pub mod Restore
use repository.Base.{
  ◌-◌, Bool, ◌&&◌, not, String, List, [], ◌∷◌, map, if◌then◌else◌, ◌==◌, nat_comparable,
}
use repository.Base.Int64.{Int64}
use repository.Base.Int64
use repository.Base.Dict.{Dict, store}
use repository.Proto.{KeyValue, Instance, PbSnapshot}
use repository.Store.Ring.{empty_ring}
use repository.Store.State.{
  Store, KvEntry, InstEntry, MapKey, SvcKey, kv_to_pb, inst_to_pb, clone_map, clone_kv,
  clone_instance, map_key_comparable, svc_key_comparable,
}
use repository.Store.Emit.{sub_limit}

pub record Snapshot : Type 0 where
  pub revision : Int64
  pub kvs : List KeyValue
  pub instances : List Instance

abbrev pub export_kv : MapKey × KvEntry → KeyValue
export_kv (k, e) = kv_to_pb k.ns k.key e

abbrev pub export_instance : SvcKey × InstEntry → Instance
export_instance (k, e) = inst_to_pb k.ns k.service k.id e

unfoldable pub export_snapshot : Store → Snapshot
export_snapshot s = record {
  revision = s.rev;
  kvs = map export_kv s.kvs;
  instances = map export_instance s.instances;
}

abbrev pub kv_key : KeyValue → MapKey
kv_key kv = record { ns = kv.namespace; key = kv.key }

abbrev pub kv_entry : KeyValue → KvEntry
kv_entry kv = record {
  value = kv.value;
  version = kv.version;
  revision = kv.revision;
  ttl_ms = kv.ttl_ms;
  expire_at_ms = kv.expire_at_ms;
}

abbrev pub inst_key : Instance → SvcKey
inst_key inst = record { ns = inst.namespace; service = inst.service; id = inst.instance_id }

abbrev pub inst_entry : Instance → InstEntry
inst_entry inst = record {
  address = inst.address;
  metadata = clone_map inst.metadata;
  lease_ttl_ms = inst.lease_ttl_ms;
  expire_at_ms = inst.expire_at_ms;
  revision = inst.revision;
}

-- `for _, kv := range snap.KVs { s.kvs[...] = ... }`
unfoldable pub load_kvs : Dict MapKey KvEntry → List KeyValue → Dict MapKey KvEntry
load_kvs m [] = m
load_kvs m (kv ∷ kvs) = load_kvs (store (kv_key kv) (kv_entry kv) m) kvs

unfoldable pub load_instances : Dict SvcKey InstEntry → List Instance → Dict SvcKey InstEntry
load_instances m [] = m
load_instances m (inst ∷ insts) = load_instances (store (inst_key inst) (inst_entry inst) m) insts

unfoldable pub restore_snapshot : Store → Snapshot → Store
restore_snapshot s snap = if Int64.lt snap.revision s.rev then s else record s {
  kvs = load_kvs [] snap.kvs;
  instances = load_instances [] snap.instances;
  rev = snap.revision;
  sub = 0;
  ring = empty_ring;
  baseline_seq = Int64.add (Int64.mul snap.revision sub_limit) (sub_limit - 1);
}

-- A record that the sweeper found, with the revision that guards its removal.
pub record ExpiredKv : Type 0 where
  pub namespace : String
  pub key : String
  pub guard_revision : Int64

pub record ExpiredInstance : Type 0 where
  pub namespace : String
  pub service : String
  pub instance_id : String
  pub guard_revision : Int64

abbrev pub past : Int64 → Int64 → Bool
past now expire_at = not (expire_at == 0) && Int64.le expire_at now

unfoldable pub scan_kvs : Int64 → Dict MapKey KvEntry → List ExpiredKv
scan_kvs now [] = []
scan_kvs now ((k, e) ∷ m) =
    let rest = scan_kvs now m in
    if past now e.expire_at_ms
    then record { namespace = k.ns; key = k.key; guard_revision = e.revision } ∷ rest
    else rest

unfoldable pub scan_expired_kvs : Int64 → Store → List ExpiredKv
unfolding scan_kvs
scan_expired_kvs now s = scan_kvs now s.kvs

unfoldable pub scan_instances : Int64 → Dict SvcKey InstEntry → List ExpiredInstance
scan_instances now [] = []
scan_instances now ((k, e) ∷ m) =
    let rest = scan_instances now m in
    if past now e.expire_at_ms
    then record {
      namespace = k.ns;
      service = k.service;
      instance_id = k.id;
      guard_revision = e.revision;
    }
      ∷ rest
    else rest

unfoldable pub scan_expired_instances : Int64 → Store → List ExpiredInstance
unfolding scan_instances
scan_expired_instances now s = scan_instances now s.instances

unfoldable pub snapshot_to_proto : Snapshot → PbSnapshot
snapshot_to_proto snap = record {
  last_included_index = snap.revision;
  term = 1;
  kvs = map clone_kv snap.kvs;
  instances = map clone_instance snap.instances;
}

unfoldable pub snapshot_from_proto : PbSnapshot → Snapshot
snapshot_from_proto p = record {
  revision = p.last_included_index;
  kvs = map clone_kv p.kvs;
  instances = map clone_instance p.instances;
}
