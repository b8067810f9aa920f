-- ===== src/Store/State.antt =====
-- The state of the store (store.go: kvEntry to New, aliveKV, Get; helpers.go: kvToPB to
-- GetInstance). `s.nowMs()` is an argument, the time that the call reads.
use repository.Base.{
  ℕ, ◌≡◌, ◌↔◌, Bool, true, ◌&&◌, ◌||◌, String, List, [], Option, none, some, Comparable, ◌==◌,
  if◌then◌else◌, arith, text_comparable, nat_comparable,
}
use repository.Base.Int64.{Int64}
use repository.Base.Int64
use repository.Base.Dict.{Dict, find, copy_into}
use repository.Proto.{KeyValue, Instance, WatchEvent}
use repository.Store.Ring.{Ring, empty_ring}

pub record KvEntry : Type 0 where
  pub value : List ℕ
  pub version : Int64
  pub revision : Int64
  pub ttl_ms : Int64
  pub expire_at_ms : Int64

pub record InstEntry : Type 0 where
  pub address : String
  pub metadata : Dict String String
  pub lease_ttl_ms : Int64
  pub expire_at_ms : Int64
  pub revision : Int64

pub record MapKey : Type 0 where
  pub ns : String
  pub key : String

pub record SvcKey : Type 0 where
  pub ns : String
  pub service : String
  pub id : String

abbrev pub map_key_beq : MapKey → MapKey → Bool
map_key_beq a b = a.ns == b.ns && a.key == b.key

pub map_key_beq_iff : (a b : MapKey) → (map_key_beq a b ≡ true) ↔ (a ≡ b)
map_key_beq_iff a b =
    ground (arith, text_comparable.agree_iff a.ns b.ns, text_comparable.agree_iff a.key b.key)

abbrev pub svc_key_beq : SvcKey → SvcKey → Bool
svc_key_beq a b = a.ns == b.ns && (a.service == b.service && a.id == b.id)

pub svc_key_beq_iff : (a b : SvcKey) → (svc_key_beq a b ≡ true) ↔ (a ≡ b)
svc_key_beq_iff a b = ground (
  arith,
  text_comparable.agree_iff a.ns b.ns,
  text_comparable.agree_iff a.service b.service,
  text_comparable.agree_iff a.id b.id,
)

instance abbrev pub map_key_comparable : Comparable MapKey
map_key_comparable = record { agree = map_key_beq; agree_iff = map_key_beq_iff }

instance abbrev pub svc_key_comparable : Comparable SvcKey
svc_key_comparable = record { agree = svc_key_beq; agree_iff = svc_key_beq_iff }

-- A subscriber and what waits in its channel. An empty `key` stands for the whole namespace.
pub record KvWatcher : Type 0 where
  pub ns : String
  pub key : String
  pub ch : List WatchEvent

pub record ServiceChange : Type 0 where
  pub added : List Instance
  pub removed : List Instance

pub record SvcWatcher : Type 0 where
  pub ns : String
  pub service : String
  pub ch : List ServiceChange

-- `kv_closed` and `svc_closed` are the channels that the store has closed, with what their readers
-- can still receive.
pub record Store : Type 0 where
  pub kvs : Dict MapKey KvEntry
  pub instances : Dict SvcKey InstEntry
  pub rev : Int64
  pub sub : ℕ
  pub ring : Ring
  pub baseline_seq : Int64
  pub kv_watchers : Dict Int64 KvWatcher
  pub svc_watchers : Dict Int64 SvcWatcher
  pub watcher_seq : Int64
  pub kv_closed : List (Int64 × List WatchEvent)
  pub svc_closed : List (Int64 × List ServiceChange)

abbrev pub new : Store
new = record {
  kvs = [];
  instances = [];
  rev = 0;
  sub = 0;
  ring = empty_ring;
  baseline_seq = 0;
  kv_watchers = [];
  svc_watchers = [];
  watcher_seq = 0;
  kv_closed = [];
  svc_closed = [];
}

-- errors.go, and ErrCASConflict and ErrInstanceNotFound as results of the state machine.
pub data StoreError : Type 0 where
  cas_conflict instance_not_found revision_compacted : StoreError

pub data Result {ℓ} (A : Type ℓ) : Type ℓ where
  ok : A → Result A
  err : StoreError → Result A

-- `aliveKV`, and `instAlive` on an instance's time.
abbrev pub alive_at : Int64 → Int64 → Bool
alive_at now expire_at = expire_at == 0 || Int64.lt now expire_at

unfoldable pub alive_kv : Int64 → KvEntry → Bool
alive_kv now e = alive_at now e.expire_at_ms

unfoldable pub inst_alive : Int64 → InstEntry → Bool
inst_alive now e = alive_at now e.expire_at_ms

-- `m[k]`, with an expired entry taken for none.
abbrev pub if_alive : Int64 → Option KvEntry → Option KvEntry
if_alive now none = none
if_alive now (some e) = if alive_kv now e then some e else none

-- `cloneMap`
unfoldable pub clone_map : Dict String String → Dict String String
clone_map m = copy_into [] m

unfoldable pub kv_to_pb : String → String → KvEntry → KeyValue
kv_to_pb ns key e = record {
  namespace = ns;
  key = key;
  value = e.value;
  version = e.version;
  revision = e.revision;
  ttl_ms = e.ttl_ms;
  expire_at_ms = e.expire_at_ms;
}

unfoldable pub inst_to_pb : String → String → String → InstEntry → Instance
inst_to_pb ns service id e = record {
  namespace = ns;
  service = service;
  instance_id = id;
  address = e.address;
  metadata = clone_map e.metadata;
  lease_ttl_ms = e.lease_ttl_ms;
  expire_at_ms = e.expire_at_ms;
  revision = e.revision;
}

-- `cloneKV` of a message that is there.
unfoldable pub clone_kv : KeyValue → KeyValue
clone_kv kv = record {
  namespace = kv.namespace;
  key = kv.key;
  value = kv.value;
  version = kv.version;
  revision = kv.revision;
  ttl_ms = kv.ttl_ms;
  expire_at_ms = kv.expire_at_ms;
}

unfoldable pub clone_instance : Instance → Instance
clone_instance inst = record {
  namespace = inst.namespace;
  service = inst.service;
  instance_id = inst.instance_id;
  address = inst.address;
  metadata = clone_map inst.metadata;
  lease_ttl_ms = inst.lease_ttl_ms;
  expire_at_ms = inst.expire_at_ms;
  revision = inst.revision;
}

unfoldable pub get : Int64 → Store → String → String → Option KeyValue
get now s namespace key = elim (if_alive now (find (record { ns = namespace; key = key }) s.kvs)) [
  | none ↦ none
  | some e ↦ some (kv_to_pb namespace key e)
]

unfoldable pub get_instance : Int64 → Store → String → String → String → Option Instance
get_instance now s namespace service id =
    elim (find (record { ns = namespace; service = service; id = id }) s.instances) [
      | none ↦ none
      | some e ↦ if inst_alive now e then some (inst_to_pb namespace service id e) else none
    ]
