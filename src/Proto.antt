-- ===== src/Proto.antt =====
-- api/distconf/v1: the messages of the services and of the replication log, as plain records. An
-- int64 is its 64-bit pattern (Base.Int64); bytes are a list of numbers. Pointers to messages are
-- the messages themselves, where the code never leaves them nil.
use repository.Base.{ℕ, String, List, Bool}
use repository.Base.Int64.{Int64}
use repository.Base.Dict.{Dict}

pub data Kind : Type 0 where
  kind_unspecified put delete expired : Kind

pub record KeyValue : Type 0 where
  pub namespace : String
  pub key : String
  pub value : List ℕ
  pub version : Int64
  pub revision : Int64
  pub ttl_ms : Int64
  pub expire_at_ms : Int64

pub record WatchEvent : Type 0 where
  pub kind : Kind
  pub kv : KeyValue
  pub revision : Int64

pub record Instance : Type 0 where
  pub namespace : String
  pub service : String
  pub instance_id : String
  pub address : String
  pub metadata : Dict String String
  pub lease_ttl_ms : Int64
  pub expire_at_ms : Int64
  pub revision : Int64

pub record PutOp : Type 0 where
  pub namespace : String
  pub key : String
  pub value : List ℕ
  pub ttl_ms : Int64
  pub expire_at_ms : Int64
  pub expected_version : Int64

pub record DeleteOp : Type 0 where
  pub namespace : String
  pub key : String
  pub expected_version : Int64

pub record RegisterOp : Type 0 where
  pub namespace : String
  pub service : String
  pub instance_id : String
  pub address : String
  pub metadata : Dict String String
  pub lease_ttl_ms : Int64
  pub expire_at_ms : Int64

pub record HeartbeatOp : Type 0 where
  pub namespace : String
  pub service : String
  pub instance_id : String
  pub guard_revision : Int64
  pub new_expire_at_ms : Int64

pub record ExpireKey : Type 0 where
  pub namespace : String
  pub key : String
  pub guard_revision : Int64

pub record ExpireService : Type 0 where
  pub namespace : String
  pub service : String
  pub instance_id : String
  pub guard_revision : Int64

-- The oneof of a log entry. An entry whose oneof is not set is `empty`.
pub data Op : Type 0 where
  empty : Op
  put : PutOp → Op
  delete : DeleteOp → Op
  register : RegisterOp → Op
  heartbeat : HeartbeatOp → Op
  expire_keys : List ExpireKey → Op
  expire_services : List ExpireService → Op

pub record LogEntry : Type 0 where
  pub index : Int64
  pub term : Int64
  pub op : Op

-- The records inside a snapshot message hold one value each.
pub record PbSnapshot : Type 0 where
  pub last_included_index : Int64
  pub term : Int64
  pub kvs : List KeyValue
  pub instances : List Instance

pub data Payload : Type 0 where
  unset : Payload
  snapshot : PbSnapshot → Payload
  entry : LogEntry → Payload

pub record AppendEntriesResponse : Type 0 where
  pub follower_id : ℕ
  pub ack_index : Int64
  pub success : Bool
