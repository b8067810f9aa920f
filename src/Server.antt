-- ===== src/Server.antt =====
-- The leader's and followers' request handlers (distconf/internal/server: kv.go, registry.go,
-- errors.go, cluster.go). A handler is split at its call of Propose: what it proposes, and what it
-- answers to the outcome.
pub mod ReadBack
pub mod Cluster
pub mod WatchLoop
pub mod WatchInstances
pub mod Assembly
use repository.Base.{
  ℕ, ◌+◌, Bool, true, false, not, ◌&&◌, String, List, [], ◌∷◌, ◌++◌, Option, none, some,
  if◌then◌else◌, ◌==◌, nat_comparable, text_comparable, codes,
}
use repository.Base.Int64.{Int64, minus_one}
use repository.Base.Int64
use repository.Base.Dict.{Dict, find}
use repository.Proto.{
  KeyValue, Instance, PutOp, DeleteOp, RegisterOp, HeartbeatOp, Op, put, delete, register,
  heartbeat,
}
use repository.Store.State.{
  Store, StoreError, cas_conflict, instance_not_found, revision_compacted, get, get_instance,
}
use repository.Store.Registry.{discover}
use repository.Repl.Applier.{Applied, applied_index}

-- The parts of a node that its handlers read.
pub record Node : Type 0 where
  pub node_id : ℕ
  pub leader_id : ℕ
  pub is_leader : Bool
  pub peers : Dict ℕ String
  pub st : Store

-- The errors that a handler meets, and the codes that it answers with.
pub data Failure : Type 0 where
  of_store : StoreError → Failure
  not_leader no_quorum deadline_exceeded canceled : Failure
  other : List ℕ → Failure

-- The codes of gRPC but `OK`.
pub data Code : Type 0 where
  canceled unknown invalid_argument deadline_exceeded not_found already_exists permission_denied :
      Code
  resource_exhausted failed_precondition aborted out_of_range unimplemented internal : Code
  unavailable data_loss unauthenticated : Code

-- `err.Error()`
abbrev pub error_text : Failure → List ℕ
error_text (of_store cas_conflict) =
    codes "cas conflict: expected version does not match current version"
error_text (of_store instance_not_found) = codes "service instance not found (lease expired?)"
error_text (of_store revision_compacted) =
    codes "requested revision has been compacted; resync required"
error_text Failure.not_leader = codes "not the leader"
error_text Failure.no_quorum = codes "replication failed: no quorum available"
error_text Failure.deadline_exceeded = codes "context deadline exceeded"
error_text Failure.canceled = codes "context canceled"
error_text (Failure.other text) = text

unfoldable pub to_grpc_error : Failure → Code
to_grpc_error (of_store cas_conflict) = aborted
to_grpc_error (of_store instance_not_found) = not_found
to_grpc_error (of_store revision_compacted) = out_of_range
to_grpc_error Failure.not_leader = failed_precondition
to_grpc_error Failure.no_quorum = unavailable
to_grpc_error Failure.deadline_exceeded = unavailable
to_grpc_error Failure.canceled = Code.canceled
to_grpc_error (Failure.other text) = internal

-- A status of gRPC: what a handler returns as its error.
pub record Status : Type 0 where
  pub code : Code
  pub message : List ℕ

abbrev pub without_hint : Failure → Status
without_hint e = record { code = to_grpc_error e; message = error_text e }

unfoldable pub with_leader_hint : Failure → String → Status
unfolding to_grpc_error
with_leader_hint e addr = if addr == "" then without_hint e else record {
  code = to_grpc_error e;
  message = error_text e ++ codes "; leader_hint=" ++ codes addr;
}

-- `n.cfg.Peers[n.cfg.LeaderID]`
abbrev pub leader_address : Node → String
leader_address n = elim (find n.leader_id n.peers) [ none ↦ "" | some addr ↦ addr ]

-- `mapProposeError`
unfoldable pub map_propose_error : Node → Failure → Status
unfolding with_leader_hint
map_propose_error n e = with_leader_hint e (leader_address n)

pub data Step : Type 0 where
  proposes : Op → Step
  rejects : Status → Step

-- What `Propose` returns: its error, or the result of the entry.
pub data Outcome : Type 0 where
  failed : Failure → Outcome
  done : Applied → Outcome

pub data Answer {ℓ} (A : Type ℓ) : Type ℓ where
  responds : A → Answer A
  refuses : Status → Answer A

pub record GetRequest : Type 0 where
  pub namespace : String
  pub key : String

pub record GetResponse : Type 0 where
  pub found : Bool
  pub kv : Option KeyValue
  pub applied_revision : Int64
  pub leader_id : ℕ

abbrev pub is_found : Option KeyValue → Bool
is_found none = false
is_found (some kv) = true

unfoldable pub handle_get : Int64 → Node → GetRequest → GetResponse
handle_get now n req =
    let kv = get now n.st req.namespace req.key in
    record {
      found = is_found kv;
      kv = kv;
      applied_revision = applied_index n.st;
      leader_id = n.leader_id;
    }

pub record PutRequest : Type 0 where
  pub namespace : String
  pub key : String
  pub value : List ℕ
  pub ttl_ms : Int64
  pub expected_version : Int64

-- The absolute expiry: none for a TTL that is not positive.
abbrev pub expiry : Int64 → Int64 → Int64
expiry now ttl = if Int64.lt 0 ttl then Int64.add now ttl else 0

abbrev pub put_op_of : Int64 → PutRequest → PutOp
put_op_of now req = record {
  namespace = req.namespace;
  key = req.key;
  value = req.value;
  ttl_ms = if Int64.lt 0 req.ttl_ms then req.ttl_ms else 0;
  expire_at_ms = expiry now req.ttl_ms;
  expected_version = req.expected_version;
}

unfoldable pub handle_put : Int64 → Node → PutRequest → Step
unfolding map_propose_error
handle_put now n req =
    if not n.is_leader
    then rejects (map_propose_error n Failure.not_leader)
    else proposes (put (put_op_of now req))

-- The second half of a handler: an error of the proposal gets a hint, one of the entry does not.
unfoldable pub answer {ℓ} : {A : Type ℓ} → Node → (Applied → A) → Outcome → Answer A
unfolding map_propose_error
answer n response (failed e) = refuses (map_propose_error n e)
answer n response (done r) = elim r.error [
  | none ↦ responds (response r)
  | some e ↦ refuses (without_hint (of_store e))
]

pub record DeleteRequest : Type 0 where
  pub namespace : String
  pub key : String
  pub expected_version : Int64

-- An expected version of 0 stands for none.
abbrev pub delete_op_of : DeleteRequest → DeleteOp
delete_op_of req = record {
  namespace = req.namespace;
  key = req.key;
  expected_version = if req.expected_version == 0 then minus_one else req.expected_version;
}

unfoldable pub handle_delete : Node → DeleteRequest → Step
unfolding map_propose_error
handle_delete n req =
    if not n.is_leader
    then rejects (map_propose_error n Failure.not_leader)
    else proposes (delete (delete_op_of req))

pub record RegisterRequest : Type 0 where
  pub namespace : String
  pub service : String
  pub instance_id : String
  pub address : String
  pub metadata : Dict String String
  pub lease_ttl_ms : Int64

unfoldable pub handle_register : Int64 → Node → RegisterRequest → Step
unfolding map_propose_error
handle_register now n req =
    if not n.is_leader
    then rejects (map_propose_error n Failure.not_leader)
    else proposes (
        register record {
          namespace = req.namespace;
          service = req.service;
          instance_id = req.instance_id;
          address = req.address;
          metadata = req.metadata;
          lease_ttl_ms = req.lease_ttl_ms;
          expire_at_ms = expiry now req.lease_ttl_ms;
        })

pub record HeartbeatRequest : Type 0 where
  pub namespace : String
  pub service : String
  pub instance_id : String

-- The clock is read twice: for the lookup and for the new expiry.
unfoldable pub handle_heartbeat : Int64 → Int64 → Node → HeartbeatRequest → Step
unfolding map_propose_error
handle_heartbeat now later n req =
    if not n.is_leader
    then rejects (map_propose_error n Failure.not_leader)
    else elim (get_instance now n.st req.namespace req.service req.instance_id) [
      | none ↦ rejects (without_hint (of_store instance_not_found))
      | some cur ↦ proposes (
          heartbeat record {
            namespace = req.namespace;
            service = req.service;
            instance_id = req.instance_id;
            guard_revision = cur.revision;
            new_expire_at_ms = expiry later cur.lease_ttl_ms;
          })
    ]
