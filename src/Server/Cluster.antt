-- ===== src/Server/Cluster.antt =====
-- What a node tells of the cluster, and whom its replication service lets in
-- (distconf/internal/server: cluster.go, registry.go, auth.go).
pub mod Admits
use repository.Base.{
  ℕ, Bool, true, false, not, ◌||◌, ◌&&◌, String, List, [], ◌∷◌, Option, none, some, map,
  if◌then◌else◌, ◌==◌, nat_comparable, text_comparable, codes,
}
use repository.Base.Int64.{Int64}
use repository.Base.Dict.{find}
use repository.Proto.{Instance}
use repository.Store.Registry.{discover}
use repository.Repl.Applier.{applied_index}
use repository.Server.{Node}

pub record PeerNode : Type 0 where
  pub id : ℕ
  pub address : List ℕ

pub record InfoResponse : Type 0 where
  pub node_id : ℕ
  pub is_leader : Bool
  pub leader_id : ℕ
  pub committed_revision : Int64
  pub applied_revision : Int64
  pub nodes : List PeerNode

-- `Info`, where `committed` is what the leader's `CommittedIndex` returns.
unfoldable pub handle_info : Int64 → Node → InfoResponse
handle_info committed n = record {
  node_id = n.node_id;
  is_leader = n.is_leader;
  leader_id = n.leader_id;
  committed_revision = if n.is_leader then committed else applied_index n.st;
  applied_revision = applied_index n.st;
  nodes = map (λ p. record { id = p.0; address = codes p.1 }) n.peers;
}

-- A snapshot, or an update if it is incremental.
pub record DiscoverResponse : Type 0 where
  pub instances : List Instance
  pub incremental : Bool
  pub added : List Instance
  pub removed : List Instance
  pub applied_revision : Int64

-- `Node.Discover`
unfoldable pub handle_discover : (ℕ → Int64) → Node → String → String → DiscoverResponse
unfolding discover
handle_discover clock n namespace service = record {
  instances = discover clock n.st namespace service;
  incremental = false;
  added = [];
  removed = [];
  applied_revision = applied_index n.st;
}

pub data Rejection : Type 0 where
  missing_token invalid_token not_leader receive_failed : Rejection
  unknown_follower : ℕ → Rejection

-- `checkToken`, on the values of the token's key, `none` without metadata.
abbrev pub check_token : Option (List String) → String → Option Rejection
check_token none want = some missing_token
check_token (some []) want = some invalid_token
check_token (some (v ∷ vals)) want = if v == want then none else some invalid_token

abbrev pub repl_method : String
repl_method = "/distconf.v1.ReplicationService/AppendEntries"

-- `streamReplTokenInterceptor`, and `replTokenInterceptor` alike.
unfoldable pub intercept : String → String → Option (List String) → Option Rejection
intercept token full_method md =
    if not (token == "") && (full_method == repl_method) then check_token md token else none

-- A follower that gets in, with the position that it reports first.
pub data Admission : Type 0 where
  serves : ℕ → Int64 → Admission
  rejected : Rejection → Admission

abbrev pub is_unknown : Node → ℕ → Bool
is_unknown n id = elim (find id n.peers) [ none ↦ true | some addr ↦ false ]

-- `Node.AppendEntries` up to the follower's stream; `first` is its first message, if one comes.
unfoldable pub append_entries : Node → Option (ℕ × Int64) → Admission
append_entries n first = if not n.is_leader then rejected not_leader else elim first [
  | none ↦ rejected receive_failed
  | some (id, ack_index) ↦
      if is_unknown n id || id == n.node_id
      then rejected (unknown_follower id)
      else serves id ack_index
]

-- A call of the replication service, through the interceptor.
unfoldable pub call_append_entries :
    String → Option (List String) → Node → Option (ℕ × Int64) → Admission
unfolding intercept append_entries
call_append_entries token md n first = elim (intercept token repl_method md) [
  | some e ↦ rejected e
  | none ↦ append_entries n first
]
