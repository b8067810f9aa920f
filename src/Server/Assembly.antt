-- ===== src/Server/Assembly.antt =====
-- The parts of a node, before it is started (distconf/internal/server/node.go: NewNode).
use repository.Base.{ℕ, String, none, some, if◌then◌else◌, ◌==◌, nat_comparable}
use repository.Base.Int64.{Int64}
use repository.Base.Dict.{Dict, find}
use repository.Proto.{PbSnapshot}
use repository.Store.State.{Store, new}
use repository.Store.Snapshot.{export_snapshot, snapshot_to_proto}
use repository.Repl.Leader.{Leader, Config, new_leader, set_snapshot_exporter}
use repository.Repl.Follower.Runner.{FollowerRunner, new_follower_runner}
use repository.Sweeper.{Sweeper, new_sweeper}
use repository.Server.{Node}

-- What only a leader has, and what only a follower has.
pub data Role : Type 0 where
  leads : Leader → Sweeper → Role
  follows : FollowerRunner → Role

-- The snapshot exporter reads the state machine when it is called.
abbrev pub exporter : Store → PbSnapshot
exporter s = snapshot_to_proto (export_snapshot s)

-- `cfg.Peers[cfg.LeaderID]`: the empty text for a missing key.
abbrev pub address_of : Dict ℕ String → ℕ → String
address_of peers id = elim (find id peers) [ none ↦ "" | some addr ↦ addr ]

unfoldable pub new_node : ℕ → ℕ → Dict ℕ String → Int64 → Node × Role
new_node node_id leader_id peers sweep_interval =
    let cfg : Config = record { node_id = node_id; leader_id = leader_id; node_addrs = peers } in
    let n : Node = record {
      node_id = node_id;
      leader_id = leader_id;
      is_leader = node_id == leader_id;
      peers = peers;
      st = new;
    } in
    (
      n,
      if node_id == leader_id
          then leads (set_snapshot_exporter (new_leader cfg new) exporter)
              (new_sweeper sweep_interval)
          else follows (new_follower_runner node_id (address_of peers leader_id)),
    )
