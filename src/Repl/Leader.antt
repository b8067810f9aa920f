-- ===== src/Repl/Leader.antt =====
-- The leader's state and its smaller operations (leader.go: Leader, NewLeader, Propose, FollowerAck,
-- FollowerReset, LastIndex, CommittedIndex, MatchOf, HasQuorumPeers).
use repository.Base.{
  ℕ, suc, ◌++◌, Bool, true, false, not, ◌&&◌, String, List, [], ◌∷◌, Option, none, some, length,
  if◌then◌else◌, leb, ◌==◌, nat_comparable,
}
use repository.Base.Int64.{Int64}
use repository.Base.Int64
use repository.Base.Dict.{Dict, find, store, erase}
use repository.Proto.{LogEntry, Op, PbSnapshot}
use repository.Store.State.{Store}
use repository.Repl.Applier.{quorum}

-- repl.go: Config, without the fields that no code reads.
pub record Config : Type 0 where
  pub node_id : ℕ
  pub leader_id : ℕ
  pub node_addrs : Dict ℕ String

-- `waiters` are the indices at which a proposer waits. The applier is the store itself.
pub record Leader : Type 0 where
  pub cfg : Config
  pub store : Store
  pub log : List LogEntry
  pub compact_index : Int64
  pub saved_snap : Option PbSnapshot
  pub waiters : Dict Int64 (Unit {0})
  pub commit : Int64
  pub applied : Int64
  pub acked : Dict ℕ Int64
  pub stopped : Bool
  pub export_snapshot : Option (Store → PbSnapshot)

abbrev pub new_leader : Config → Store → Leader
new_leader cfg st = record {
  cfg = cfg;
  store = st;
  log = [];
  compact_index = 0;
  saved_snap = none;
  waiters = [];
  commit = 0;
  applied = 0;
  acked = [];
  stopped = false;
  export_snapshot = none;
}

-- `SetSnapshotExporter`
abbrev pub set_snapshot_exporter : Leader → (Store → PbSnapshot) → Leader
set_snapshot_exporter l f = record l { export_snapshot = some f }

-- `Stop`
abbrev pub stop : Leader → Leader
stop l = record l { stopped = true }

-- `wake`: a full channel is left as it is.
abbrev pub wake : Bool → Bool
wake waiting = true

unfoldable pub last_index : Leader → Int64
last_index l = Int64.add l.compact_index (length l.log)

-- The locked part of `Propose`: the entry gets the next index, and its proposer waits there. `none`
-- is the error of a leader that has stopped.
unfoldable pub propose : Leader → Op → Option (Int64 × Leader)
propose l op =
    let index : Int64 = Int64.add (last_index l) 1 in
    if l.stopped
    then none
    else some (
      index,
      record l {
        waiters = store index tt l.waiters;
        log = l.log ++ record { index = index; term = 1; op = op } ∷ [];
      },
    )

-- A proposer that gives up: its entry stays in the log.
unfoldable pub give_up : Leader → Int64 → Leader
give_up l index = record l { waiters = erase index l.waiters }

-- `l.match[id]`
unfoldable pub match_of : Leader → ℕ → Int64
match_of l id = elim (find id l.acked) [ none ↦ 0 | some index ↦ index ]

unfoldable pub follower_ack : Leader → ℕ → Int64 → Leader
unfolding match_of
follower_ack l id index =
    if Int64.lt (match_of l id) index then record l { acked = store id index l.acked } else l

unfoldable pub follower_reset : Leader → ℕ → Leader
follower_reset l id = record l { acked = store id 0 l.acked }

-- The followers among the nodes that pass a test.
unfoldable pub count_peers : (ℕ → Bool) → ℕ → Dict ℕ String → ℕ
count_peers test self [] = 0
count_peers test self ((id, addr) ∷ nodes) =
    let rest = count_peers test self nodes in if not (id == self) && test id then suc rest else rest

unfoldable pub votes : Leader → Int64 → ℕ
unfolding count_peers
votes l i = suc (count_peers (λ id. Int64.le i (match_of l id)) l.cfg.node_id l.cfg.node_addrs)

unfoldable pub need : Leader → ℕ
need l = quorum (length l.cfg.node_addrs)

unfoldable pub has_quorum_peers : Leader → Bool
unfolding count_peers need
has_quorum_peers l =
    leb (need l)
      (suc (count_peers (λ id. Int64.lt 0 (match_of l id)) l.cfg.node_id l.cfg.node_addrs))
