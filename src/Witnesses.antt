-- ===== src/Witnesses.antt =====
-- The theorems at concrete inputs: one key, put once by the leader of three nodes.
pub mod Services
pub mod Streams
pub mod Clients
pub mod Commands
pub mod Watches
pub mod Pushers
pub mod Registrations
use repository.Base.{
  ℕ, zero, suc, ◌+◌, ◌-◌, ◌*◌, ◌≤◌, ◌<◌, ◌≡◌, ◌↔◌, ◌⊎◌, inr, refl, List, [], ◌∷◌, ◌++◌, Option,
  none, some, length, drop, arith,
}
use repository.Base.Int64.{Int64}
use repository.Base.Dict.{find, store}
use repository.Proto.{PbSnapshot, PutOp, DeleteOp, ExpireKey, put, LogEntry, Kind}
use repository.Store.Ring.{Event, append_event, empty_ring}
use repository.Store.Ring.Window.{Represents, Represents-empty, push, append_event-Represents}
use repository.Store.State.{
  Store, new, ok, err, revision_compacted, cas_conflict, kv_to_pb, map_key_comparable,
}
use repository.Store.Emit.{emit_kv, after_emit}
use repository.Store.Apply.{
  apply_put, apply_expire_keys, begin_entry, check_version, cur_version, write_entry, put_key,
  expire_items,
}
use repository.Store.Apply.Steps.{cur_put}
use repository.Store.Apply.Cas.{Allows, Updates, new_entry, apply_put_lem}
use repository.Store.Apply.Expiry.{survivor, apply_expire_keys_fault_iff, apply_expire_keys_guard}
use repository.Store.Watch.{watch_kv, next_id, subscribe}
use repository.Store.Log.{IsTracked}
use repository.Store.Log.Backlog.{missing, lowest, watch_kv_complete}
use repository.Store.Log.Changes.{stamp, put_changes, expire_changes}
use repository.Store.Log.Writes.{apply_put-IsTracked}
use repository.Store.Snapshot.{export_snapshot, snapshot_to_proto}
use repository.Repl.Applier.{replay, apply_op}
use repository.Repl.Replay.{history, IsTracked-new, replay-IsTracked, replay-watch_kv}
use repository.Repl.Leader.{
  Config, Leader, propose, follower_ack, last_index, votes, need, match_of,
}
use repository.Repl.Applier.{quorum}
use repository.Repl.Commit.{commit_round, new_commit, apply_from, Signal}
use repository.Repl.Commit.Votes.{new_commit_majority}
use repository.Repl.Commit.Prefix.{Holds, propose-Holds}
use repository.Repl.Commit.Refines.{commit_round-Holds}
use repository.Repl.Commit.Total.{IsSafe, commit_round_total}
use repository.Repl.Commit.Run.{Reach, here, next, proposes, acks, commits, start, Reach-Holds}
use repository.Repl.Catchup.{catchup, catchup_messages}
use repository.Repl.Follower.{apply_stream, ack}
use repository.Server.Assembly.{exporter}
use repository.Repl.Follower.Stream.{AreSet, acks_from}
use repository.Repl.Follower.Converges.{catchup_converges}

abbrev pub clock : Int64 → Int64
clock index = 1000

abbrev pub put_op : PutOp
put_op = record {
  namespace = "app";
  key = "x";
  value = 7 ∷ [];
  ttl_ms = 0;
  expire_at_ms = 0;
  expected_version = 0;
}

abbrev pub one_put : List LogEntry
one_put = record { index = 1; term = 1; op = put put_op } ∷ []

abbrev pub store_of : Option Store → Store
store_of none = new
store_of (some s) = s

abbrev pub after_put : Store
after_put = store_of (replay clock new one_put)

pub replay-one_put : replay clock new one_put ≡ some after_put
unfolding replay apply_op apply_put emit_kv after_emit check_version cur_version write_entry find
replay-one_put = refl

abbrev pub three_nodes : Config
three_nodes = record {
  node_id = 1;
  leader_id = 1;
  node_addrs = (1, "a") ∷ (2, "b") ∷ (3, "c") ∷ [];
}

abbrev leader_of : Leader → Option (Leader × List Signal) → Leader
leader_of l none = l
leader_of l (some (l', signals)) = l'

abbrev signals_of : Option (Leader × List Signal) → List Signal
signals_of none = []
signals_of (some (l', signals)) = signals

-- Before anything, with one proposal, with its acknowledgement by one follower, and committed.
abbrev pub first : Leader
first = start three_nodes exporter

abbrev pub proposed : Leader
proposed = record first { log = one_put; waiters = (1, tt) ∷ [] }

abbrev acked_once : Leader
acked_once = record proposed { acked = (2, 1) ∷ [] }

abbrev committed : Leader
committed = leader_of acked_once (commit_round clock acked_once)

pub propose-first : propose first (put put_op) ≡ some (1, proposed)
unfolding propose last_index store
propose-first = refl

acked_once-ack : acked_once ≡ follower_ack proposed 2 1
unfolding follower_ack match_of find store
acked_once-ack = refl

commit_round-committed :
    commit_round clock acked_once ≡ some (committed, signals_of (commit_round clock acked_once))
unfolding commit_round new_commit last_index need quorum votes match_of find apply_from apply_op
    apply_put check_version write_entry emit_kv
commit_round-committed = refl

committed-Reach : Reach clock first committed one_put
committed-Reach =
    next
      (next (next (here refl refl) (proposes (put put_op) 1 propose-first refl))
        (acks 2 1 acked_once-ack))
      (commits (signals_of (commit_round clock acked_once)) commit_round-committed)

acked_once-Holds : Holds clock acked_once one_put
acked_once-Holds =
    Reach-Holds clock three_nodes exporter
      (next (next (here refl refl) (proposes (put put_op) 1 propose-first refl))
        (acks 2 1 acked_once-ack))
      (omega arith)

pub one_put-AreSet : AreSet one_put
one_put-AreSet = (λ e. cc, tt)

Reach-Holds_example : Holds clock committed one_put
Reach-Holds_example = Reach-Holds clock three_nodes exporter committed-Reach (omega arith)

new_commit_majority_example :
    (0 ≤ new_commit acked_once)
    × (new_commit acked_once ≤ last_index acked_once)
    × ((1 ≤ 0)
        ⊎ ((0 < 1) × (1 ≤ new_commit acked_once) × (3 < votes acked_once 1 * 2))
        ⊎ ((new_commit acked_once < 1) × (1 ≤ last_index acked_once) × (votes acked_once 1 * 2 ≤ 3))
        ⊎ (last_index acked_once < 1))
unfolding last_index
new_commit_majority_example = new_commit_majority acked_once 1 (omega arith) (omega arith)

commit_round-Holds_example :
    Holds clock committed one_put × (committed.commit ≡ new_commit acked_once)
commit_round-Holds_example =
    commit_round-Holds clock acked_once committed one_put
      (signals_of (commit_round clock acked_once)) acked_once-Holds commit_round-committed

pub replay-nothing : replay clock new [] ≡ some new
unfolding replay
replay-nothing = refl

one_put-IsSafe : IsSafe clock one_put
one_put-IsSafe zero h = cc (replay-nothing)
one_put-IsSafe (suc zero) h = cc (replay-one_put)
one_put-IsSafe (suc (suc n)) h = cc (replay-one_put)

commit_round_total_example :
    (l' : Leader) × (signals : List Signal) × (commit_round clock acked_once ≡ some (l', signals))
commit_round_total_example =
    commit_round_total clock acked_once one_put one_put-IsSafe acked_once-Holds

replay-watch_kv_example :
    (lost : List Event) × (kept : List Event) × (history clock new one_put ≡ lost ++ kept)
    × (((watch_kv after_put "app" "" 5 ≡ some (err revision_compacted, after_put)) × (0 < 5))
        ⊎ ((watch_kv after_put "app" "" 5
              ≡ some
                  (ok (next_id after_put, missing "app" "" 5 kept), subscribe after_put "app" ""))
            × ((◌≡◌ {A = ℕ} 5 0)
                ⊎ (missing "app" "" 5 kept ≡ missing "app" "" 5 (history clock new one_put)))))
replay-watch_kv_example =
    replay-watch_kv clock one_put after_put "app" "" 5 (omega arith, omega arith, tt) (omega arith)
      replay-one_put

after_put-IsTracked : IsTracked after_put (history clock new one_put)
after_put-IsTracked =
    (replay-IsTracked clock one_put new after_put [] (omega arith, omega arith, tt) (omega arith)
      IsTracked-new replay-one_put).0

watch_kv_complete_example :
    ((watch_kv after_put "app" "x" 4095 ≡ some (err revision_compacted, after_put))
      × (◌<◌ 0 4095)
      × (4095 < lowest after_put after_put-IsTracked.kept))
    ⊎ ((watch_kv after_put "app" "x" 4095
          ≡ some (
            ok (next_id after_put, missing "app" "x" 4095 after_put-IsTracked.kept),
            subscribe after_put "app" "x",
          ))
        × ((◌≡◌ {A = ℕ} 4095 0)
            ⊎ (missing "app" "x" 4095 after_put-IsTracked.kept
                ≡ missing "app" "x" 4095 (history clock new one_put))))
unfolding replay apply_op apply_put check_version find write_entry emit_kv after_emit
watch_kv_complete_example =
    watch_kv_complete after_put "app" "x" 4095 (history clock new one_put)
      ((after_put.rev + 1) * 4096) (omega arith) (omega arith) after_put-IsTracked

abbrev first_event : Event
first_event = record {
  seq = 4096;
  kind = Kind.put;
  kv = kv_to_pb "app" "x" (new_entry 1000 new 1 put_op);
}

append_event-Represents_example :
    Represents (append_event empty_ring first_event) (push [] first_event)
append_event-Represents_example = append_event-Represents empty_ring [] first_event Represents-empty

apply_put_lem_example :
    (Allows 0 (cur_put 1000 new 1 put_op)
      × (s' : Store) × (apply_put 1000 new 1 put_op
          ≡ some (ok (kv_to_pb "app" "x" (new_entry 1000 new 1 put_op)), s'))
      × Updates new s' (put_key put_op) (some (new_entry 1000 new 1 put_op)))
    ⊎ ((¬ Allows 0 (cur_put 1000 new 1 put_op))
        × (apply_put 1000 new 1 put_op ≡ some (err cas_conflict, begin_entry new 1)))
apply_put_lem_example = apply_put_lem 1000 new 1 put_op (omega arith)

abbrev delete_op : DeleteOp
delete_op = record { namespace = "app"; key = "x"; expected_version = 1 }

abbrev expired_item : ExpireKey
expired_item = record { namespace = "app"; key = "x"; guard_revision = 1 }

apply_expire_keys_fault_iff_example :
    (apply_expire_keys after_put 2 (expired_item ∷ []) ≡ none)
    ↔ (4096 ≤ length (expire_changes 2 after_put.kvs (expired_item ∷ [])))
apply_expire_keys_fault_iff_example = apply_expire_keys_fault_iff after_put 2 (expired_item ∷ [])

abbrev after_expiry : Store
after_expiry = store_of (apply_expire_keys after_put 2 (expired_item ∷ []))

apply_expire_keys-after_expiry :
    apply_expire_keys after_put 2 (expired_item ∷ []) ≡ some after_expiry
unfolding apply_expire_keys expire_items find replay apply_op apply_put check_version write_entry
    emit_kv after_emit store
apply_expire_keys-after_expiry = refl

apply_expire_keys_guard_example :
    find (put_key put_op) after_expiry.kvs
    ≡ survivor (expired_item ∷ []) (put_key put_op) (find (put_key put_op) after_put.kvs)
apply_expire_keys_guard_example =
    apply_expire_keys_guard after_put after_expiry 2 (expired_item ∷ []) (put_key put_op)
      apply_expire_keys-after_expiry

apply_put-after_put :
    apply_put 1000 new 1 put_op
    ≡ some (ok (kv_to_pb "app" "x" (new_entry 1000 new 1 put_op)), after_put)
unfolding replay apply_op apply_put check_version find write_entry emit_kv
apply_put-after_put = refl

catchup_converges_example :
    (catchup acked_once 0 ≡ some (none, drop 0 one_put))
    × (apply_stream clock 2 new (catchup_messages (none, drop 0 one_put))
        ≡ some (after_put, ack 2 new ∷ acks_from 2 0 (1 - 0), none))
catchup_converges_example =
    catchup_converges clock clock acked_once one_put 2 0 new after_put acked_once-Holds
      one_put-AreSet (omega arith) (inr refl) replay-nothing replay-one_put
