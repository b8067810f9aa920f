-- ===== src/Witnesses/Services.antt =====
-- The theorems on requests, the sweeper, snapshots and clocks at concrete inputs: one replica with the
-- key that was put once, or with an entry that expires.
use repository.Base.{◌≡◌, ◌⊎◌, refl, true, List, [], ◌∷◌, map, Option, none, some, arith}
use repository.Base.Dict.{find, store}
use repository.Proto.{KeyValue, LogEntry, put, delete, HeartbeatOp, ExpireService, Instance}
use repository.Store.State.{
  Result, InstEntry, svc_key_comparable, inst_alive, Store, new, KvEntry, MapKey,
  map_key_comparable, err, ok, cas_conflict, kv_to_pb, get, alive_kv,
}
use repository.Store.Emit.{emit_kv, after_emit}
use repository.Store.Apply.{
  apply_put, apply_delete, remove_entry, apply_expire_keys, expire_items, put_key, put_entry,
  begin_entry, check_version, write_entry,
}
use repository.Store.Apply.Cas.{Updates}
use repository.Store.Apply.Clocks.{apply_put_diverges}
use repository.Store.Snapshot.{export_snapshot, snapshot_to_proto, scan_expired_kvs, scan_kvs}
use repository.Store.Registry.{apply_heartbeat, apply_expire_services, heartbeat_key}
use repository.Store.Registry.Leases.{apply_heartbeat-apply_expire_services}
use repository.Repl.Applier.{Applied, replay, apply_op, apply_snapshot}
use repository.Sweeper.{key_item}
use repository.Sweeper.Exact.{sweep-get}
use repository.Server.{
  Node, PutRequest, DeleteRequest, put_op_of, delete_op_of, handle_get, answer, done, responds,
  refuses, without_hint, of_store,
}
use repository.Server.ReadBack.{key_of, handle_put-handle_get, handle_delete-get}
use repository.Witnesses.{clock, put_op, after_put, store_of}

abbrev app_x : MapKey
app_x = record { ns = "app"; key = "x" }

-- A new node that was sent the snapshot of the replica with the key.
abbrev joined : Store
joined = apply_snapshot new (snapshot_to_proto (export_snapshot after_put))

-- The key put once with an expiry at 3000, and swept at 5000.
abbrev brief_log : List LogEntry
brief_log =
    record { index = 1; term = 1; op = put (record put_op { ttl_ms = 2000; expire_at_ms = 3000 }) }
    ∷ []

abbrev after_brief : Store
after_brief = store_of (replay clock new brief_log)

replay-brief_log : replay clock new brief_log ≡ some after_brief
unfolding replay apply_op apply_put emit_kv after_emit check_version write_entry find
replay-brief_log = refl

abbrev swept : Store
swept =
    store_of (apply_expire_keys after_brief 2 (map key_item (scan_expired_kvs 5000 after_brief)))

expire-swept :
    apply_expire_keys after_brief 2 (map key_item (scan_expired_kvs 5000 after_brief)) ≡ some swept
unfolding apply_expire_keys expire_items scan_expired_kvs scan_kvs replay apply_op apply_put
    check_version find write_entry emit_kv after_emit store
expire-swept = refl

sweep-get_example : get 6000 swept "app" "x" ≡ get 6000 after_brief "app" "x"
sweep-get_example =
    sweep-get clock brief_log 5000 6000 after_brief swept 2 "app" "x" replay-brief_log refl
      expire-swept

-- An entry that expires at 1000.
abbrev brief : KvEntry
brief = record { value = 7 ∷ []; version = 1; revision = 1; ttl_ms = 100; expire_at_ms = 1000 }

abbrev with_brief : Store
with_brief = record new { kvs = (app_x, brief) ∷ []; rev = 1 }

find-brief : find (put_key put_op) with_brief.kvs ≡ some brief
unfolding find
find-brief = refl

apply_put_diverges_example :
    (apply_put 900 with_brief 2 put_op ≡ some (err cas_conflict, begin_entry with_brief 2))
    × (s' : Store) × (apply_put 1100 with_brief 2 put_op
        ≡ some (ok (kv_to_pb "app" "x" (put_entry 2 put_op none)), s'))
    × Updates with_brief s' (put_key put_op) (some (put_entry 2 put_op none))
apply_put_diverges_example =
    apply_put_diverges 900 1100 with_brief 2 put_op brief find-brief refl refl refl refl

abbrev node : Node
node = record { node_id = 1; leader_id = 1; is_leader = true; peers = (1, "a") ∷ []; st = new }

abbrev put_request : PutRequest
put_request = record {
  namespace = "app";
  key = "x";
  value = 7 ∷ [];
  ttl_ms = 0;
  expected_version = 0;
}

abbrev result_of : Option (Applied × Store) → Applied × Store
result_of none = (record { kv = none; inst = none; found = true; error = none }, new)
result_of (some q) = q

abbrev put_result : Applied × Store
put_result = result_of (apply_op 1000 new 1 (put (put_op_of 1000 put_request)))

apply_op-put_result :
    apply_op 1000 new 1 (put (put_op_of 1000 put_request)) ≡ some (put_result.0, put_result.1)
unfolding apply_op apply_put check_version find write_entry emit_kv after_emit
apply_op-put_result = refl

handle_put-handle_get_example :
    (answer node (λ x. x.kv) (done put_result.0) ≡ refuses (without_hint (of_store cas_conflict)))
    ⊎ ((kv : KeyValue) × (answer node (λ x. x.kv) (done put_result.0) ≡ responds (some kv))
        × (kv.value ≡ 7 ∷ [])
        × (handle_get 2000 (record node { st = put_result.1 }) (key_of put_request)
            ≡ record { found = true; kv = some kv; applied_revision = 1; leader_id = 1 }))
handle_put-handle_get_example =
    handle_put-handle_get 1000 1000 2000 node put_request 1 put_result.0 put_result.1 (omega arith)
      refl apply_op-put_result

abbrev delete_request : DeleteRequest
delete_request = record { namespace = "app"; key = "x"; expected_version = 0 }

abbrev delete_result : Applied × Store
delete_result = result_of (apply_op 2000 after_put 2 (delete (delete_op_of delete_request)))

apply_op-delete_result :
    apply_op 2000 after_put 2 (delete (delete_op_of delete_request))
    ≡ some (delete_result.0, delete_result.1)
unfolding apply_op apply_delete find replay apply_put check_version write_entry emit_kv after_emit
    store alive_kv remove_entry
apply_op-delete_result = refl

handle_delete-get_example :
    (delete_result.0.error ≡ none) × (get 2000 delete_result.1 "app" "x" ≡ none)
handle_delete-get_example =
    handle_delete-get 2000 (record node { st = after_put }) delete_request 2 delete_result.0
      delete_result.1 refl apply_op-delete_result

-- One instance whose lease runs until 1000.
abbrev leased : Store
leased = record new {
  instances =
      (
        record { ns = "app"; service = "web"; id = "w1" },
        record {
          address = "host";
          metadata = [];
          lease_ttl_ms = 500;
          expire_at_ms = 1000;
          revision = 1;
        },
      )
      ∷ [];
  rev = 1;
}

abbrev heartbeat_op : HeartbeatOp
heartbeat_op = record {
  namespace = "app";
  service = "web";
  instance_id = "w1";
  guard_revision = 1;
  new_expire_at_ms = 1400;
}

abbrev is_renewed : Result Instance × Store → Option (Instance × Store)
is_renewed (ok inst, s) = some (inst, s)
is_renewed (err e, s) = none

abbrev renewed : Instance × Store
renewed = elim (is_renewed (apply_heartbeat 900 leased 2 heartbeat_op)) [
  | none ↦ (
    record {
      namespace = "";
      service = "";
      instance_id = "";
      address = "";
      metadata = [];
      lease_ttl_ms = 0;
      expire_at_ms = 0;
      revision = 0;
    },
    new,
  )
  | some q ↦ q
]

abbrev old_items : List ExpireService
old_items =
    record { namespace = "app"; service = "web"; instance_id = "w1"; guard_revision = 1 } ∷ []

apply_heartbeat-leased : apply_heartbeat 900 leased 2 heartbeat_op ≡ (ok renewed.0, renewed.1)
unfolding apply_heartbeat find inst_alive
apply_heartbeat-leased = refl

apply_heartbeat-apply_expire_services_example :
    (e : InstEntry) × (find
        (heartbeat_key heartbeat_op)
        (apply_expire_services renewed.1 3 old_items).instances
      ≡ some e)
    × (e.revision ≡ 2)
    × (e.expire_at_ms ≡ 1400)
apply_heartbeat-apply_expire_services_example =
    apply_heartbeat-apply_expire_services 900 leased renewed.1 2 3 heartbeat_op renewed.0 old_items
      apply_heartbeat-leased (omega arith, tt)
