-- ===== src/Sweeper.antt =====
-- What a turn of the sweeper proposes (distconf/internal/sweeper/sweeper.go: expireKVs,
-- expireServices). Each of the two scans reads the clock once.
pub mod Exact
use repository.Base.{if◌then◌else◌, List, [], ◌∷◌, map, Option, none, some}
use repository.Base.Int64.{Int64}
use repository.Base.Int64
use repository.Proto.{Op, ExpireKey, ExpireService, expire_keys, expire_services}
use repository.Store.State.{Store}
use repository.Store.Snapshot.{ExpiredKv, ExpiredInstance, scan_expired_kvs, scan_expired_instances}
use repository.Repl.Leader.{Leader, propose}

-- `interval` and `propose_timeout` are in milliseconds.
pub record Sweeper : Type 0 where
  pub interval : Int64
  pub propose_timeout : Int64

-- `New`: an interval that is not positive is replaced.
abbrev pub new_sweeper : Int64 → Sweeper
new_sweeper interval = record {
  interval = if Int64.le interval 0 then 200 else interval;
  propose_timeout = 5000;
}

abbrev pub key_item : ExpiredKv → ExpireKey
key_item it = record { namespace = it.namespace; key = it.key; guard_revision = it.guard_revision }

abbrev pub service_item : ExpiredInstance → ExpireService
service_item it = record {
  namespace = it.namespace;
  service = it.service;
  instance_id = it.instance_id;
  guard_revision = it.guard_revision;
}

-- `none` is the return on an empty scan.
abbrev pub key_batch : List ExpiredKv → Option Op
key_batch [] = none
key_batch (it ∷ items) = some (expire_keys (map key_item (it ∷ items)))

abbrev pub service_batch : List ExpiredInstance → Option Op
service_batch [] = none
service_batch (it ∷ items) = some (expire_services (map service_item (it ∷ items)))

-- An error of the proposal is only logged.
abbrev pub propose_batch : Leader → Option Op → Leader
propose_batch l none = l
propose_batch l (some op) = elim (propose l op) [ none ↦ l | some (index, l') ↦ l' ]

unfoldable pub expire_kvs : Int64 → Leader → Leader
expire_kvs now l = propose_batch l (key_batch (scan_expired_kvs now l.store))

unfoldable pub expire_instances_of : Int64 → Leader → Leader
expire_instances_of now l = propose_batch l (service_batch (scan_expired_instances now l.store))

-- `tick`: the two scans, each with its own reading of the clock. `between` is what happens to the
-- leader until the first proposal has returned.
unfoldable pub tick : Int64 → (Leader → Leader) → Int64 → Leader → Leader
unfolding expire_kvs expire_instances_of
tick now between later l = expire_instances_of later (between (expire_kvs now l))
