-- ===== src/Store/Snapshot/Restore.antt =====
-- A store restored from another's snapshot (helpers.go: ExportSnapshot, RestoreSnapshot,
-- SnapshotToProto, SnapshotFromProto; repl.go: ApplySnapshot).
use repository.Base.{
  ℕ, ◌+◌, ◌*◌, ◌^◌, ◌≤◌, ◌<◌, ◌≡◌, refl, ◌∙◌, false, List, [], ◌∷◌, map, Option, none, some, arith,
  All,
}
use repository.Base.Int64.{Int64}
use repository.Base.Int64
use repository.Base.Dict.{Dict, find, store, find-store, IsUnique}
use repository.Proto.{KeyValue}
use repository.Store.Ring.{Event}
use repository.Store.Ring.Window.{Represents, Represents-empty}
use repository.Store.State.{Store, KvEntry, MapKey, map_key_comparable, kv_to_pb, clone_kv}
use repository.Store.Snapshot.{
  export_kv, export_snapshot, restore_snapshot, load_kvs, snapshot_to_proto, snapshot_from_proto,
}
use repository.Store.Log.{Below}

-- What the later of two writers of a map leaves.
abbrev over {ℓ} : {A : Type ℓ} → Option A → Option A → Option A
over none old = old
over (some a) old = some a

over-none {ℓ} : {A : Type ℓ} (o : Option A) → over o none ≡ o
over-none none = refl
over-none (some a) = refl

-- What a snapshot message carries of the keys.
abbrev pub sent : Dict MapKey KvEntry → List KeyValue
sent d = map clone_kv (map clone_kv (map export_kv d))

find-load_kvs :
    (d m : Dict MapKey KvEntry) (j : MapKey)
    → IsUnique d
    → find j (load_kvs m (sent d)) ≡ over (find j d) (find j m)
unfolding load_kvs find clone_kv kv_to_pb
find-load_kvs [] m j u = refl
find-load_kvs ((k, e) ∷ d) m j u = ground (
  arith,
  map_key_comparable.agree_iff k j,
  find-load_kvs d (store k e m) j u.1,
  find-store k j e m,
)

-- The store that a snapshot message of `t` leaves at a node in the state `s`.
abbrev pub transfer : Store → Store → Store
transfer s t = restore_snapshot s (snapshot_from_proto (snapshot_to_proto (export_snapshot t)))

pub Below-baseline :
    (hi top : ℕ) (log : List Event) → hi ≤ top + 1 → Below hi log → All (λ ev. ev.seq ≤ top) log
Below-baseline hi top [] le b = tt
Below-baseline hi top (ev ∷ log) le b = (omega arith, Below-baseline hi top log le b.1)

-- A node that is not ahead takes over the sender's keys and applied index with a snapshot.
pub transfer-keys :
    (s t : Store) (j : MapKey)
    → IsUnique t.kvs
    → t.rev < 2 ^ 50
    → s.rev ≤ t.rev
    → (find j (transfer s t).kvs ≡ find j t.kvs) × ((transfer s t).rev ≡ t.rev)
unfolding restore_snapshot export_snapshot snapshot_to_proto snapshot_from_proto find
transfer-keys s t j u small le =
    let newer : Int64.lt t.rev s.rev ≡ false = ground arith in
    rw newer (find-load_kvs t.kvs [] j u ∙ over-none (find j t.kvs), refl)

-- Its ring is empty and its baseline after all events of the index.
pub transfer-ring :
    (s t : Store)
    → t.rev < 2 ^ 50
    → s.rev ≤ t.rev
    → Represents (transfer s t).ring [] × ((transfer s t).baseline_seq ≡ t.rev * 4096 + 4095)
unfolding restore_snapshot export_snapshot snapshot_to_proto snapshot_from_proto
transfer-ring s t small le =
    let newer : Int64.lt t.rev s.rev ≡ false = ground arith in
    let base : Int64.add (Int64.mul t.rev 4096) 4095 ≡ t.rev * 4096 + 4095 = omega (arith, small) in
    rw newer (Represents-empty, base)
