-- ===== src/Sweeper/Exact.antt =====
-- What a batch of the sweeper removes (sweeper.go: expireKVs; helpers.go: ScanExpiredKVs; store.go:
-- ApplyExpireKeys).
use repository.Base.{
  ◌≡◌, refl, ap, ◌∙◌, true, false, not, List, [], ◌∷◌, map, Option, none, some, arith,
  nat_comparable, text_comparable, Option-cases, inl, inr, String,
}
use repository.Base.Int64.{Int64}
use repository.Base.Int64
use repository.Base.Dict.{Dict, find, IsUnique}
use repository.Proto.{LogEntry}
use repository.Store.State.{
  Store, KvEntry, MapKey, map_key_comparable, if_alive, alive_kv, get, new,
}
use repository.Store.Apply.{apply_expire_keys}
use repository.Store.Apply.Expiry.{doomed, apply_expire_keys_guard}
use repository.Store.Snapshot.{scan_kvs, scan_expired_kvs, past}
use repository.Repl.Applier.{replay}
use repository.Repl.Keys.{replay-IsUnique}
use repository.Sweeper.{key_item}

doomed-absent :
    (now : Int64) (m : Dict MapKey KvEntry) (k : MapKey) (e : KvEntry)
    → find k m ≡ none
    → doomed (map key_item (scan_kvs now m)) k e ≡ false
unfolding scan_kvs find
doomed-absent now [] k e h = refl
doomed-absent now ((j, x) ∷ m) k e h =
    ground (arith, map_key_comparable.agree_iff j k, doomed-absent now m k e)

doomed-found :
    (now : Int64) (m : Dict MapKey KvEntry) (k : MapKey) (e : KvEntry)
    → IsUnique m
    → find k m ≡ some e
    → doomed (map key_item (scan_kvs now m)) k e ≡ past now e.expire_at_ms
unfolding scan_kvs find
doomed-found now [] k e u h = ground arith
doomed-found now ((j, x) ∷ m) k e u h = ground (
  arith,
  map_key_comparable.agree_iff j k,
  doomed-found now m k e u.1,
  doomed-absent now m j x u.0,
  doomed-absent now m k e,
)

past-alive : (now : Int64) (e : KvEntry) → past now e.expire_at_ms ≡ not (alive_kv now e)
unfolding alive_kv
past-alive now e = ground arith

-- Where no key stands twice, a batch that is applied to the state it was scanned from leaves at each
-- key exactly the entry that is alive at the time of the scan.
sweep_lem :
    (now : Int64) (s s' : Store) (index : Int64) (k : MapKey)
    → IsUnique s.kvs
    → apply_expire_keys s index (map key_item (scan_expired_kvs now s)) ≡ some s'
    → find k s'.kvs ≡ if_alive now (find k s.kvs)
unfolding scan_expired_kvs
sweep_lem now s s' index k u e =
    apply_expire_keys_guard s s' index (map key_item (scan_kvs now s.kvs)) k e
    ∙ elim (Option-cases (find k s.kvs)) [
      | inl absent ↦ rw (absent) refl
      | inr (x, there) ↦
          rw (there, doomed-found now s.kvs k x u there, past-alive now x) (ground arith)
    ]

if_alive-later :
    (now later : Int64) (o : Option KvEntry)
    → Int64.le now later ≡ true
    → if_alive later (if_alive now o) ≡ if_alive later o
unfolding alive_kv
if_alive-later now later none le = refl
if_alive-later now later (some e) le = ground arith

-- Readers do not notice the sweeper: on a replica that has applied a run of the log, a read at the time
-- of the scan or later gives the same before and after the batch that the scan proposes.
pub sweep-get :
    (clock : Int64 → Int64) (es : List LogEntry) (now later : Int64) (s s' : Store) (index : Int64)
    (ns key : String)
    → replay clock new es ≡ some s
    → Int64.le now later ≡ true
    → apply_expire_keys s index (map key_item (scan_expired_kvs now s)) ≡ some s'
    → get later s' ns key ≡ get later s ns key
unfolding get
sweep-get clock es now later s s' index ns key h le e =
    let k : MapKey = record { ns = ns; key = key } in
    let u = replay-IsUnique clock es new s tt h in
    let same : if_alive later (find k s'.kvs) ≡ if_alive later (find k s.kvs) =
      ap (if_alive later) (sweep_lem now s s' index k u e)
      ∙ if_alive-later now later (find k s.kvs) le in
    rw (same, get) refl
