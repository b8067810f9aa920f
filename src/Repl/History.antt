-- ===== src/Repl/History.antt =====
-- Every log entry extends the history of KV events by its changes (repl.go: applyOne).
use mathlib.Core.List.{append-nil}
use mathlib.Core.Path.{subst}
use repository.Base.{
  ◌^◌, ◌≤◌, ◌<◌, ◌≡◌, refl, Bool, true, false, List, [], ◌++◌, Option, none, some, arith,
  Option-cases, inl, inr, eq_of_some-eq,
}
use repository.Base.Int64.{Int64}
use repository.Base.Dict.{find}
use repository.Proto.{
  KeyValue, Op, empty, put, delete, register, heartbeat, expire_keys, expire_services,
}
use repository.Store.Ring.{Event}
use repository.Store.State.{Store, KvEntry, Result, ok, err, map_key_comparable, revision_compacted}
use repository.Store.Apply.{apply_put, apply_delete, apply_expire_keys, delete_key}
use repository.Store.Registry.{apply_register, apply_heartbeat, apply_expire_services, fanout_svc}
use repository.Store.Log.{IsTracked}
use repository.Store.Log.Emit.{Tracks-transfer}
use repository.Store.Log.Changes.{stamp, put_changes, delete_changes, expire_changes}
use repository.Store.Log.Writes.{
  apply_put-IsTracked, apply_delete-IsTracked, apply_expire_keys-IsTracked, rev-apply_put,
  rev-apply_delete, rev-apply_expire_keys,
}
use repository.Repl.Applier.{Applied, nothing, of_put, of_delete, apply_op}

-- The KV events of an entry, from the store before it and its result.
abbrev pub of_record : Option KeyValue → Result KeyValue
of_record none = err revision_compacted
of_record (some kv) = ok kv

abbrev pub events_of : Store → Int64 → Op → Applied → List Event
events_of s index (put op) r = stamp index 0 (put_changes (of_record r.kv))
events_of s index (delete op) r =
    stamp index 0 (delete_changes index op (ok r.found) (find (delete_key op) s.kvs))
events_of s index (expire_keys items) r = stamp index 0 (expire_changes index s.kvs items)
events_of s index empty r = []
events_of s index (register op) r = []
events_of s index (heartbeat op) r = []
events_of s index (expire_services items) r = []

pub same_put : (r : Result KeyValue) → put_changes (of_record (of_put r).kv) ≡ put_changes r
same_put (ok kv) = refl
same_put (err e) = refl

pub same_delete :
    (index : Int64) (r : Result Bool) (cur : Option KvEntry) (op : _)
    → delete_changes index op (ok (of_delete r).found) cur ≡ delete_changes index op r cur
same_delete index (ok true) cur op = refl
same_delete index (ok false) cur op = refl
same_delete index (err e) cur op = refl

-- The store after an entry on services, as far as the history is concerned.
abbrev Quiet : Store → Int64 → Store → Type 0
Quiet s index s' = (s'.ring ≡ s.ring) × (s'.baseline_seq ≡ s.baseline_seq) × (s'.rev ≡ index)

Quiet-IsTracked :
    (s : Store) (index : Int64) (s' : Store) (log : List Event)
    → s.rev < index
    → Quiet s index s'
    → IsTracked s log
    → IsTracked s' (log ++ [])
Quiet-IsTracked s index s' log later q t =
    rw append-nil (Tracks-transfer s s' log _ _ q.0 q.1 (omega (arith, q.2)) t)

apply_register-Quiet :
    (s : Store) (index : Int64) (op : _) → Quiet s index (apply_register s index op).1
unfolding apply_register fanout_svc
apply_register-Quiet s index op = ground arith

apply_heartbeat-Quiet :
    (now : Int64) (s : Store) (index : Int64) (op : _)
    → Quiet s index (apply_heartbeat now s index op).1
unfolding apply_heartbeat
apply_heartbeat-Quiet now s index op = ground arith

apply_expire_services-Quiet :
    (s : Store) (index : Int64) (items : _) → Quiet s index (apply_expire_services s index items)
unfolding apply_expire_services fanout_svc
apply_expire_services-Quiet s index items = ground arith

module _ (now : Int64) (s : Store) (index : Int64) (log : List Event) (r : Applied)
    (s' : Store) where
  -- One entry.
  pub apply_op-IsTracked :
      (op : Op)
      → s.rev < index
      → index < 2 ^ 50
      → IsTracked s log
      → apply_op now s index op ≡ some (r, s')
      → IsTracked s' (log ++ events_of s index op r) × (s'.rev ≤ index)
  unfolding apply_op
  apply_op-IsTracked empty later small t e =
      let same : ◌≡◌ {A = Applied × Store} (nothing, s) (r, s') = eq_of_some-eq e in
      (subst (λ q. IsTracked q.1 (log ++ [])) same (rw append-nil t), ground arith)
  apply_op-IsTracked (register op) later small t e =
      let q = apply_register-Quiet s index op in
      let same : (apply_register s index op).1 ≡ s' = ground arith in
      (
        subst (λ x. IsTracked x (log ++ [])) same (Quiet-IsTracked s index _ log later q t),
        ground (arith, q),
      )
  apply_op-IsTracked (heartbeat op) later small t e =
      let q = apply_heartbeat-Quiet now s index op in
      let same : (apply_heartbeat now s index op).1 ≡ s' = ground arith in
      (
        subst (λ x. IsTracked x (log ++ [])) same (Quiet-IsTracked s index _ log later q t),
        ground (arith, q),
      )
  apply_op-IsTracked (expire_services items) later small t e =
      let q = apply_expire_services-Quiet s index items in
      let same : apply_expire_services s index items ≡ s' = ground arith in
      (
        subst (λ x. IsTracked x (log ++ [])) same (Quiet-IsTracked s index _ log later q t),
        ground (arith, q),
      )
  apply_op-IsTracked (expire_keys items) later small t e =
      elim (Option-cases (apply_expire_keys s index items)) [
        | inl fault ↦ ground arith
        | inr (s₁, step) ↦
            let same : s₁ ≡ s' = ground arith in
            (
              subst (λ x. IsTracked x (log ++ stamp index 0 (expire_changes index s.kvs items)))
                  same (apply_expire_keys-IsTracked s index log later small t items s₁ step),
              ground (arith, rev-apply_expire_keys s index log later small t items s₁ step),
            )
      ]
  apply_op-IsTracked (put op) later small t e = elim (Option-cases (apply_put now s index op)) [
    | inl fault ↦ ground arith
    | inr ((res, s₁), step) ↦
        let same : s₁ ≡ s' = ground arith in
        let result : of_put res ≡ r = ground arith in
        (
          rw (← result, same_put res)
              (subst (λ x. IsTracked x (log ++ stamp index 0 (put_changes res))) same
                (apply_put-IsTracked s index log later small t now op res s₁ step)),
          ground (arith, rev-apply_put now s index op res s₁),
        )
  ]
  apply_op-IsTracked (delete op) later small t e =
      elim (Option-cases (apply_delete now s index op)) [
        | inl fault ↦ ground arith
        | inr ((res, s₁), step) ↦
            let same : s₁ ≡ s' = ground arith in
            let result : of_delete res ≡ r = ground arith in
            (
              rw (← result, same_delete index res (find (delete_key op) s.kvs) op)
                  (subst
                    (λ x. IsTracked x (
                      log
                      ++ stamp index 0 (delete_changes index op res (find (delete_key op) s.kvs))))
                    same (apply_delete-IsTracked s index log later small t now op res s₁ step)),
              ground (arith, rev-apply_delete now s index op res s₁),
            )
      ]
