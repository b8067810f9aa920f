-- ===== src/Store/Apply/Clocks.antt =====
-- The clock in a compare-and-set: each replica reads its own (store.go: aliveKV, ApplyPut).
use mathlib.Core.Path.{subst}
use repository.Base.{
  ◌≡◌, ◌<◌, ap, ◌∙◌, true, false, Option, none, some, arith, inl, inr, ◌==◌, nat_comparable,
}
use repository.Base.Int64.{Int64, word}
use repository.Base.Int64
use repository.Base.Dict.{find}
use repository.Proto.{PutOp}
use repository.Store.State.{
  Store, KvEntry, ok, err, cas_conflict, kv_to_pb, alive_kv, map_key_comparable,
}
use repository.Store.Apply.{apply_put, put_key, begin_entry, put_entry}
use repository.Store.Apply.Steps.{cur_put}
use repository.Store.Apply.Cas.{Allows, Updates, apply_put_lem}

cur_put-alive :
    (now : Int64) (s : Store) (index : Int64) (op : PutOp) (e : KvEntry)
    → find (put_key op) s.kvs ≡ some e
    → Int64.lt now e.expire_at_ms ≡ true
    → cur_put now s index op ≡ some e
unfolding alive_kv
cur_put-alive now s index op e there before = rw there (ground arith)

cur_put-expired :
    (now : Int64) (s : Store) (index : Int64) (op : PutOp) (e : KvEntry)
    → find (put_key op) s.kvs ≡ some e
    → (e.expire_at_ms == 0) ≡ false
    → Int64.lt now e.expire_at_ms ≡ false
    → cur_put now s index op ≡ none
unfolding alive_kv
cur_put-expired now s index op e there set after = rw there (ground arith)

not-Allows :
    (expected : Int64) (cur : Option KvEntry) (e : KvEntry)
    → expected ≡ 0
    → cur ≡ some e
    → ¬ Allows expected cur
not-Allows expected cur e z there (inl negative) = omega (arith, z, negative)
not-Allows expected cur e z there (inr (inl (zero_version, none_there))) = cc
not-Allows expected cur e z there (inr (inr (positive, x, same, version))) =
    omega (arith, z, positive)

refused_when_there :
    (now : Int64) (s : Store) (index : Int64) (op : PutOp) (e : KvEntry)
    → op.expected_version ≡ 0
    → op.expected_version < word
    → cur_put now s index op ≡ some e
    → apply_put now s index op ≡ some (err cas_conflict, begin_entry s index)
refused_when_there now s index op e absent fits alive = elim (apply_put_lem now s index op fits) [
  | inl (allowed, s', a, u) ↦ absurd (not-Allows op.expected_version _ e absent alive allowed)
  | inr (refused, a) ↦ a
]

accepted_when_gone :
    (now : Int64) (s : Store) (index : Int64) (op : PutOp)
    → op.expected_version ≡ 0
    → op.expected_version < word
    → cur_put now s index op ≡ none
    → (s' : Store) × (apply_put now s index op
        ≡ some (ok (kv_to_pb op.namespace op.key (put_entry index op none)), s'))
      × Updates s s' (put_key op) (some (put_entry index op none))
accepted_when_gone now s index op absent fits gone = elim (apply_put_lem now s index op fits) [
  | inl (allowed, s', a, u) ↦ (
    s',
    a ∙ ap (λ c. some (ok (kv_to_pb op.namespace op.key (put_entry index op c)), s')) gone,
    subst (λ c. Updates s s' (put_key op) (some (put_entry index op c))) gone u,
  )
  | inr (refused, a) ↦ absurd (refused (inr (inl (absent, gone))))
]

-- Two replicas in the same state, one of which reads its clock before an entry's expiry and one not
-- before it, disagree on a put that wants the key to be absent: the first reports a conflict and
-- keeps its keys, the second accepts and writes the key.
pub apply_put_diverges :
    (before after : Int64) (s : Store) (index : Int64) (op : PutOp) (e : KvEntry)
    → find (put_key op) s.kvs ≡ some e
    → op.expected_version ≡ 0
    → (e.expire_at_ms == 0) ≡ false
    → Int64.lt before e.expire_at_ms ≡ true
    → Int64.lt after e.expire_at_ms ≡ false
    → (apply_put before s index op ≡ some (err cas_conflict, begin_entry s index))
      × (s' : Store) × (apply_put after s index op
          ≡ some (ok (kv_to_pb op.namespace op.key (put_entry index op none)), s'))
      × Updates s s' (put_key op) (some (put_entry index op none))
apply_put_diverges before after s index op e there absent set early late =
    let alive = cur_put-alive before s index op e there early in
    let gone = cur_put-expired after s index op e there set late in
    let fits : op.expected_version < word = omega (arith, absent) in
    let (s', accepts, updates) = accepted_when_gone after s index op absent fits gone in
    (refused_when_there before s index op e absent fits alive, s', accepts, updates)
