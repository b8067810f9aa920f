-- ===== src/Server/ReadBack.antt =====
-- What a read returns after a write (distconf/internal/server/kv.go: Get, Put, Delete).
use mathlib.Core.Path.{subst}
use repository.Base.{
  ◌≡◌, ◌<◌, refl, ap, sym, ◌∙◌, Bool, true, false, String, none, some, arith, nat_comparable,
  if◌then◌else◌, ◌⊎◌, inl, inr, eq_of_some-eq,
}
use repository.Base.Int64.{Int64, word, minus_one}
use repository.Base.Dict.{find, agree_refl}
use repository.Proto.{KeyValue, PutOp, DeleteOp, put, delete}
use repository.Store.State.{
  Store, Result, ok, err, cas_conflict, kv_to_pb, alive_at, alive_kv, if_alive, get, MapKey,
  map_key_comparable,
}
use repository.Store.Apply.{apply_put, apply_delete, put_key, delete_key, begin_entry}
use repository.Store.Apply.Cas.{new_entry, Updates, apply_put_lem, apply_delete_lem}
use repository.Store.Log.Writes.{rev-apply_put}
use repository.Repl.Applier.{Applied, apply_op, of_put, of_delete}
use repository.Server.{
  Node, PutRequest, GetRequest, put_op_of, expiry, handle_get, answer, done, responds, refuses,
  without_hint, of_store, DeleteRequest, delete_op_of,
}

abbrev pub key_of : PutRequest → GetRequest
key_of req = record { namespace = req.namespace; key = req.key }

apply_op-put :
    (now : Int64) (s s₁ : Store) (index : Int64) (op : PutOp) (x : Result KeyValue)
    → apply_put now s index op ≡ some (x, s₁)
    → apply_op now s index (put op) ≡ some (of_put x, s₁)
unfolding apply_op
apply_op-put now s s₁ index op x a = rw (a, apply_op)

get-written :
    (now later : Int64) (s s₁ : Store) (index : Int64) (op : PutOp)
    → Updates s s₁ (put_key op) (some (new_entry now s index op))
    → alive_at later op.expire_at_ms ≡ true
    → get later s₁ op.namespace op.key
      ≡ some (kv_to_pb op.namespace op.key (new_entry now s index op))
unfolding get alive_kv
get-written now later s s₁ index op u alive =
    let there : find (put_key op) s₁.kvs ≡ some (new_entry now s index op) =
      u (put_key op)
      ∙ ap (λ b. if b then some (new_entry now s index op) else find (put_key op) s.kvs)
          (agree_refl (put_key op)) in
    rw (there, get) (ground arith)

-- A put that the leader applies is refused with the code of a conflict, or answered with a record of
-- its value, which a read of that key then finds, until the entry expires, along with the put's index.
pub handle_put-handle_get :
    (stamp now later : Int64) (n : Node) (req : PutRequest) (index : Int64) (r : Applied)
    (s' : Store)
    → req.expected_version < word
    → alive_at later (expiry stamp req.ttl_ms) ≡ true
    → apply_op now n.st index (put (put_op_of stamp req)) ≡ some (r, s')
    → (answer n (λ x. x.kv) (done r) ≡ refuses (without_hint (of_store cas_conflict)))
      ⊎ ((kv : KeyValue) × (answer n (λ x. x.kv) (done r) ≡ responds (some kv))
          × (kv.value ≡ req.value)
          × (handle_get later (record n { st = s' }) (key_of req) ≡ record {
            found = true;
            kv = some kv;
            applied_revision = index;
            leader_id = n.leader_id;
          }))
unfolding answer handle_get kv_to_pb
handle_put-handle_get stamp now later n req index r s' fits alive e =
    let op : PutOp = put_op_of stamp req in
    elim (apply_put_lem now n.st index op fits) [
      | inr (refused, a) ↦
          let same = eq_of_some-eq (
            sym (apply_op-put now n.st (begin_entry n.st index) index op (err cas_conflict) a)
            ∙ e) in
          inl (ap (λ q. answer n (λ x. x.kv) (done q.0)) (sym same))
      | inl (allowed, s₁, a, u) ↦
          let rec = kv_to_pb req.namespace req.key (new_entry now n.st index op) in
          let same = eq_of_some-eq (sym (apply_op-put now n.st s₁ index op (ok rec) a) ∙ e) in
          let read : get later s₁ req.namespace req.key ≡ some rec =
            get-written now later n.st s₁ index op u alive in
          let at : s₁.rev ≡ index = rev-apply_put now n.st index op (ok rec) s₁ a in
          inr (
            rec,
            ap (λ q. answer n (λ x. x.kv) (done q.0)) (sym same),
            refl,
            ap (λ q. handle_get later (record n { st = q.1 }) (key_of req)) (sym same)
                ∙ rw (read, at) refl,
          )
    ]

apply_op-delete :
    (now : Int64) (s s₁ : Store) (index : Int64) (op : DeleteOp) (x : Result Bool)
    → apply_delete now s index op ≡ some (x, s₁)
    → apply_op now s index (delete op) ≡ some (of_delete x, s₁)
unfolding apply_op
apply_op-delete now s s₁ index op x a = rw (a, apply_op)

get-absent :
    (now : Int64) (s : Store) (ns key : String)
    → if_alive now (find (record { ns = ns; key = key }) s.kvs) ≡ none
    → get now s ns key ≡ none
unfolding get
get-absent now s ns key h = rw (h, get)

find-removed : (s s₁ : Store) (k : MapKey) → Updates s s₁ k none → find k s₁.kvs ≡ none
find-removed s s₁ k u = u k ∙ ap (λ b. if b then none else find k s.kvs) (agree_refl k)

-- A delete with an expected version of 0 that the leader applies is unconditional: it meets no error,
-- and a read at that time finds nothing at its key.
pub handle_delete-get :
    (now : Int64) (n : Node) (req : DeleteRequest) (index : Int64) (r : Applied) (s' : Store)
    → req.expected_version ≡ 0
    → apply_op now n.st index (delete (delete_op_of req)) ≡ some (r, s')
    → (r.error ≡ none) × (get now s' req.namespace req.key ≡ none)
handle_delete-get now n req index r s' default e =
    let op : DeleteOp = delete_op_of req in
    let free : op.expected_version ≡ minus_one = ground arith in
    let fits : op.expected_version < word = omega (arith, free) in
    let step =
      λ (x : Bool) (s₁ : Store) (a : apply_delete now n.st index op ≡ some (ok x, s₁))
          (gone : get now s₁ req.namespace req.key ≡ none).
        subst (λ q. (q.0.error ≡ none) × (get now q.1 req.namespace req.key ≡ none))
          (eq_of_some-eq (sym (apply_op-delete now n.st s₁ index op (ok x) a) ∙ e)) (refl, gone) in
    elim (apply_delete_lem now n.st index op fits) [
      | inl (absent, inl (a, unset)) ↦
          step false (begin_entry n.st index) a
            (get-absent now (begin_entry n.st index) req.namespace req.key absent)
      | inl (absent, inr (a, positive, small)) ↦ absurd (omega (arith, free, small))
      | inr (cur, there, inl (allowed, s₁, a, u)) ↦ step true s₁ a (
          get-absent now s₁ req.namespace req.key
            (ap (if_alive now) (find-removed n.st s₁ (delete_key op) u)))
      | inr (cur, there, inr (refused, a)) ↦ absurd (refused (inl (omega (arith, free))))
    ]
