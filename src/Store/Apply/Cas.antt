-- ===== src/Store/Apply/Cas.antt =====
-- Compare-and-set on keys: what a put or a delete does on every branch (store.go: checkVersion,
-- ApplyPut, ApplyDelete).
use native.Mathlib.Decide.{dec_lt}
use repository.Base.{
  ◌≤◌, ◌<◌, ◌≡◌, ◌⊎◌, inl, inr, refl, ap, ◌∙◌, true, false, Option, none, some, arith,
  if◌then◌else◌, ◌==◌, Option-cases, Bool-cases,
}
use repository.Base.Int64
use repository.Base.Int64.{Int64, minus_one, sign, word}
use repository.Base.Dict.{find, find-store, find-erase}
use repository.Proto.{Kind, PutOp, DeleteOp}
use repository.Store.State.{
  Store, KvEntry, MapKey, ok, err, StoreError, cas_conflict, kv_to_pb, map_key_comparable,
}
use repository.Store.Apply.{
  apply_put, apply_delete, begin_entry, check_version, is_there, cur_version, put_key, delete_key,
  delete_record,
}
use repository.Store.Apply.Steps.{
  emit_kv-first, written, write_entry-emit, cur_put, put_check, apply_put-refused,
  apply_put-accepted, removed, remove_entry-emit, cur_delete, apply_delete-refused,
  apply_delete-accepted, apply_delete-absent, apply_delete-absent_conflict,
}

-- What the expected version asks of the entry in place: nothing if it is negative, no entry if it is
-- 0, and otherwise an entry of that very version.
abbrev pub Allows : Int64 → Option KvEntry → Type 0
Allows expected cur =
    (sign ≤ expected)
    ⊎ ((expected ≡ 0) × (cur ≡ none))
    ⊎ ((0 < expected) × (e : KvEntry) × (cur ≡ some e) × (e.version ≡ expected))

check-none :
    (expected : Int64) (cur : Option KvEntry)
    → expected < word
    → check_version expected (is_there cur) (cur_version cur) ≡ none
    → Allows expected cur
unfolding check_version cur_version
check-none expected none fits h = ground arith
check-none expected (some e) fits h = elim (dec_lt expected sign) [
  | no negative ↦ inl (omega arith)
  | yes below ↦ elim (dec_lt 0 expected) [
    | yes positive ↦ inr (inr (positive, e, refl, ground arith))
    | no zero_expected ↦ ground arith
  ]
]

check-some :
    (expected : Int64) (cur : Option KvEntry) (e : StoreError)
    → expected < word
    → check_version expected (is_there cur) (cur_version cur) ≡ some e
    → (e ≡ cas_conflict) × (¬ Allows expected cur)
unfolding check_version cur_version
check-some expected none e fits h = ground arith
check-some expected (some x) e fits h = ground arith

check-some_there :
    (expected : Int64) (cur : KvEntry) (e : StoreError)
    → expected < word
    → check_version expected true cur.version ≡ some e
    → (e ≡ cas_conflict) × (¬ Allows expected (some cur))
unfolding cur_version
check-some_there expected cur e fits h = check-some expected (some cur) e fits h

-- The keys after a write to one of them.
abbrev pub Updates : Store → Store → MapKey → Option KvEntry → Type 0
Updates s s' k new = (j : MapKey) → find j s'.kvs ≡ (if k == j then new else find j s.kvs)

module _ (now : Int64) (s : Store) (index : Int64) (op : PutOp) where
  -- The entry that a put is to write.
  abbrev pub new_entry : KvEntry
  new_entry = record {
    value = op.value;
    version = Int64.add (cur_version (cur_put now s index op)) 1;
    revision = index;
    ttl_ms = op.ttl_ms;
    expire_at_ms = op.expire_at_ms;
  }

  accepted :
      put_check now s index op ≡ none
      → (s' : Store) × (apply_put now s index op
          ≡ some (ok (kv_to_pb op.namespace op.key new_entry), s'))
        × Updates s s' (put_key op) (some new_entry)
  accepted h =
      let s₀ : Store = written (begin_entry s index) op new_entry in
      let (s', e, same) = emit_kv-first s₀ Kind.put (kv_to_pb op.namespace op.key new_entry) refl in
      (
        s',
        apply_put-accepted now s index op h
            ∙ write_entry-emit (begin_entry s index) op new_entry s' e,
        λ j. ap (find j) same ∙ find-store (put_key op) j new_entry s.kvs,
      )

  -- A put returns, and succeeds exactly if the expected version allows it. Then the key, and no
  -- other, has the entry that the put returns: version one up from the live entry before, and the
  -- entry's index for its revision. Refused, it changes nothing but the applied index.
  pub apply_put_lem :
      op.expected_version < word
      → (Allows op.expected_version (cur_put now s index op)
          × (s' : Store) × (apply_put now s index op
              ≡ some (ok (kv_to_pb op.namespace op.key new_entry), s'))
          × Updates s s' (put_key op) (some new_entry))
        ⊎ ((¬ Allows op.expected_version (cur_put now s index op))
            × (apply_put now s index op ≡ some (err cas_conflict, begin_entry s index)))
  apply_put_lem fits = elim (Option-cases (put_check now s index op)) [
    | inl h ↦ let (s', e, u) = accepted h in inl (check-none _ _ fits h, s', e, u)
    | inr (x, h) ↦
        let (conflict, refused) = check-some _ _ x fits h in
        inr (refused, rw (← conflict) (apply_put-refused now s index op x h))
  ]

module _ (now : Int64) (s : Store) (index : Int64) (op : DeleteOp) where
  delete-there :
      (cur : KvEntry)
      → cur_delete now s index op ≡ some cur
      → op.expected_version < word
      → (Allows op.expected_version (some cur)
          × (s' : Store) × (apply_delete now s index op ≡ some (ok true, s'))
          × Updates s s' (delete_key op) none)
        ⊎ ((¬ Allows op.expected_version (some cur))
            × (apply_delete now s index op ≡ some (err cas_conflict, begin_entry s index)))
  delete-there cur there fits =
      elim (Option-cases (check_version op.expected_version true cur.version)) [
        | inl h ↦
            let s₀ : Store = removed (begin_entry s index) index op cur in
            let (s', e, same) = emit_kv-first s₀ Kind.delete (delete_record index op cur) refl in
            inl (
              unfold cur_version in check-none _ (some cur) fits h,
              s',
              apply_delete-accepted now s index op cur there h
                  ∙ remove_entry-emit (begin_entry s index) index op cur s' e,
              λ j. ap (find j) same ∙ find-erase (delete_key op) j s.kvs,
            )
        | inr (x, h) ↦
            let (conflict, refused) = check-some_there _ cur x fits h in
            inr (refused, rw (← conflict) (apply_delete-refused now s index op cur x there h))
      ]

  pub apply_delete_lem :
      op.expected_version < word
      → ((cur_delete now s index op ≡ none)
          × ((apply_delete now s index op ≡ some (ok false, begin_entry s index))
                × ((op.expected_version ≡ 0) ⊎ (sign ≤ op.expected_version))
              ⊎ (apply_delete now s index op ≡ some (err cas_conflict, begin_entry s index))
                × (0 < op.expected_version)
                × (op.expected_version < sign)))
        ⊎ ((cur : KvEntry) × (cur_delete now s index op ≡ some cur)
            × ((Allows op.expected_version (some cur)
                  × (s' : Store) × (apply_delete now s index op ≡ some (ok true, s'))
                  × Updates s s' (delete_key op) none)
                ⊎ ((¬ Allows op.expected_version (some cur))
                    × (apply_delete now s index op
                        ≡ some (err cas_conflict, begin_entry s index)))))
  apply_delete_lem fits = elim (Option-cases (cur_delete now s index op)) [
    | inr (cur, there) ↦ inr (cur, there, delete-there cur there fits)
    | inl absent ↦ elim (Bool-cases (Int64.lt 0 op.expected_version)) [
      | inl positive ↦ inl (
        absent,
        inr (
          apply_delete-absent_conflict now s index op absent positive,
          ground arith,
          ground arith,
        ),
      )
      | inr rest ↦ inl (absent, inl (apply_delete-absent now s index op absent rest, ground arith))
    ]
  ]
