-- ===== src/Store/Feed/Writes.antt =====
-- What the entries on keys bring to the subscribers (store.go: ApplyPut, ApplyDelete,
-- ApplyExpireKeys).
use mathlib.Core.Path.{subst}
use repository.Base.{
  ◌+◌, ◌≡◌, refl, sym, ◌∙◌, Bool, true, List, [], ◌∷◌, some, Option-cases, Bool-cases, inl, inr,
  eq_of_some-eq,
}
use repository.Base.Int64.{Int64}
use repository.Base.Int64
use repository.Base.Dict.{Dict, find, erase}
use repository.Proto.{Kind, KeyValue, PutOp, DeleteOp, ExpireKey}
use repository.Store.State.{Store, KvEntry, MapKey, Result, ok, kv_to_pb, map_key_comparable}
use repository.Store.Emit.{emit_kv, event_cursor}
use repository.Store.Apply.{
  apply_put, apply_delete, apply_expire_keys, begin_entry, put_entry, delete_key, delete_record,
  check_version, expire_items, expire_one, expire_record, expire_key, guarded,
}
use repository.Store.Apply.Steps.{
  emit_kv-first, written, write_entry-emit, cur_put, put_check, apply_put-refused,
  apply_put-accepted, removed, remove_entry-emit, cur_delete, apply_delete-refused,
  apply_delete-accepted, apply_delete-absent, apply_delete-absent_conflict,
}
use repository.Store.Log.Changes.{stamp, put_changes, delete_changes, expire_changes}
use repository.Store.Log.Emit.{emitted, emit_kv-Emits}
use repository.Store.Log.Entries.{
  expire_items-nil, expire_changes-nil, expire_items-miss, expire_changes-miss, expire_items-fault,
  expire_items-hit, expire_changes-hit,
}
use repository.Store.Log.Writes.{revision-kv_to_pb, some_of_if_alive}
use repository.Store.Feed.{Carries, same-Carries, emit_kv-Carries, append-Carries}

-- An event that is emitted after a change of the keys.
emits_after :
    (s s' : Store) (m : Dict MapKey KvEntry) (kind : Kind) (kv : KeyValue)
    → emit_kv (record s { kvs = m }) kind kv ≡ some s'
    → Carries s (emitted s kind kv ∷ []) s'
emits_after s s' m kind kv e =
    append-Carries s (record s { kvs = m }) s' [] _
      (same-Carries s (record s { kvs = m }) refl refl refl)
      (emit_kv-Carries (record s { kvs = m }) s' kind kv e)

module _ (s : Store) (index : Int64) where
  begun : Carries s [] (begin_entry s index)
  begun = same-Carries s (begin_entry s index) refl refl refl

  first_event :
      (m : Dict MapKey KvEntry) (s' : Store) (kind : Kind) (kv : KeyValue)
      → kv.revision ≡ index
      → emit_kv (record (begin_entry s index) { kvs = m }) kind kv ≡ some s'
      → Carries s (stamp index 0 ((kind, kv) ∷ [])) s'
  first_event m s' kind kv rev e = append-Carries s (begin_entry s index) s' [] _ begun (
      subst
        (λ n.
          Carries (begin_entry s index)
            (record { seq = event_cursor n 0; kind = kind; kv = kv } ∷ []) s')
        rev (emits_after (begin_entry s index) s' m kind kv e))

  pub apply_put-Carries :
      (now : Int64) (op : PutOp) (r : Result KeyValue) (s' : Store)
      → apply_put now s index op ≡ some (r, s')
      → Carries s (stamp index 0 (put_changes r)) s'
  apply_put-Carries now op r s' e = elim (Option-cases (put_check now s index op)) [
    | inr (x, h) ↦
        subst (λ q. Carries s (stamp index 0 (put_changes q.0)) q.1)
          (eq_of_some-eq (sym (apply_put-refused now s index op x h) ∙ e)) begun
    | inl h ↦
        let new = put_entry index op (cur_put now s index op) in
        let rec = kv_to_pb op.namespace op.key new in
        let (s₁, step, _) =
          emit_kv-first (written (begin_entry s index) op new) Kind.put rec refl in
        subst (λ q. Carries s (stamp index 0 (put_changes q.0)) q.1)
          (eq_of_some-eq (
            sym (
              apply_put-accepted now s index op h
              ∙ write_entry-emit (begin_entry s index) op new s₁ step)
            ∙ e))
          (first_event _ s₁ Kind.put rec (revision-kv_to_pb _ _ new) step)
  ]

  abbrev Brings : DeleteOp → Result Bool × Store → Type 0
  Brings op q =
      Carries s (stamp index 0 (delete_changes index op q.0 (find (delete_key op) s.kvs))) q.1

  given : (op : DeleteOp) {p q : Result Bool × Store} → p ≡ q → Brings op p → Brings op q
  given op h d = subst (Brings op) h d

  pub apply_delete-Carries :
      (now : Int64) (op : DeleteOp) (r : Result Bool) (s' : Store)
      → apply_delete now s index op ≡ some (r, s')
      → Carries s (stamp index 0 (delete_changes index op r (find (delete_key op) s.kvs))) s'
  apply_delete-Carries now op r s' e = elim (Option-cases (cur_delete now s index op)) [
    | inl absent ↦ elim (Bool-cases (Int64.lt 0 op.expected_version)) [
      | inl positive ↦
          given op
            (eq_of_some-eq (sym (apply_delete-absent_conflict now s index op absent positive) ∙ e))
            begun
      | inr rest ↦
          given op (eq_of_some-eq (sym (apply_delete-absent now s index op absent rest) ∙ e)) begun
    ]
    | inr (cur, there) ↦ elim (Option-cases (check_version op.expected_version true cur.version)) [
      | inr (x, h) ↦
          given op (eq_of_some-eq (sym (apply_delete-refused now s index op cur x there h) ∙ e))
            begun
      | inl h ↦
          let rec = delete_record index op cur in
          let (s₁, step, _) =
            emit_kv-first (removed (begin_entry s index) index op cur) Kind.delete rec refl in
          given op
            (eq_of_some-eq (
              sym (
                apply_delete-accepted now s index op cur there h
                ∙ remove_entry-emit (begin_entry s index) index op cur s₁ step)
              ∙ e))
            (subst (λ o. Carries s (stamp index 0 (delete_changes index op (ok true) o)) s₁)
              (sym (some_of_if_alive now (find (delete_key op) s.kvs) cur there))
              (first_event (erase (delete_key op) s.kvs) s₁ Kind.delete rec refl step))
    ]
  ]

expire_items-Carries :
    (index : Int64) (items : List ExpireKey) (s s' : Store)
    → expire_items index s items ≡ some s'
    → Carries s (stamp index s.sub (expire_changes index s.kvs items)) s'
expire_items-Carries index [] s s' e = rw (expire_changes-nil index s.kvs) (
    subst (λ t. Carries s [] t) (eq_of_some-eq (sym (expire_items-nil index s) ∙ e))
      (same-Carries s s refl refl refl))
expire_items-Carries index (item ∷ items) s s' e =
    elim (Option-cases (guarded item.guard_revision (find (expire_key item) s.kvs))) [
      | inl miss ↦ rw (expire_changes-miss index item items s miss) (
          expire_items-Carries index items s s'
            (sym (expire_items-miss index item items s miss) ∙ e))
      | inr (cur, hit) ↦ elim (Option-cases (expire_one index s item cur)) [
        | inl fault ↦ cc (expire_items-fault index item items s cur hit fault)
        | inr (s₁, step) ↦
            let s₀ : Store = record s { kvs = erase (expire_key item) s.kvs } in
            let rec = expire_record index item cur in
            let em = emit_kv-Emits s₀ s₁ Kind.expired rec step in
            let rest =
              expire_items-Carries index items s₁ s'
                (sym (expire_items-hit index item items s cur hit s₁ step) ∙ e) in
            rw (expire_changes-hit index item items s cur hit) (
              append-Carries s s₁ s' (emitted s Kind.expired rec ∷ []) _
                (emits_after s s₁ (erase (expire_key item) s.kvs) Kind.expired rec step)
                (subst (λ m. Carries s₁ (stamp index (s.sub + 1) (expire_changes index m items)) s')
                  em.kvs
                  (subst (λ n. Carries s₁ (stamp index n (expire_changes index s₁.kvs items)) s')
                    em.sub rest)))
      ]
    ]

pub apply_expire_keys-Carries :
    (s : Store) (index : Int64) (items : List ExpireKey) (s' : Store)
    → apply_expire_keys s index items ≡ some s'
    → Carries s (stamp index 0 (expire_changes index s.kvs items)) s'
unfolding apply_expire_keys
apply_expire_keys-Carries s index items s' e =
    append-Carries s (begin_entry s index) s' [] _
      (same-Carries s (begin_entry s index) refl refl refl)
      (expire_items-Carries index items (begin_entry s index) s' e)
