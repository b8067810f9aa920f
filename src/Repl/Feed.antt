-- ===== src/Repl/Feed.antt =====
-- What a run of log entries brings to the subscribers (repl.go: applyOne).
use mathlib.Core.Path.{subst}
use repository.Base.{
  ◌≡◌, refl, sym, ◌∙◌, List, [], ◌∷◌, some, arith, Option-cases, inl, inr, eq_of_some-eq,
}
use repository.Base.Int64.{Int64}
use repository.Base.Dict.{find}
use repository.Proto.{
  LogEntry, Op, empty, put, delete, register, heartbeat, expire_keys, expire_services, RegisterOp,
  HeartbeatOp, ExpireService,
}
use repository.Store.State.{Store, map_key_comparable}
use repository.Store.Apply.{apply_put, apply_delete, apply_expire_keys, delete_key}
use repository.Store.Registry.{apply_register, apply_heartbeat, apply_expire_services, fanout_svc}
use repository.Store.Log.Changes.{stamp, put_changes, delete_changes, expire_changes}
use repository.Store.Feed.{Carries, same-Carries, append-Carries}
use repository.Store.Feed.Writes.{
  apply_put-Carries, apply_delete-Carries, apply_expire_keys-Carries,
}
use repository.Repl.Applier.{Applied, of_put, of_delete, apply_op, apply_one, replay}
use repository.Repl.History.{events_of, same_put, same_delete}
use repository.Repl.Replay.{
  history, history-nil, history-cons, replay-nil, replay-cons, replay-fault,
}

apply_register-Carries :
    (s : Store) (index : Int64) (op : RegisterOp) → Carries s [] (apply_register s index op).1
unfolding apply_register fanout_svc
apply_register-Carries s index op =
    same-Carries s (apply_register s index op).1 (ground arith) (ground arith) (ground arith)

apply_heartbeat-Carries :
    (now : Int64) (s : Store) (index : Int64) (op : HeartbeatOp)
    → Carries s [] (apply_heartbeat now s index op).1
unfolding apply_heartbeat
apply_heartbeat-Carries now s index op =
    same-Carries s (apply_heartbeat now s index op).1 (ground arith) (ground arith) (ground arith)

apply_expire_services-Carries :
    (s : Store) (index : Int64) (items : List ExpireService)
    → Carries s [] (apply_expire_services s index items)
unfolding apply_expire_services fanout_svc
apply_expire_services-Carries s index items =
    same-Carries s (apply_expire_services s index items) (ground arith) (ground arith)
      (ground arith)

module _ (now : Int64) (s : Store) (index : Int64) (r : Applied) (s' : Store) where
  pub apply_op-Carries :
      (op : Op) → apply_op now s index op ≡ some (r, s') → Carries s (events_of s index op r) s'
  unfolding apply_op
  apply_op-Carries empty e = same-Carries s s' (ground arith) (ground arith) (ground arith)
  apply_op-Carries (register op) e =
      let same : (apply_register s index op).1 ≡ s' = ground arith in
      subst (Carries s []) same (apply_register-Carries s index op)
  apply_op-Carries (heartbeat op) e =
      let same : (apply_heartbeat now s index op).1 ≡ s' = ground arith in
      subst (Carries s []) same (apply_heartbeat-Carries now s index op)
  apply_op-Carries (expire_services items) e =
      let same : apply_expire_services s index items ≡ s' = ground arith in
      subst (Carries s []) same (apply_expire_services-Carries s index items)
  apply_op-Carries (expire_keys items) e = elim (Option-cases (apply_expire_keys s index items)) [
    | inl fault ↦ ground arith
    | inr (s₁, step) ↦
        let same : s₁ ≡ s' = ground arith in
        subst (Carries s (stamp index 0 (expire_changes index s.kvs items))) same
          (apply_expire_keys-Carries s index items s₁ step)
  ]
  apply_op-Carries (put op) e = elim (Option-cases (apply_put now s index op)) [
    | inl fault ↦ ground arith
    | inr ((res, s₁), step) ↦
        let same : s₁ ≡ s' = ground arith in
        let result : of_put res ≡ r = ground arith in
        rw (← result, same_put res)
          (subst (Carries s (stamp index 0 (put_changes res))) same
            (apply_put-Carries s index now op res s₁ step))
  ]
  apply_op-Carries (delete op) e = elim (Option-cases (apply_delete now s index op)) [
    | inl fault ↦ ground arith
    | inr ((res, s₁), step) ↦
        let same : s₁ ≡ s' = ground arith in
        let result : of_delete res ≡ r = ground arith in
        rw (← result, same_delete index res (find (delete_key op) s.kvs) op)
          (subst
            (Carries s (stamp index 0 (delete_changes index op res (find (delete_key op) s.kvs))))
            same (apply_delete-Carries s index now op res s₁ step))
  ]

pub replay-Carries :
    (clock : Int64 → Int64) (es : List LogEntry) (s s' : Store)
    → replay clock s es ≡ some s'
    → Carries s (history clock s es) s'
replay-Carries clock [] s s' e = rw history-nil (
    subst (Carries s []) (eq_of_some-eq (sym (replay-nil clock s) ∙ e))
      (same-Carries s s refl refl refl))
replay-Carries clock (x ∷ es) s s' e = elim (Option-cases (apply_one (clock x.index) s x)) [
  | inl fault ↦ cc (replay-fault clock s x es fault)
  | inr ((r, s₁), h) ↦ rw (history-cons clock s x es r s₁ h) (
      append-Carries s s₁ s' _ _ (apply_op-Carries (clock x.index) s x.index r s₁ x.op h)
        (replay-Carries clock es s₁ s' (sym (replay-cons clock s x es r s₁ h) ∙ e)))
]
