-- ===== src/Server/Cluster/Admits.antt =====
-- Whom the replication service lets in (distconf/internal/server: cluster.go, auth.go).
use text.Mathlib.TextEquality.{eq_iff}
use repository.Base.{
  ℕ, ◌≡◌, ◌≢◌, ◌↔◌, ◌⊎◌, inl, inr, ap, sym, ◌∙◌, true, String, List, [], ◌∷◌, Option, none, some,
  ◌==◌, nat_comparable, text_comparable, arith, Bool-cases, Option-cases,
}
use repository.Base.Int64.{Int64}
use repository.Base.Dict.{find}
use repository.Server.{Node}
use repository.Server.Cluster.{
  Admission, Rejection, serves, rejected, call_append_entries, append_entries, intercept,
  repl_method,
}

-- No token is set, or the call carries it first.
abbrev pub Authentic : String → Option (List String) → Type 0
Authentic token md = (token ≡ "") ⊎ ((vals : List String) × (md ≡ some (token ∷ vals)))

intercept_iff :
    (token : String) (md : Option (List String))
    → (intercept token repl_method md ≡ none) ↔ Authentic token md
unfolding intercept
intercept_iff token none = ground (arith, eq_iff token "")
intercept_iff token (some []) = ground (arith, eq_iff token "")
intercept_iff token (some (v ∷ vals)) = (
  (λ e. elim (Bool-cases (token == "")) [
    | inl b ↦ inl ((eq_iff token "").0 b)
    | inr b ↦ elim (Bool-cases (v == token)) [
      | inl c ↦ inr (vals, ap (λ z. some (z ∷ vals)) ((eq_iff v token).0 c))
      | inr c ↦ absurd (ground (arith, b, c, e))
    ]
  ]),
  (λ a. elim a [
    | inl unset ↦ ground (arith, eq_iff token "", unset)
    | inr (vs, h) ↦ ground (arith, eq_iff v token, h)
  ]),
)

append_entries_iff :
    (n : Node) (first : Option (ℕ × Int64)) (id : ℕ) (ack_index : Int64)
    → (append_entries n first ≡ serves id ack_index) ↔ (
        (n.is_leader ≡ true)
        × (first ≡ some (id, ack_index))
        × (find id n.peers ≢ none)
        × (id ≢ n.node_id))
unfolding append_entries
append_entries_iff n none id ack_index = ground arith
append_entries_iff n (some (i, a)) id ack_index = ground arith

abbrev then_admit : Node → Option (ℕ × Int64) → Option Rejection → Admission
then_admit n first none = append_entries n first
then_admit n first (some e) = rejected e

rejected-serves : (x : Rejection) (id : ℕ) (ack_index : Int64) → rejected x ≢ serves id ack_index
rejected-serves x id ack_index = λ e. ground (arith, e)

-- A call of the replication service is served exactly if the node is the leader, the first message has
-- come and names a peer other than the node itself, and no token is set or the call carries it; it is
-- served as that peer, from the position that the message reports.
pub call_append_entries_iff :
    (token : String) (md : Option (List String)) (n : Node) (first : Option (ℕ × Int64)) (id : ℕ)
    (ack_index : Int64)
    → (call_append_entries token md n first ≡ serves id ack_index) ↔ (
        Authentic token md
        × (n.is_leader ≡ true)
        × (first ≡ some (id, ack_index))
        × (find id n.peers ≢ none)
        × (id ≢ n.node_id))
unfolding call_append_entries
call_append_entries_iff token md n first id ack_index =
    let passes = intercept_iff token md in
    let admits = append_entries_iff n first id ack_index in
    (
      (λ e. elim (Option-cases (intercept token repl_method md)) [
        | inl c ↦
            (let (l, f, k, d) = admits.0 (sym (ap (then_admit n first) c) ∙ e) in
              (passes.0 c, l, f, k, d))
        | inr (x, c) ↦ absurd (rejected-serves x id ack_index (sym (ap (then_admit n first) c) ∙ e))
      ]),
      (λ h.
          let (a, l, f, k, d) = h in ap (then_admit n first) (passes.1 a) ∙ admits.1 (l, f, k, d)),
    )
