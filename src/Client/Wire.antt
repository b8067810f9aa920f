-- ===== src/Client/Wire.antt =====
-- The errors that a client sees (distconf/client/errors.go: mapStatus, parseLeaderHint), and what
-- becomes of an error of the server on its way (distconf/internal/server/errors.go).
use repository.Base.{
  ℕ, ◌+◌, ◌≡◌, ◌≢◌, refl, sym, ◌∙◌, ap, false, String, List, [], ◌∷◌, ◌++◌, none, some, length,
  drop, take, All, arith, if◌then◌else◌, ◌==◌, text_comparable, nat_comparable, codes, index,
  contains, index_any, is_one_of, index_any-none, has_prefix, Bool-cases, ◌⊎◌, inl, inr,
}
use mathlib.Core.Path.{subst}
use text.Mathlib.TextEquality.{eq_iff}
use repository.Store.State.{StoreError, instance_not_found, revision_compacted}
use repository.Server.{
  Failure, of_store, aborted, not_found, out_of_range, failed_precondition, unavailable, Status,
  with_leader_hint, error_text, to_grpc_error, without_hint,
}

-- The package's own errors.
pub data Sentinel : Type 0 where
  cas_conflict instance_gone history_compacted no_quorum not_leader no_endpoints : Sentinel

-- An error of a call: the package's, a status of gRPC, or one that is no status.
pub data Plain : Type 0 where
  deadline_exceeded canceled other : Plain

pub data Error : Type 0 where
  sentinel : Sentinel → Error
  rpc : Status → Error
  plain : Plain → Error

unfoldable pub map_status : Error → Error
map_status (sentinel e) = sentinel e
map_status (plain e) = plain e
map_status (rpc st) = elim st.code [
  | aborted ↦ sentinel Sentinel.cas_conflict
  | not_found ↦ sentinel instance_gone
  | out_of_range ↦ sentinel history_compacted
  | unavailable ↦
      if contains st.message (codes "no quorum") then sentinel Sentinel.no_quorum else rpc st
  | failed_precondition ↦ sentinel Sentinel.not_leader
  | _ ↦ rpc st
]

abbrev pub hint_key : List ℕ
hint_key = codes "leader_hint="

abbrev pub delimiters : List ℕ
delimiters = codes ";, "

abbrev until_delimiter : List ℕ → List ℕ
until_delimiter rest = elim (index_any rest delimiters) [ none ↦ rest | some j ↦ take j rest ]

abbrev hint_in : List ℕ → List ℕ
hint_in msg = elim (index msg hint_key) [
  | none ↦ []
  | some i ↦ until_delimiter (drop (i + length hint_key) msg)
]

-- The empty text when there is no hint.
unfoldable pub parse_leader_hint : Error → List ℕ
parse_leader_hint (sentinel e) = []
parse_leader_hint (plain e) = []
parse_leader_hint (rpc st) = hint_in st.message

-- An address whose end the parser recognises.
abbrev pub IsPlain : String → Type 0
IsPlain addr = All (λ c. is_one_of delimiters c ≡ false) (codes addr)

abbrev pub text_of : Failure → String → List ℕ
text_of e addr = error_text e ++ codes "; leader_hint=" ++ codes addr

until_delimiter-codes : (addr : String) → IsPlain addr → until_delimiter (codes addr) ≡ codes addr
until_delimiter-codes addr h = ground (arith, index_any-none delimiters (codes addr) h)

hint_in-text_of :
    (e : Failure) (addr : String)
    → ((text : List ℕ) → e ≢ Failure.other text)
    → IsPlain addr
    → hint_in (text_of e addr) ≡ codes addr
unfolding index has_prefix
hint_in-text_of (of_store StoreError.cas_conflict) addr known h = until_delimiter-codes addr h
hint_in-text_of (of_store instance_not_found) addr known h = until_delimiter-codes addr h
hint_in-text_of (of_store revision_compacted) addr known h = until_delimiter-codes addr h
hint_in-text_of Failure.not_leader addr known h = until_delimiter-codes addr h
hint_in-text_of Failure.no_quorum addr known h = until_delimiter-codes addr h
hint_in-text_of Failure.deadline_exceeded addr known h = until_delimiter-codes addr h
hint_in-text_of Failure.canceled addr known h = until_delimiter-codes addr h
hint_in-text_of (Failure.other text) addr known h = absurd (known text refl)

-- Without an address there is no hint.
hint_in-error_text :
    (e : Failure) → ((text : List ℕ) → e ≢ Failure.other text) → hint_in (error_text e) ≡ []
unfolding index has_prefix
hint_in-error_text (of_store StoreError.cas_conflict) known = refl
hint_in-error_text (of_store instance_not_found) known = refl
hint_in-error_text (of_store revision_compacted) known = refl
hint_in-error_text Failure.not_leader known = refl
hint_in-error_text Failure.no_quorum known = refl
hint_in-error_text Failure.deadline_exceeded known = refl
hint_in-error_text Failure.canceled known = refl
hint_in-error_text (Failure.other text) known = absurd (known text refl)

abbrev hinted : Failure → String → Status
hinted e addr = record { code = to_grpc_error e; message = text_of e addr }

with_leader_hint-cases :
    (e : Failure) (addr : String)
    → ((with_leader_hint e addr ≡ without_hint e) × (addr ≡ ""))
      ⊎ (with_leader_hint e addr ≡ hinted e addr)
unfolding with_leader_hint
with_leader_hint-cases e addr = elim (Bool-cases (addr == "")) [
  | inl b ↦ inl (ground arith, (eq_iff addr "").0 b)
  | inr b ↦ inr (ground arith)
]

-- The address that a server puts into an error of its own is the one that a client reads from it, if
-- no delimiter stands in the address; without an address, the client reads none.
pub parse_leader_hint-with_leader_hint :
    (e : Failure) (addr : String)
    → ((text : List ℕ) → e ≢ Failure.other text)
    → IsPlain addr
    → parse_leader_hint (rpc (with_leader_hint e addr)) ≡ codes addr
unfolding parse_leader_hint
parse_leader_hint-with_leader_hint e addr known h = elim (with_leader_hint-cases e addr) [
  | inl (b, c) ↦ ap (λ st. hint_in st.message) b ∙ hint_in-error_text e known ∙ sym (ap codes c)
  | inr b ↦ ap (λ st. hint_in st.message) b ∙ hint_in-text_of e addr known h
]

-- No text without a space has "no quorum" in it.
index-no_quorum :
    (s : List ℕ) → All (λ c. is_one_of delimiters c ≡ false) s → index s (codes "no quorum") ≡ none
unfolding index has_prefix
index-no_quorum [] h = refl
index-no_quorum (a ∷ []) h = ground (arith, h.0)
index-no_quorum (a ∷ b ∷ []) h = ground (arith, h.0)
index-no_quorum (a ∷ b ∷ c ∷ s) h = ground (arith, index-no_quorum (b ∷ c ∷ s) h.1, h.0)

-- What each error of the server is to a client.
abbrev pub seen_as : Failure → Status → Error
seen_as (of_store StoreError.cas_conflict) st = sentinel Sentinel.cas_conflict
seen_as (of_store instance_not_found) st = sentinel instance_gone
seen_as (of_store revision_compacted) st = sentinel history_compacted
seen_as Failure.not_leader st = sentinel Sentinel.not_leader
seen_as Failure.no_quorum st = sentinel Sentinel.no_quorum
seen_as Failure.deadline_exceeded st = rpc st
seen_as Failure.canceled st = rpc st
seen_as (Failure.other text) st = rpc st

pub map_status-without_hint :
    (e : Failure) → map_status (rpc (without_hint e)) ≡ seen_as e (without_hint e)
unfolding map_status to_grpc_error index has_prefix
map_status-without_hint (of_store StoreError.cas_conflict) = refl
map_status-without_hint (of_store instance_not_found) = refl
map_status-without_hint (of_store revision_compacted) = refl
map_status-without_hint Failure.not_leader = refl
map_status-without_hint Failure.no_quorum = refl
map_status-without_hint Failure.deadline_exceeded = refl
map_status-without_hint Failure.canceled = refl
map_status-without_hint (Failure.other text) = refl

map_status-hinted :
    (e : Failure) (addr : String)
    → IsPlain addr
    → map_status (rpc (hinted e addr)) ≡ seen_as e (hinted e addr)
unfolding map_status to_grpc_error index has_prefix
map_status-hinted (of_store StoreError.cas_conflict) addr h = refl
map_status-hinted (of_store instance_not_found) addr h = refl
map_status-hinted (of_store revision_compacted) addr h = refl
map_status-hinted Failure.not_leader addr h = refl
map_status-hinted Failure.no_quorum addr h = refl
map_status-hinted Failure.deadline_exceeded addr h = ground (arith, index-no_quorum (codes addr) h)
map_status-hinted Failure.canceled addr h = refl
map_status-hinted (Failure.other text) addr h = refl

-- Every error of the server, with or without a hint, is to the client the error that stands for it: no
-- two of the store's and the leader's errors are confused, and the rest stay the statuses they are.
-- The leader's address must have no delimiter in it.
pub map_status-with_leader_hint :
    (e : Failure) (addr : String)
    → IsPlain addr
    → map_status (rpc (with_leader_hint e addr)) ≡ seen_as e (with_leader_hint e addr)
map_status-with_leader_hint e addr h = elim (with_leader_hint-cases e addr) [
  | inl (b, c) ↦
      subst (λ st. map_status (rpc st) ≡ seen_as e st) (sym b) (map_status-without_hint e)
  | inr b ↦ subst (λ st. map_status (rpc st) ≡ seen_as e st) (sym b) (map_status-hinted e addr h)
]
