-- ===== src/Client/Redirect.antt =====
-- A write of a client against the handlers of the nodes (distconf/client/client.go: Put, Register;
-- distconf/internal/server: kv.go, errors.go).
use mathlib.Core.Path.{subst}
use repository.Base.{
  ◌+◌, ◌≡◌, ◌≢◌, refl, ap, sym, ◌∙◌, Bool, true, false, ◌&&◌, ◌||◌, String, List, [], ◌∷◌, Option,
  none, some, arith, if◌then◌else◌, codes,
}
use repository.Base.Int64.{Int64}
use repository.Store.State.{StoreError, instance_not_found, revision_compacted}
use repository.Repl.Applier.{Applied}
use repository.Server.{
  Node, Failure, of_store, Status, rejects, PutRequest, handle_put, map_propose_error,
  leader_address, with_leader_hint, without_hint, done, answer, refuses, to_grpc_error,
}
use repository.Client.{
  Call, requests, called, Address, Network, World, conn, request_of, replied, succeeds, fails,
  set_leader,
}
use repository.Client.Wire.{
  Error, sentinel, rpc, Sentinel, map_status, parse_leader_hint, IsPlain, seen_as,
  parse_leader_hint-with_leader_hint, map_status-with_leader_hint, map_status-without_hint,
}
use repository.Client.Reads.{returns, raises, is_retryable_transport, discover_leader}
use repository.Client.Writes.{
  Attempt, gives, again, ensure_leader, redirect, after_put_error, after_register_error, attempt,
  settle, proceed, retry, conclude, write, put, register, is_not_leader,
}
use repository.Client.Progress.{requests_in}

module _ {ℓ} {A : Type ℓ} (net : Network A)
    (reachable : (calls : List Call) (a : Address) → net.dial calls a ≡ none) where
  conn-reached :
      (a : Address) (w : World)
      → ((conn net a w).0 ≡ none)
        × ((conn net a w).1.client.leader ≡ w.client.leader)
        × (requests_in (conn net a w).1.calls ≡ requests_in w.calls)
  unfolding conn
  conn-reached a w = ground (arith, reachable w.calls a)

  -- A node that can be reached replies, and the client keeps its leader.
  request_of-replied :
      (a : Address) (w : World)
      → (calls : List Call) × (w' : World) × (request_of net a w
          ≡ (replied (net.request calls a), w'))
        × (w'.client.leader ≡ w.client.leader)
        × (requests_in w'.calls ≡ requests_in w.calls + 1)
  unfolding request_of
  request_of-replied a w =
      let (e, same, count) = conn-reached a w in
      let w' = (conn net a w).1 in
      (w'.calls, called (requests a) w', ground (arith, e), same, omega (arith, count))

  module _ (after_error : Network A → Bool → Error → World → Option (Attempt A × World)) where
    -- One attempt at a leader that the client knows.
    attempt-known :
        (first : Bool) (w : World) (a : Address)
        → w.client.leader ≡ a
        → a ≢ []
        → (calls : List Call) × (w' : World) × (attempt after_error net first w
            ≡ settle after_error net first (replied (net.request calls a), w'))
          × (w'.client.leader ≡ a)
          × (requests_in w'.calls ≡ requests_in w.calls + 1)
    unfolding attempt ensure_leader
    attempt-known first w [] at some_leader = absurd (some_leader refl)
    attempt-known first w (c ∷ cs) at some_leader =
        let (calls, w', e, same, count) = request_of-replied (c ∷ cs) w in
        (
          calls,
          w',
          ap
                (λ l.
                  proceed after_error net first
                    (elim l [ [] ↦ discover_leader net w | c ∷ cs ↦ some ((c ∷ cs, none), w) ]))
                at
              ∙ ap (settle after_error net first) e,
          same ∙ at,
          count,
        )

-- A follower refuses every write with the leader's address.
refused-at_follower :
    (now : Int64) (n : Node) (req : PutRequest) (st : Status)
    → n.is_leader ≡ false
    → handle_put now n req ≡ rejects st
    → st ≡ with_leader_hint Failure.not_leader (leader_address n)
unfolding handle_put map_propose_error
refused-at_follower now n req st follower e = ground (arith, follower)

module _ {ℓ} {A : Type ℓ} (net : Network A) where
  -- A loop that takes the leader from the hint of a refusal.
  abbrev Redirects : (Network A → Bool → Error → World → Option (Attempt A × World)) → Type ℓ
  Redirects after_error =
      (first : Bool) (w : World) (st : Status) (hint : Address)
      → map_status (rpc st) ≡ sentinel Sentinel.not_leader
      → parse_leader_hint (rpc st) ≡ hint
      → hint ≢ []
      → after_error net first (rpc st) w ≡ some (again, set_leader hint w)

  redirect-hint :
      (w : World) (hint : Address)
      → hint ≢ []
      → redirect net hint w ≡ some (again, set_leader hint w)
  unfolding redirect
  redirect-hint w [] some_hint = absurd (some_hint refl)
  redirect-hint w (c ∷ cs) some_hint = refl

  after_put_error-Redirects : Redirects after_put_error
  unfolding after_put_error
  after_put_error-Redirects first w st hint mapped hinted some_hint =
      ap
        (λ e.
          if is_not_leader e
          then redirect net (parse_leader_hint (rpc st)) w
          else if is_retryable_transport (rpc st) && first
          then some (again, set_leader [] w)
          else some (gives (raises (some e)), w))
        mapped
      ∙ ap (λ h. redirect net h w) hinted
      ∙ redirect-hint w hint some_hint

  after_register_error-Redirects : Redirects after_register_error
  unfolding after_register_error
  after_register_error-Redirects first w st hint mapped hinted some_hint =
      ap
        (λ e.
          if is_not_leader e || (is_retryable_transport (rpc st) && first)
          then redirect net (parse_leader_hint (rpc st)) (set_leader [] w)
          else some (gives (raises (some e)), w))
        mapped
      ∙ ap (λ h. redirect net h (set_leader [] w)) hinted
      ∙ redirect-hint (set_leader [] w) hint some_hint

  module _ (reachable : (calls : List Call) (a : Address) → net.dial calls a ≡ none) (w : World)
      (follower : Address) (st : Status) (at : w.client.leader ≡ follower)
      (some_leader : follower ≢ [])
      (refused : (calls : List Call) → net.request calls follower ≡ fails (rpc st))
      (after_error : Network A → Bool → Error → World → Option (Attempt A × World)) where
    write-redirected :
        Redirects after_error
        → (hint : Address) (r : A) → map_status (rpc st) ≡ sentinel Sentinel.not_leader
        → parse_leader_hint (rpc st) ≡ hint
        → hint ≢ []
        → ((calls : List Call) → net.request calls hint ≡ succeeds r)
        → (w' : World) × (write after_error net w ≡ some (returns r, w'))
          × (w'.client.leader ≡ hint)
          × (requests_in w'.calls ≡ requests_in w.calls + 2)
    unfolding write
    write-redirected redirects hint r mapped hinted some_hint accepts =
        let (calls, w₁, first, same, one) =
          attempt-known net reachable after_error true w follower at some_leader in
        let turned =
          first
          ∙ ap (λ q. settle after_error net true (replied q, w₁)) (refused calls)
          ∙ redirects true w₁ st hint mapped hinted some_hint in
        let (calls', w₂, second, last, two) =
          attempt-known net reachable after_error false (set_leader hint w₁) hint refl some_hint in
        (
          w₂,
          ap (retry after_error net) turned
              ∙ ap (conclude after_error) (
                  second ∙ ap (λ q. settle after_error net false (replied q, w₂)) (accepts calls')),
          last,
          omega (arith, one, two),
        )

    write-refused :
        ((v : World)
          → after_error net true (rpc st) v ≡ some (gives (raises (some (map_status (rpc st)))), v))
        → (w' : World) × (write after_error net w ≡ some (raises (some (map_status (rpc st))), w'))
          × (requests_in w'.calls ≡ requests_in w.calls + 1)
    unfolding write
    write-refused final =
        let (calls, w₁, first, same, one) =
          attempt-known net reachable after_error true w follower at some_leader in
        (
          w₁,
          ap (retry after_error net) (
              first
              ∙ ap (λ q. settle after_error net true (replied q, w₁)) (refused calls)
              ∙ final w₁),
          one,
        )

refused-of_store {ℓ} :
    {A : Type ℓ} (n : Node) (response : Applied → A) (r : Applied) (st : Status) (err : StoreError)
    → r.error ≡ some err
    → answer n response (done r) ≡ refuses st
    → st ≡ without_hint (of_store err)
unfolding answer
refused-of_store n response r st err failed e = ground (arith, failed)

module _ {ℓ} {A : Type ℓ} (net : Network A) where
  after_put_error-of_store :
      (err : StoreError) (w : World)
      → after_put_error net true (rpc (without_hint (of_store err))) w
        ≡ some (gives (raises (some (map_status (rpc (without_hint (of_store err)))))), w)
  unfolding after_put_error map_status is_retryable_transport to_grpc_error
  after_put_error-of_store StoreError.cas_conflict w = refl
  after_put_error-of_store instance_not_found w = refl
  after_put_error-of_store revision_compacted w = refl

  after_register_error-of_store :
      (err : StoreError) (w : World)
      → after_register_error net true (rpc (without_hint (of_store err))) w
        ≡ some (gives (raises (some (map_status (rpc (without_hint (of_store err)))))), w)
  unfolding after_register_error map_status is_retryable_transport to_grpc_error
  after_register_error-of_store StoreError.cas_conflict w = refl
  after_register_error-of_store instance_not_found w = refl
  after_register_error-of_store revision_compacted w = refl

codes-nonempty : (s : String) → s ≢ "" → codes s ≢ []
codes-nonempty String.[] h = absurd (h refl)
codes-nonempty (String.◌∷◌ c s) h = λ e. cc

module _ {ℓ} {A : Type ℓ} (net : Network A)
    (reachable : (calls : List Call) (a : Address) → net.dial calls a ≡ none) (w : World)
    (known : Address) (st : Status) (at : w.client.leader ≡ known) (some_leader : known ≢ [])
    (refused : (calls : List Call) → net.request calls known ≡ fails (rpc st)) where
  -- A write that goes to a follower ends at the leader: if the follower's handler refuses it, and the
  -- leader that the follower is configured with answers, the client returns that answer after its
  -- second request and keeps that leader. All nodes can be reached, and no delimiter stands in the
  -- leader's address.
  pub writes_reach_leader :
      (now : Int64) (n : Node) (req : PutRequest) (r : A)
      → n.is_leader ≡ false
      → handle_put now n req ≡ rejects st
      → leader_address n ≢ ""
      → IsPlain (leader_address n)
      → ((calls : List Call) → net.request calls (codes (leader_address n)) ≡ succeeds r)
      → ((w' : World) × (put net w ≡ some (returns r, w'))
          × (w'.client.leader ≡ codes (leader_address n))
          × (requests_in w'.calls ≡ requests_in w.calls + 2))
        × ((w' : World) × (register net w ≡ some (returns r, w'))
            × (w'.client.leader ≡ codes (leader_address n))
            × (requests_in w'.calls ≡ requests_in w.calls + 2))
  writes_reach_leader now n req r follower e named plain accepts =
      let hint = leader_address n in
      let sent = refused-at_follower now n req st follower e in
      let mapped =
        ap (λ s. map_status (rpc s)) sent
        ∙ map_status-with_leader_hint Failure.not_leader hint plain in
      let hinted =
        ap (λ s. parse_leader_hint (rpc s)) sent
        ∙ parse_leader_hint-with_leader_hint Failure.not_leader hint (λ text k. cc) plain in
      let some_hint = codes-nonempty hint named in
      (
        write-redirected net reachable w known st at some_leader refused after_put_error
            (after_put_error-Redirects net) (codes hint) r mapped hinted some_hint accepts,
        write-redirected net reachable w known st at some_leader refused after_register_error
            (after_register_error-Redirects net) (codes hint) r mapped hinted some_hint accepts,
      )

  -- An error of the store reaches the caller as the client's own error for it, after one request: a
  -- write that the log refused is not sent again.
  pub store_errors_reach_caller :
      (n : Node) (response : Applied → A) (r : Applied) (err : StoreError)
      → r.error ≡ some err
      → answer n response (done r) ≡ refuses st
      → ((w' : World) × (put net w ≡ some (raises (some (seen_as (of_store err) st)), w'))
          × (requests_in w'.calls ≡ requests_in w.calls + 1))
        × ((w' : World) × (register net w ≡ some (raises (some (seen_as (of_store err) st)), w'))
            × (requests_in w'.calls ≡ requests_in w.calls + 1))
  store_errors_reach_caller n response r err failed e =
      let sent = refused-of_store n response r st err failed e in
      let mapped =
        ap (λ s. map_status (rpc s)) sent
        ∙ map_status-without_hint (of_store err)
        ∙ ap (seen_as (of_store err)) (sym sent) in
      let (w₁, p, one) =
        write-refused net reachable w known st at some_leader refused after_put_error (λ v.
          subst
            (λ s.
              after_put_error net true (rpc s) v
              ≡ some (gives (raises (some (map_status (rpc s)))), v))
            (sym sent) (after_put_error-of_store net err v)) in
      let (w₂, q, two) =
        write-refused net reachable w known st at some_leader refused after_register_error (λ v.
          subst
            (λ s.
              after_register_error net true (rpc s) v
              ≡ some (gives (raises (some (map_status (rpc s)))), v))
            (sym sent) (after_register_error-of_store net err v)) in
      (
        (w₁, p ∙ ap (λ f. some (raises (some f), w₁)) mapped, one),
        (w₂, q ∙ ap (λ f. some (raises (some f), w₂)) mapped, two),
      )
