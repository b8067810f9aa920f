-- ===== src/Client/Writes.antt =====
-- The writes of a client, which go to the leader (distconf/client/client.go: ensureLeader, Put,
-- Delete, Register, Heartbeat).
use repository.Base.{
  Bool, true, false, ◌&&◌, ◌||◌, [], ◌∷◌, Option, none, some, if◌then◌else◌, ◌==◌, nat_comparable,
}
use repository.Base.Int64.{minus_one}
use repository.Server.{DeleteRequest}
use repository.Client.{
  Address, Network, World, Trial, unreached, replied, succeeds, fails, request_of, set_leader,
}
use repository.Client.Wire.{Error, sentinel, rpc, plain, Sentinel, map_status, parse_leader_hint}
use repository.Client.Reads.{Answer, returns, raises, is_retryable_transport, discover_leader}

-- `Delete` writes -1 for an expected version of 0 into its request.
abbrev pub normalize : DeleteRequest → DeleteRequest
normalize req = record req {
  expected_version = if req.expected_version == 0 then minus_one else req.expected_version;
}

-- `err == ErrNotLeader`
abbrev pub is_not_leader : Error → Bool
is_not_leader (sentinel Sentinel.not_leader) = true
is_not_leader (sentinel Sentinel.cas_conflict) = false
is_not_leader (sentinel Sentinel.instance_gone) = false
is_not_leader (sentinel Sentinel.history_compacted) = false
is_not_leader (sentinel Sentinel.no_quorum) = false
is_not_leader (sentinel Sentinel.no_endpoints) = false
is_not_leader (rpc st) = false
is_not_leader (plain e) = false

-- One turn of the loop over the attempts: it returns, or goes on.
pub data Attempt {ℓ} (A : Type ℓ) : Type ℓ where
  gives : Answer A → Attempt A
  again : Attempt A

module _ {ℓ} {A : Type ℓ} where
  unfoldable pub ensure_leader : Network A → World → Option ((Address × Option Error) × World)
  ensure_leader net w = elim w.client.leader [
    | [] ↦ discover_leader net w
    | c ∷ cs ↦ some ((c ∷ cs, none), w)
  ]

  -- The leader of the hint, or else the one that some node names.
  unfoldable pub redirect : Network A → Address → World → Option (Attempt A × World)
  redirect net [] w = elim (discover_leader net w) [ none ↦ none | some (r, w') ↦ some (again, w') ]
  redirect net (c ∷ cs) w = some (again, set_leader (c ∷ cs) w)

  -- What `Put` and `Delete` make of an error, on the first attempt or the second.
  unfoldable pub after_put_error : Network A → Bool → Error → World → Option (Attempt A × World)
  unfolding redirect
  after_put_error net first e w =
      let next = redirect net (parse_leader_hint e) w in
      if is_not_leader (map_status e)
      then next
      else if is_retryable_transport e && first
      then some (again, set_leader [] w)
      else some (gives (raises (some (map_status e))), w)

  -- What `Register` and `Heartbeat` make of one.
  unfoldable pub after_register_error :
      Network A → Bool → Error → World → Option (Attempt A × World)
  unfolding redirect
  after_register_error net first e w =
      let next = redirect net (parse_leader_hint e) (set_leader [] w) in
      if is_not_leader (map_status e) || (is_retryable_transport e && first)
      then next
      else some (gives (raises (some (map_status e))), w)

  module _ (after_error : Network A → Bool → Error → World → Option (Attempt A × World)) where
    abbrev pub settle : Network A → Bool → Trial A × World → Option (Attempt A × World)
    settle net first (unreached e, w) = some (gives (raises (some e)), w)
    settle net first (replied (succeeds r), w) = some (gives (returns r), w)
    settle net first (replied (fails e), w) = after_error net first e w

    abbrev pub proceed :
        Network A → Bool → Option ((Address × Option Error) × World) → Option (Attempt A × World)
    proceed net first none = none
    proceed net first (some ((addr, some e), w)) = some (gives (raises (some e)), w)
    proceed net first (some ((addr, none), w)) = settle net first (request_of net addr w)

    unfoldable pub attempt : Network A → Bool → World → Option (Attempt A × World)
    unfolding ensure_leader
    attempt net first w = proceed net first (ensure_leader net w)

    abbrev pub conclude : Option (Attempt A × World) → Option (Answer A × World)
    conclude none = none
    conclude (some (gives r, w)) = some (r, w)
    conclude (some (again, w)) = some (raises (some (sentinel Sentinel.no_quorum)), w)

    abbrev pub retry : Network A → Option (Attempt A × World) → Option (Answer A × World)
    retry net none = none
    retry net (some (gives r, w)) = some (r, w)
    retry net (some (again, w)) = conclude (attempt net false w)

    -- `for attempt := 0; attempt < 2; attempt++`
    unfoldable pub write : Network A → World → Option (Answer A × World)
    unfolding attempt
    write net w = retry net (attempt net true w)

  -- `Client.Put` and, after `normalize`, `Client.Delete`
  abbrev pub put : Network A → World → Option (Answer A × World)
  put = write after_put_error

  -- `Client.Register` and `Client.Heartbeat`
  abbrev pub register : Network A → World → Option (Answer A × World)
  register = write after_register_error
