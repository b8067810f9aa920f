-- ===== src/Client/Reads.antt =====
-- The reads of a client, each of which goes from node to node (distconf/client/client.go: Info,
-- discoverLeader, Get, Discover).
use repository.Base.{
  ℕ, Bool, true, false, List, [], ◌∷◌, Option, none, some, if◌then◌else◌, ◌==◌, nat_comparable,
}
use repository.Server.{unavailable}
use repository.Server.Cluster.{InfoResponse, PeerNode}
use repository.Client.{
  Address, Network, World, Trial, unreached, replied, succeeds, fails, ask, request_of, Verdict,
  stops, passes, Scanned, found, exhausted, scan_endpoints, set_leader,
}
use repository.Client.Wire.{Error, sentinel, rpc, plain, Plain, map_status}

-- A call's result: a response, or an error (`none` is nil).
pub data Answer {ℓ} (A : Type ℓ) : Type ℓ where
  returns : A → Answer A
  raises : Option Error → Answer A

abbrev pub is_plain_timeout : Plain → Bool
is_plain_timeout Plain.deadline_exceeded = true
is_plain_timeout Plain.canceled = true
is_plain_timeout Plain.other = false

unfoldable pub is_retryable_transport : Error → Bool
is_retryable_transport (sentinel e) = false
is_retryable_transport (plain e) = is_plain_timeout e
is_retryable_transport (rpc st) = elim st.code [ unavailable ↦ true | _ ↦ false ]

abbrev pub info_verdict : Trial InfoResponse → Verdict InfoResponse
info_verdict (unreached e) = passes (some e)
info_verdict (replied (succeeds info)) = stops info
info_verdict (replied (fails e)) = passes (some e)

module _ {ℓ} {A : Type ℓ} where
  abbrev pub finish : Scanned A → Answer A
  finish (found r) = returns r
  finish (exhausted last) = raises last

  abbrev pub get_verdict : Trial A → Verdict (Answer A)
  get_verdict (unreached e) = passes (some e)
  get_verdict (replied (succeeds r)) = stops (returns r)
  get_verdict (replied (fails e)) =
      if is_retryable_transport e
      then passes (some (map_status e))
      else stops (raises (some (map_status e)))

  abbrev pub finish_get : Scanned (Answer A) → Answer A
  finish_get (found r) = r
  finish_get (exhausted last) = raises last

  abbrev pub discover_verdict : Trial A → Verdict (Answer A)
  discover_verdict (unreached e) = passes (some e)
  discover_verdict (replied (succeeds r)) = stops (returns r)
  discover_verdict (replied (fails e)) =
      if is_retryable_transport e then passes (some e) else stops (raises (some (map_status e)))

  abbrev pub finish_discover : Scanned (Answer A) → Answer A
  finish_discover (found r) = r
  finish_discover (exhausted none) = raises none
  finish_discover (exhausted (some e)) = raises (some (map_status e))

  -- `Client.Get`
  unfoldable pub get : Network A → World → Option (Answer A × World)
  unfolding scan_endpoints
  get net w = elim (scan_endpoints (request_of net) get_verdict w) [
    | none ↦ none
    | some (r, w') ↦ some (finish_get r, w')
  ]

  -- `Client.Discover`
  unfoldable pub discover : Network A → World → Option (Answer A × World)
  unfolding scan_endpoints
  discover net w = elim (scan_endpoints (request_of net) discover_verdict w) [
    | none ↦ none
    | some (r, w') ↦ some (finish_discover r, w')
  ]

-- `Client.Info`
unfoldable pub info {ℓ} : {A : Type ℓ} → Network A → World → Option (Answer InfoResponse × World)
unfolding scan_endpoints
info net w = elim (scan_endpoints (ask net) info_verdict w) [
  | none ↦ none
  | some (r, w') ↦ some (finish r, w')
]

abbrev pub address_of : ℕ → List PeerNode → Address
address_of id [] = []
address_of id (n ∷ ns) = if n.id == id then n.address else address_of id ns

-- `leaderAddress`; the empty text when the leader is not among the nodes.
abbrev pub leader_address : InfoResponse → Address
leader_address r = address_of r.leader_id r.nodes

abbrev pub known_verdict : Address → Verdict Address
known_verdict [] = passes none
known_verdict (c ∷ cs) = stops (c ∷ cs)

abbrev pub leader_verdict : Trial InfoResponse → Verdict Address
leader_verdict (unreached e) = passes (some e)
leader_verdict (replied (succeeds r)) = known_verdict (leader_address r)
leader_verdict (replied (fails e)) = passes (some e)

abbrev pub learn : Scanned Address × World → (Address × Option Error) × World
learn (found addr, w) = ((addr, none), set_leader addr w)
learn (exhausted last, w) = (([], last), w)

-- `discoverLeader`: an address, or the empty one and the last error, which may be nil.
unfoldable pub discover_leader {ℓ} :
    {A : Type ℓ} → Network A → World → Option ((Address × Option Error) × World)
unfolding scan_endpoints
discover_leader net w = elim (scan_endpoints (ask net) leader_verdict w) [
  | none ↦ none
  | some r ↦ some (learn r)
]
