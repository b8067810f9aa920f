-- ===== src/Client/Order.antt =====
-- The reads of a client, and its search for the leader, against a loop over the list of the nodes
-- (distconf/client/client.go: Get, Discover, Info, discoverLeader).
use repository.Base.{◌+◌, ◌%◌, ◌^◌, ◌<◌, ◌≡◌, List, none, some, length, arith}
use repository.Client.{Address, Network, World, conn, ask, request_of, next_start}
use repository.Client.Reads.{
  get, get_verdict, finish_get, discover, discover_verdict, finish_discover, info, info_verdict,
  finish, discover_leader, leader_verdict, learn,
}
use repository.Client.Rotation.{rotation, scan_list, scan_endpoints-rotation}

module _ {ℓ} {A : Type ℓ} (net : Network A) where
  endpoints-conn :
      (addr : Address) (w : World) → (conn net addr w).1.client.endpoints ≡ w.client.endpoints
  unfolding conn
  endpoints-conn addr w = ground arith

  pub endpoints-ask :
      (addr : Address) (w : World) → (ask net addr w).1.client.endpoints ≡ w.client.endpoints
  unfolding ask
  endpoints-ask addr w = ground (arith, endpoints-conn addr w)

  pub endpoints-request_of :
      (addr : Address) (w : World) → (request_of net addr w).1.client.endpoints ≡ w.client.endpoints
  unfolding request_of
  endpoints-request_of addr w = ground (arith, endpoints-conn addr w)

  -- The nodes in the order in which the next loop tries them.
  abbrev pub turns : World → List Address
  turns w = rotation (w.client.rr_index % length w.client.endpoints) w.client.endpoints

  pub reads_rotate :
      (w : World)
      → 0 < length w.client.endpoints
      → w.client.rr_index + length w.client.endpoints < 2 ^ 63
      → (let (r, w') = scan_list (request_of net) get_verdict (turns w) none (next_start w) in
          get net w ≡ some (finish_get r, w'))
        × (let (r, w') =
              scan_list (request_of net) discover_verdict (turns w) none (next_start w) in
            discover net w ≡ some (finish_discover r, w'))
        × (let (r, w') = scan_list (ask net) info_verdict (turns w) none (next_start w) in
            info net w ≡ some (finish r, w'))
        × (discover_leader net w
            ≡ some (learn (scan_list (ask net) leader_verdict (turns w) none (next_start w))))
  unfolding get discover info discover_leader
  reads_rotate w some_node small = (
    ground (
      arith,
      scan_endpoints-rotation (request_of net) get_verdict endpoints-request_of w some_node small,
    ),
    ground (
      arith,
      scan_endpoints-rotation (request_of net) discover_verdict endpoints-request_of w some_node
          small,
    ),
    ground (arith, scan_endpoints-rotation (ask net) info_verdict endpoints-ask w some_node small),
    ground
        (arith, scan_endpoints-rotation (ask net) leader_verdict endpoints-ask w some_node small),
  )
