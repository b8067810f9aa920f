-- ===== src/Client/Progress.antt =====
-- How far the steps of a client get: its searches for the leader and its requests
-- (distconf/client/client.go).
use repository.Base.{
  ℕ, suc, ◌+◌, ◌^◌, ◌≤◌, ◌<◌, ◌≡◌, refl, ap, ◌∙◌, List, [], ◌∷◌, Option, length, arith,
}
use repository.Client.{
  Address, Call, dials, asks, requests, Network, World, conn, ask, request_of, Scanned, found,
  stops, passes, newer,
}
use repository.Client.Wire.{Error}
use repository.Client.Reads.{leader_verdict}
use repository.Client.Rotation.{scan_list}

abbrev pub requests_in : List Call → ℕ
requests_in [] = 0
requests_in (dials a ∷ calls) = requests_in calls
requests_in (asks a ∷ calls) = requests_in calls
requests_in (requests a ∷ calls) = suc (requests_in calls)

-- From one state to a later one: at most `n` searches for the leader and `k` requests.
pub record Goes (n k : ℕ) (w w' : World) : Type 0 where
  pub same_nodes : w'.client.endpoints ≡ w.client.endpoints
  pub searches : w'.client.rr_index ≤ w.client.rr_index + n
  pub sent : requests_in w'.calls ≤ requests_in w.calls + k

-- Room for `n` searches.
abbrev pub Room : ℕ → World → Type 0
Room n w =
    (0 < length w.client.endpoints) × (w.client.rr_index + n + length w.client.endpoints < 2 ^ 63)

pub Goes-trans :
    (n k m j : ℕ) (w w' w'' : World) → Goes n k w w' → Goes m j w' w'' → Goes (n + m) (k + j) w w''
Goes-trans n k m j w w' w'' g h = record {
  same_nodes = h.same_nodes ∙ g.same_nodes;
  searches = omega (arith, g.searches, h.searches);
  sent = omega (arith, g.sent, h.sent);
}

pub Goes-mono : (n k m j : ℕ) (w w' : World) → n ≤ m → k ≤ j → Goes n k w w' → Goes m j w w'
Goes-mono n k m j w w' hn hk g = record {
  same_nodes = g.same_nodes;
  searches = omega (arith, g.searches);
  sent = omega (arith, g.sent);
}

pub Room-Goes : (n k m : ℕ) (w w' : World) → Goes n k w w' → Room (n + m) w → Room m w'
Room-Goes n k m w w' g r =
    let same = ap length g.same_nodes in
    (omega (arith, same, r.0), omega (arith, same, g.searches, r.1))

module _ {ℓ} {A : Type ℓ} (net : Network A) where
  conn-Goes : (addr : Address) (w : World) → Goes 0 0 w (conn net addr w).1
  unfolding conn
  conn-Goes addr w = record {
    same_nodes = ground arith;
    searches = ground arith;
    sent = ground arith;
  }

  ask-Goes : (addr : Address) (w : World) → Goes 0 0 w (ask net addr w).1
  unfolding ask
  ask-Goes addr w =
      let g = conn-Goes addr w in
      record {
        same_nodes = ground (arith, g.same_nodes);
        searches = ground (arith, g.searches);
        sent = ground (arith, g.sent);
      }

  pub request_of-Goes : (addr : Address) (w : World) → Goes 0 1 w (request_of net addr w).1
  unfolding request_of
  request_of-Goes addr w =
      let g = conn-Goes addr w in
      record {
        same_nodes = ground (arith, g.same_nodes);
        searches = ground (arith, g.searches);
        sent = ground (arith, g.sent);
      }

  pub scan_list-Goes :
      (xs : List Address) (last : Option Error) (w : World)
      → Goes 0 0 w (scan_list (ask net) leader_verdict xs last w).1
  scan_list-Goes [] last w = record {
    same_nodes = refl;
    searches = omega arith;
    sent = omega arith;
  }
  scan_list-Goes (addr ∷ rest) last w =
      let g = ask-Goes addr w in
      elim (leader_verdict (ask net addr w).0)
        as (λ v.
          Goes 0 0 w
            (elim v as (λ v. Scanned Address × World) [
              | stops r ↦ (found r, (ask net addr w).1)
              | passes e ↦ scan_list (ask net) leader_verdict rest (newer last e) (ask net addr w).1
            ]).1) [
              | stops r ↦ g
              | passes e ↦
                  Goes-trans 0 0 0 0 w (ask net addr w).1 _ g
                    (scan_list-Goes rest (newer last e) (ask net addr w).1)
            ]
