-- ===== src/Client/Attempts.antt =====
-- How far a write of a client goes: its attempts and requests (distconf/client/client.go: Put,
-- Delete, Register, Heartbeat).
use mathlib.Core.Path.{subst}
use repository.Base.{
  ℕ, ◌≡◌, refl, sym, Bool, true, false, ◌&&◌, ◌||◌, [], ◌∷◌, Option, none, some, arith,
  if◌then◌else◌,
}
use repository.Client.{
  Address, Network, World, ask, request_of, next_start, Scanned, found, exhausted, Trial, unreached,
  replied, succeeds, fails, set_leader,
}
use repository.Client.Wire.{Error, map_status, parse_leader_hint}
use repository.Client.Reads.{raises, is_retryable_transport, discover_leader, leader_verdict, learn}
use repository.Client.Writes.{
  Attempt, gives, again, ensure_leader, redirect, after_put_error, after_register_error, attempt,
  settle, proceed, conclude, retry, write, put, register, is_not_leader,
}
use repository.Client.Rotation.{scan_list}
use repository.Client.Order.{reads_rotate, turns}
use repository.Client.Progress.{
  Goes, Room, Goes-trans, Goes-mono, Room-Goes, request_of-Goes, scan_list-Goes,
}

-- A step that does not panic.
abbrev pub Ends {ℓ} : {R : Type ℓ} → ℕ → ℕ → World → Option (R × World) → Type ℓ
Ends {R = R} n k w o = (r : R) × (w' : World) × (o ≡ some (r, w')) × Goes n k w w'

if-Ends {ℓ} :
    {R : Type ℓ} (b : Bool) (n k : ℕ) (w : World) (x y : Option (R × World))
    → Ends n k w x
    → Ends n k w y
    → Ends n k w (if b then x else y)
if-Ends true n k w x y h i = h
if-Ends false n k w x y h i = i

learn-Goes : (w w' : World) (r : Scanned Address) → Goes 1 0 w w' → Goes 1 0 w (learn (r, w')).1
learn-Goes w w' (found addr) g = record {
  same_nodes = g.same_nodes;
  searches = g.searches;
  sent = g.sent;
}
learn-Goes w w' (exhausted last) g = g

module _ {ℓ} {A : Type ℓ} (net : Network A) where
  discover_leader-Ends : (w : World) → Room 1 w → Ends 1 0 w (discover_leader net w)
  discover_leader-Ends w room =
      let (r, w') = scan_list (ask net) leader_verdict (turns net w) none (next_start w) in
      let start : Goes 1 0 w (next_start w) = record {
        same_nodes = refl;
        searches = omega arith;
        sent = omega arith;
      } in
      let g =
        Goes-trans 1 0 0 0 w (next_start w) w' start
          (scan_list-Goes net (turns net w) none (next_start w)) in
      (
        (learn (r, w')).0,
        (learn (r, w')).1,
        (reads_rotate net w room.0 (omega (arith, room.1))).3,
        learn-Goes w w' r g,
      )

  leader-Ends :
      (l : Address) (w : World)
      → Room 1 w
      → Ends 1 0 w (elim l [ [] ↦ discover_leader net w | c ∷ cs ↦ some ((c ∷ cs, none), w) ])
  leader-Ends [] w room = discover_leader-Ends w room
  leader-Ends (c ∷ cs) w room = (
    (c ∷ cs, none),
    w,
    refl,
    record { same_nodes = refl; searches = omega arith; sent = omega arith },
  )

  ensure_leader-Ends : (w : World) → Room 1 w → Ends 1 0 w (ensure_leader net w)
  unfolding ensure_leader
  ensure_leader-Ends w room = leader-Ends w.client.leader w room

  redirect-Ends : (addr : Address) (w : World) → Room 1 w → Ends 1 0 w (redirect net addr w)
  unfolding redirect
  redirect-Ends [] w room =
      let (r, w', e, g) = discover_leader-Ends w room in (again, w', ground (arith, e), g)
  redirect-Ends (c ∷ cs) w room = (
    again,
    set_leader (c ∷ cs) w,
    refl,
    record { same_nodes = refl; searches = omega arith; sent = omega arith },
  )

  same-Goes : (addr : Address) (w : World) → Goes 1 0 w (set_leader addr w)
  same-Goes addr w = record { same_nodes = refl; searches = omega arith; sent = omega arith }

  stop-Ends : (a : Attempt A) (w : World) → Ends 1 0 w (some (a, w))
  stop-Ends a w =
      (a, w, refl, record { same_nodes = refl; searches = omega arith; sent = omega arith })

  -- What a loop does with an error of its request sends nothing more.
  abbrev pub Settles : (Network A → Bool → Error → World → Option (Attempt A × World)) → Type ℓ
  Settles after_error =
      (first : Bool) (e : Error) (w : World) → Room 1 w → Ends 1 0 w (after_error net first e w)

  after_put_error-Ends : Settles after_put_error
  unfolding after_put_error
  after_put_error-Ends first e w room =
      if-Ends (is_not_leader (map_status e)) 1 0 w _ _ (redirect-Ends (parse_leader_hint e) w room)
        (if-Ends (is_retryable_transport e && first) 1 0 w _ _
          (again, set_leader [] w, refl, same-Goes [] w)
          (stop-Ends (gives (raises (some (map_status e)))) w))

  after_register_error-Ends : Settles after_register_error
  unfolding after_register_error
  after_register_error-Ends first e w room =
      let (a, w', eq, g) = redirect-Ends (parse_leader_hint e) (set_leader [] w) room in
      if-Ends (is_not_leader (map_status e) || (is_retryable_transport e && first)) 1 0 w _ _
        (
          a,
          w',
          eq,
          Goes-trans 0 0 1 0 w (set_leader [] w) w'
              (record { same_nodes = refl; searches = omega arith; sent = omega arith }) g,
        )
        (stop-Ends (gives (raises (some (map_status e)))) w)

  module _ (after_error : Network A → Bool → Error → World → Option (Attempt A × World))
      (settles : Settles after_error) where
    settle-Ends :
        (first : Bool) (w w' : World) (t : Trial A)
        → Goes 0 1 w w'
        → Room 1 w'
        → Ends 1 1 w (settle after_error net first (t, w'))
    settle-Ends first w w' (unreached e) g room =
        (_, w', refl, Goes-mono 0 1 1 1 w w' (omega arith) (omega arith) g)
    settle-Ends first w w' (replied (succeeds r)) g room =
        (_, w', refl, Goes-mono 0 1 1 1 w w' (omega arith) (omega arith) g)
    settle-Ends first w w' (replied (fails e)) g room =
        let (a, w'', eq, h) = settles first e w' room in
        (a, w'', eq, Goes-trans 0 1 1 0 w w' w'' g h)

    conclude-Ends :
        (w w' : World) (a : Attempt A)
        → Goes 4 2 w w'
        → Ends 4 2 w (conclude after_error (some (a, w')))
    conclude-Ends w w' (gives r) g = (r, w', refl, g)
    conclude-Ends w w' again g = (_, w', refl, g)

    proceed-Ends :
        (first : Bool) (w w' : World) (l : Address × Option Error)
        → Goes 1 0 w w'
        → Room 1 w'
        → Ends 2 1 w (proceed after_error net first (some (l, w')))
    proceed-Ends first w w' (addr, some e) g room =
        (_, w', refl, Goes-mono 1 0 2 1 w w' (omega arith) (omega arith) g)
    proceed-Ends first w w' (addr, none) g room =
        let asked = request_of-Goes net addr w' in
        let (t, w'') = request_of net addr w' in
        let (a, w₃, eq, h) = settle-Ends first w' w'' t asked (Room-Goes 0 1 1 w' w'' asked room) in
        (a, w₃, eq, Goes-trans 1 0 1 1 w w' w₃ g h)

    attempt-Ends :
        (first : Bool) (w : World) → Room 2 w → Ends 2 1 w (attempt after_error net first w)
    unfolding attempt
    attempt-Ends first w room =
        let (l, w', eq, g) = ensure_leader-Ends w (room.0, omega (arith, room.1)) in
        subst (λ o. Ends 2 1 w (proceed after_error net first o)) (sym eq)
          (proceed-Ends first w w' l g (Room-Goes 1 0 1 w w' g room))

    retry-Ends :
        (w w' : World) (a : Attempt A)
        → Goes 2 1 w w'
        → Room 2 w'
        → Ends 4 2 w (retry after_error net (some (a, w')))
    retry-Ends w w' (gives r) g room =
        (r, w', refl, Goes-mono 2 1 4 2 w w' (omega arith) (omega arith) g)
    retry-Ends w w' again g room =
        let (a, w'', eq, h) = attempt-Ends false w' room in
        subst (λ o. Ends 4 2 w (conclude after_error o)) (sym eq)
          (conclude-Ends w w'' a (Goes-trans 2 1 2 1 w w' w'' g h))

    write-Ends : (w : World) → Room 4 w → Ends 4 2 w (write after_error net w)
    unfolding write
    write-Ends w room =
        let (a, w', eq, g) = attempt-Ends true w (room.0, omega (arith, room.1)) in
        subst (λ o. Ends 4 2 w (retry after_error net o)) (sym eq)
          (retry-Ends w w' a g (Room-Goes 2 1 2 w w' g room))

  -- Every write of a client ends: it returns a response or an error, after at most two requests and
  -- four searches for the leader, as long as there is a node and the searches' index fits an int.
  pub writes_total : (w : World) → Room 4 w → Ends 4 2 w (put net w) × Ends 4 2 w (register net w)
  writes_total w room = (
    write-Ends after_put_error after_put_error-Ends w room,
    write-Ends after_register_error after_register_error-Ends w room,
  )
