-- ===== src/Client/Lease.antt =====
-- The lease of a service instance: its renewal interval, and its loop as a step relation on what the
-- client waits for (distconf/client/lease.go).
use repository.Base.{
  ◌*◌, ◌/◌, ◌^◌, ◌≤◌, ◌<◌, ◌≡◌, ap, ◌↔◌, Bool, true, false, List, [], ◌∷◌, ◌++◌, arith, ltb,
  if◌then◌else◌, ◌⊎◌, inl, inr, Bool-cases,
}
use repository.Base.Int64.{Int64}
use repository.Base.Int64

-- Durations are int64 nanoseconds.
abbrev pub millisecond : Int64
millisecond = 1000000

abbrev pub second : Int64
second = 1000000000

-- `lease_ttl_ms` is the request's.
pub record Lease : Type 0 where
  pub lease_ttl_ms : Int64
  pub ttl : Int64
  pub interval : Int64

-- A third of a positive TTL, but no less than a second.
abbrev pub interval_of : Int64 → Int64
interval_of ttl = let third = ttl / 3 in if ltb third second then second else third

-- `NewLease`
unfoldable pub new_lease : Int64 → Lease
new_lease lease_ttl_ms =
    let ttl = Int64.mul lease_ttl_ms millisecond in
    if Int64.lt 0 ttl
    then record { lease_ttl_ms = lease_ttl_ms; ttl = ttl; interval = interval_of ttl }
    else record { lease_ttl_ms = 10000; ttl = 10 * second; interval = interval_of (10 * second) }

abbrev Fits : Int64 → Int64 → Type 0
Fits ttl interval =
    (0 < ttl)
    × (ttl < 2 ^ 63)
    × (second ≤ interval)
    × ((interval < ttl) ↔ (second < ttl))
    × ((3 * interval ≤ ttl) ↔ (3 * second ≤ ttl))

interval_of-Fits : (ttl : Int64) → 0 < ttl → ttl < 2 ^ 63 → Fits ttl (interval_of ttl)
interval_of-Fits ttl positive small = ground arith

-- Whatever TTL is asked for, the lease's is positive and its interval at least a second; the interval is
-- shorter than the lease exactly if the lease is longer than a second, and three intervals fit into it
-- exactly from three seconds on.
pub new_lease-interval :
    (lease_ttl_ms : Int64)
    → (let l = new_lease lease_ttl_ms in
        (0 < l.ttl)
        × (l.ttl < 2 ^ 63)
        × (second ≤ l.interval)
        × ((l.interval < l.ttl) ↔ (second < l.ttl))
        × ((3 * l.interval ≤ l.ttl) ↔ (3 * second ≤ l.ttl)))
unfolding new_lease
new_lease-interval lease_ttl_ms =
    elim (Bool-cases (Int64.lt 0 (Int64.mul lease_ttl_ms millisecond))) [
      | inl b ↦ ground (
        arith,
        interval_of-Fits (Int64.mul lease_ttl_ms millisecond) (ground (arith, b))
            (ground (arith, b)),
      )
      | inr b ↦ ground (arith, b, interval_of-Fits (10 * second) (omega arith) (omega arith))
    ]

-- How `KeepAlive` returns: with the context's error, or with nil.
pub data End : Type 0 where
  context_done stopped : End

-- What it is in: a registration (the first, or a later one), the pause after a failed one, or the wait
-- for the ticker.
pub data Phase : Type 0 where
  registering pausing : Bool → Phase
  renewing : Phase
  ended : End → Phase

-- What happens: a registration's or a heartbeat's outcome, the end of the pause, the context or `Stop`.
pub data Event : Type 0 where
  register_succeeds register_fails pause_ends heartbeat_succeeds heartbeat_fails done stop : Event

-- An event that the phase does not wait for leaves it as it is.
unfoldable pub lease_step : Phase → Event → Phase
lease_step (registering first) register_succeeds = renewing
lease_step (registering first) register_fails = pausing first
lease_step (registering first) e = registering first
lease_step (pausing first) pause_ends = registering first
lease_step (pausing true) Event.done = ended context_done
lease_step (pausing false) Event.done = renewing
lease_step (pausing first) stop = renewing
lease_step (pausing first) e = pausing first
lease_step renewing heartbeat_succeeds = renewing
lease_step renewing heartbeat_fails = registering false
lease_step renewing Event.done = ended context_done
lease_step renewing stop = ended stopped
lease_step renewing e = renewing
lease_step (ended why) e = ended why

abbrev pub keep_alive : Phase → List Event → Phase
keep_alive p [] = p
keep_alive p (e ∷ es) = keep_alive (lease_step p e) es

abbrev pub cause : End → Event
cause context_done = Event.done
cause stopped = stop

abbrev pub Occurs : End → List Event → Type 0
Occurs why es = (front : List Event) × (back : List Event) × (es ≡ front ++ cause why ∷ back)

step_caused :
    (p : Phase) (e : Event) (why : End)
    → lease_step p e ≡ ended why
    → (p ≡ ended why) ⊎ (e ≡ cause why)
unfolding lease_step
step_caused (registering first) e why h = ground arith
step_caused (pausing true) e why h = ground arith
step_caused (pausing false) e why h = ground arith
step_caused renewing e why h = ground arith
step_caused (ended w) e why h = ground arith

ended_caused :
    (es : List Event) (p : Phase) (why : End)
    → keep_alive p es ≡ ended why
    → (p ≡ ended why) ⊎ Occurs why es
ended_caused [] p why h = inl h
ended_caused (e ∷ es) p why h = elim (ended_caused es (lease_step p e) why h) [
  | inr (front, back, eq) ↦ inr (e ∷ front, back, ap (◌∷◌ e) eq)
  | inl at ↦ elim (step_caused p e why at) [
    | inl q ↦ inl q
    | inr c ↦ inr ([], es, ap (λ c. c ∷ es) c)
  ]
]

-- A lease's loop returns nil only after `Stop`, and the context's error only after its end: no failed
-- registration or heartbeat ends it.
pub keep_alive_caused :
    (es : List Event) (why : End) → keep_alive (registering true) es ≡ ended why → Occurs why es
keep_alive_caused es why h = elim (ended_caused es (registering true) why h) [
  | inl q ↦ absurd (ground arith)
  | inr o ↦ o
]
