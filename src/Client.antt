-- ===== src/Client.antt =====
-- The client library (distconf/client: client.go, errors.go, lease.go): its state, the network that
-- it calls, and the choice of a node. A result of `none` is a panic.
pub mod Wire
pub mod Reads
pub mod Writes
pub mod Rotation
pub mod Order
pub mod Progress
pub mod Attempts
pub mod Redirect
pub mod Lease
pub mod Watching
use repository.Base.{
  ℕ, zero, suc, ◌+◌, ◌-◌, ◌%◌, ◌^◌, Bool, true, false, List, [], ◌∷◌, ◌++◌, Option, none, some,
  length, get_elem?, ltb, if◌then◌else◌, ◌==◌, nat_comparable, bytes_comparable,
}
use repository.Base.Int64.{Int64}
use repository.Base.Int64
use repository.Server.Cluster.{InfoResponse, PeerNode}
use repository.Client.Wire.{Error}

abbrev pub Address : Type 0
Address = List ℕ

abbrev pub is_among : Address → List Address → Bool
is_among addr [] = false
is_among addr (a ∷ rest) = if a == addr then true else is_among addr rest

-- `rr_index` is the uint64's pattern.
pub record Client : Type 0 where
  pub endpoints : List Address
  pub conns : List Address
  pub leader : Address
  pub rr_index : ℕ

-- What a client asks of gRPC: a connection, `Info`, or the request at hand.
pub data Call : Type 0 where
  dials asks requests : Address → Call

pub data Reply {ℓ} (A : Type ℓ) : Type ℓ where
  succeeds : A → Reply A
  fails : Error → Reply A

-- gRPC and the nodes behind it: each call's outcome, by what was called before it.
pub record Network {ℓ} (A : Type ℓ) : Type ℓ where
  pub dial : List Call → Address → Option Error
  pub info : List Call → Address → Reply InfoResponse
  pub request : List Call → Address → Reply A

-- A client, and what was called so far, the latest call first.
pub record World : Type 0 where
  pub client : Client
  pub calls : List Call

abbrev pub called : Call → World → World
called call w = record w { calls = call ∷ w.calls }

abbrev pub set_leader : Address → World → World
set_leader addr w = record w { client = record w.client { leader = addr } }

-- `conn`, without the connection itself.
unfoldable pub conn {ℓ} : {A : Type ℓ} → Network A → Address → World → Option Error × World
conn net addr w = if is_among addr w.client.conns then (none, w) else elim (net.dial w.calls addr) [
  | some e ↦ (some e, called (dials addr) w)
  | none ↦ (
    none,
    called (dials addr) (record w { client = record w.client { conns = addr ∷ w.client.conns } }),
  )
]

-- One call of one node: no connection, or its reply.
pub data Trial {ℓ} (A : Type ℓ) : Type ℓ where
  unreached : Error → Trial A
  replied : Reply A → Trial A

unfoldable pub ask {ℓ} : {A : Type ℓ} → Network A → Address → World → Trial InfoResponse × World
unfolding conn
ask net addr w =
    let (e, w') = conn net addr w in
    elim e [
      | some e ↦ (unreached e, w')
      | none ↦ (replied (net.info w'.calls addr), called (asks addr) w')
    ]

unfoldable pub request_of {ℓ} : {A : Type ℓ} → Network A → Address → World → Trial A × World
unfolding conn
request_of net addr w =
    let (e, w') = conn net addr w in
    elim e [
      | some e ↦ (unreached e, w')
      | none ↦ (replied (net.request w'.calls addr), called (requests addr) w')
    ]

-- `k % n` on Go's int as an index: a negative one is out of range.
abbrev pub slot : Int64 → ℕ → Option ℕ
slot k n = if ltb k (2 ^ 63) then some (k % n) else if (2 ^ 64 - k) % n == 0 then some 0 else none

-- `c.endpoints[(start+i)%len(c.endpoints)]`
unfoldable pub endpoint_at : List Address → Int64 → ℕ → Option Address
endpoint_at endpoints start i = elim (slot (Int64.add start i) (length endpoints)) [
  | none ↦ none
  | some k ↦ get_elem? endpoints k
]

abbrev pub next_start : World → World
next_start w = record w { client = record w.client { rr_index = Int64.add w.client.rr_index 1 } }

unfoldable pub pick_endpoint : World → Option (Address × World)
unfolding endpoint_at
pick_endpoint w = elim (endpoint_at w.client.endpoints w.client.rr_index 0) [
  | none ↦ none
  | some addr ↦ some (addr, next_start w)
]

-- What a loop over the nodes makes of one node's reply: it is done, or keeps an error and goes on.
pub data Verdict {ℓ} (R : Type ℓ) : Type ℓ where
  stops : R → Verdict R
  passes : Option Error → Verdict R

abbrev pub newer : Option Error → Option Error → Option Error
newer last none = last
newer last (some e) = some e

pub data Scanned {ℓ} (R : Type ℓ) : Type ℓ where
  found : R → Scanned R
  exhausted : Option Error → Scanned R

-- `for i := 0; i < len(c.endpoints); i++`, with the turns left counted down.
module _ {ℓ κ} {T : Type ℓ} {R : Type κ} (try_node : Address → World → T × World)
    (judge : T → Verdict R) (start : Int64) where
  unfoldable pub scan : ℕ → ℕ → Option Error → World → Option (Scanned R × World)
  scan i zero last w = some (exhausted last, w)
  scan i (suc left) last w = elim (endpoint_at w.client.endpoints start i) [
    | none ↦ none
    | some addr ↦
        (let (t, w') = try_node addr w in
          elim (judge t) [
            | stops r ↦ some (found r, w')
            | passes e ↦ scan (i + 1) left (newer last e) w'
          ])
  ]

unfoldable pub scan_endpoints {ℓ κ} :
    {T : Type ℓ} {R : Type κ}
    → (Address → World → T × World)
    → (T → Verdict R)
    → World
    → Option (Scanned R × World)
scan_endpoints try_node judge w =
    scan try_node judge w.client.rr_index 0 (length w.client.endpoints) none (next_start w)
