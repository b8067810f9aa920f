-- ===== src/Repl/Follower.antt =====
-- The follower's side of the stream (stream.go: ApplyStream). A result of `none` is a panic of the
-- state machine.
pub mod Stream
pub mod Runner
pub mod Converges
use repository.Base.{
  ℕ, ◌+◌, ◌++◌, Bool, true, false, not, List, [], ◌∷◌, Option, none, some, if◌then◌else◌, ◌==◌,
  nat_comparable,
}
use repository.Base.Int64.{Int64}
use repository.Base.Int64
use repository.Proto.{Payload, unset, snapshot, entry, LogEntry, AppendEntriesResponse}
use repository.Store.State.{Store}
use repository.Repl.Applier.{apply_one, apply_snapshot, applied_index}

-- How the stream ends: the leader closed it, or an error.
pub data StreamError : Type 0 where
  non_contiguous : Int64 → Int64 → StreamError
  unknown_payload : StreamError

-- `sendAck`
abbrev pub ack : ℕ → Store → AppendEntriesResponse
ack id s = record { follower_id = id; ack_index = applied_index s; success = true }

-- What one message does: the store and whether it is acknowledged, or the error that ends the stream.
pub data Received : Type 0 where
  acknowledged : Store → Received
  duplicate : Received
  broken : StreamError → Received
  panicked : Received

abbrev pub received : Option Store → Received
received none = panicked
received (some s) = acknowledged s

abbrev pub state_of {ℓ} : {A : Type ℓ} → Option (A × Store) → Option Store
state_of none = none
state_of (some (r, s)) = some s

unfoldable pub receive : (Int64 → Int64) → Store → Payload → Received
receive clock s unset = broken unknown_payload
receive clock s (snapshot snap) = acknowledged (apply_snapshot s snap)
receive clock s (entry e) =
    let want : Int64 = Int64.add (applied_index s) 1 in
    if Int64.lt e.index want
    then duplicate
    else if not (e.index == want)
    then broken (non_contiguous e.index want)
    else received (state_of (apply_one (clock e.index) s e))

-- The loop over the messages of a stream that then ends: the store, the acknowledgements sent, and
-- the error, if one ended it early.
unfoldable pub receive_all :
    (Int64 → Int64)
    → ℕ
    → Store
    → List Payload
    → Option (Store × List AppendEntriesResponse × Option StreamError)
receive_all clock id s [] = some (s, [], none)
receive_all clock id s (p ∷ ps) = elim (receive clock s p) [
  | panicked ↦ none
  | broken e ↦ some (s, [], some e)
  | duplicate ↦ receive_all clock id s ps
  | acknowledged s' ↦ elim (receive_all clock id s' ps) [
    | none ↦ none
    | some (s'', acks, e) ↦ some (s'', ack id s' ∷ acks, e)
  ]
]

-- `ApplyStream`: the position is reported before the first message.
unfoldable pub apply_stream :
    (Int64 → Int64)
    → ℕ
    → Store
    → List Payload
    → Option (Store × List AppendEntriesResponse × Option StreamError)
unfolding receive_all
apply_stream clock id s ps = elim (receive_all clock id s ps) [
  | none ↦ none
  | some (s', acks, e) ↦ some (s', ack id s ∷ acks, e)
]
