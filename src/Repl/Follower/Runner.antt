-- ===== src/Repl/Follower/Runner.antt =====
-- The loop that keeps a follower connected (distconf/internal/repl/follower.go).
pub mod Based
use repository.Base.{ℕ, String, List, [], ◌∷◌, Option, none, some}
use repository.Base.Int64.{Int64}
use repository.Proto.{Payload}
use repository.Store.State.{Store}
use repository.Repl.Follower.{apply_stream, receive_all}

-- `retry_backoff` is in milliseconds.
pub record FollowerRunner : Type 0 where
  pub self_id : ℕ
  pub leader_addr : String
  pub retry_backoff : ℕ

abbrev pub new_follower_runner : ℕ → String → FollowerRunner
new_follower_runner self_id leader_addr = record {
  self_id = self_id;
  leader_addr = leader_addr;
  retry_backoff = 500;
}

-- One turn's connection: it is not made, or its stream is opened and gives some messages. A stream
-- whose acknowledgement cannot be sent gives no message after that.
pub data Connection : Type 0 where
  fails_to_open : Connection
  streams : List Payload → Connection

-- `FollowerRunner.once`: the store that it leaves.
unfoldable pub once : (Int64 → Int64) → FollowerRunner → Store → Connection → Option Store
unfolding apply_stream
once clock r s fails_to_open = some s
once clock r s (streams ps) = elim (apply_stream clock r.self_id s ps) [
  | none ↦ none
  | some (s', acks, e) ↦ some s'
]

-- `FollowerRunner.Run` until its context is done: the turns that it had.
unfoldable pub run : (Int64 → Int64) → FollowerRunner → Store → List Connection → Option Store
unfolding once
run clock r s [] = some s
run clock r s (c ∷ cs) = elim (once clock r s c) [ none ↦ none | some s' ↦ run clock r s' cs ]
