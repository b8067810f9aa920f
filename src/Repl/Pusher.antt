-- ===== src/Repl/Pusher.antt =====
-- The leader's side of a follower's stream (distconf/internal/repl/stream.go: PeerManager): whose stream
-- it is, what it receives, and the goroutine that sends. One call of `push` is one step of that goroutine
-- between two calls on the leader.
pub mod Sends
pub mod Genuine
pub mod Run
pub mod Keeps
pub mod Ready
pub mod Wakes
use repository.Base.{
  ℕ, zero, suc, Bool, true, false, List, [], ◌∷◌, ◌++◌, map, Option, none, some, length,
  if◌then◌else◌, ◌==◌, nat_comparable,
}
use repository.Base.Int64.{Int64}
use repository.Base.Int64
use repository.Base.Dict.{Dict, find, store, erase}
use repository.Proto.{LogEntry, Payload, entry, AppendEntriesResponse}
use repository.Repl.Leader.{Leader, last_index, follower_ack, follower_reset}
use repository.Repl.Catchup.{catchup, catchup_messages, entries_after}
use repository.Repl.Broadcaster.{Broadcaster, subscribe, unsubscribe, notify}

-- The streams of the followers: each `peerSender` by a number of its own.
abbrev pub PeerManager : Type 0
PeerManager = Dict ℕ ℕ

abbrev pub enter : PeerManager → ℕ → ℕ → PeerManager
enter peers id sender = store id sender peers

-- The deferred end of `HandleStreamWithInitial`: a stream that was replaced by a newer one of its follower
-- leaves that one's progress alone.
unfoldable pub leave : PeerManager → Leader → ℕ → ℕ → PeerManager × Leader
leave peers l id sender = elim (find id peers) [
  | none ↦ (peers, l)
  | some now ↦ if now == sender then (erase id peers, follower_reset l id) else (peers, l)
]

abbrev pub online_count : PeerManager → ℕ
online_count peers = length peers

-- The receiving goroutine: whether it still waits for the first message, and what that gave to the
-- other one.
pub record Receiver : Type 0 where
  pub waits_first : Bool
  pub initial : Option Int64

-- `initial_ack` of -1 stands for a first message that is not read yet.
abbrev pub receiver : Int64 → Receiver
receiver initial_ack =
    if Int64.le 0 initial_ack
    then record { waits_first = false; initial = some initial_ack }
    else record { waits_first = true; initial = none }

unfoldable pub receive_ack : Receiver → Leader → AppendEntriesResponse → Receiver × Leader
unfolding follower_ack
receive_ack r l resp =
    if r.waits_first
    then (record { waits_first = false; initial = some resp.ack_index }, l)
    else (r, follower_ack l resp.follower_id resp.ack_index)

-- What is left to do once some messages are sent: to read the position, with the subscription if there
-- is one, or to compare it with what was sent.
pub data After : Type 0 where
  reads_position : Option Int64 → After
  has_sent : Int64 → Int64 → After

-- Where the sending goroutine stands, with its subscription's id and the position `last`.
pub data Phase : Type 0 where
  waiting_first finished : Phase
  catching_up : Option Int64 → Int64 → Phase
  sending : List Payload → After → Phase
  positioning : Option Int64 → Phase
  subscribing : Int64 → Phase
  idle checking : Int64 → Int64 → Phase
  fetched : Int64 → Int64 → Int64 → Phase

abbrev pub sub_after : After → Option Int64
sub_after (reads_position sub) = sub
sub_after (has_sent id li) = some id

abbrev pub sub_of : Phase → Option Int64
sub_of waiting_first = none
sub_of finished = none
sub_of (catching_up sub last) = sub
sub_of (sending ms next) = sub_after next
sub_of (positioning sub) = sub
sub_of (subscribing last) = none
sub_of (idle id last) = some id
sub_of (checking id last) = some id
sub_of (fetched id last li) = some id

-- `rounds` is how many signals it has taken, `sent` what it has sent.
pub record Pusher : Type 0 where
  pub initial : Option Int64
  pub phase : Phase
  pub rounds : ℕ
  pub sent : List Payload

abbrev pub start : Pusher
start = record { initial = none; phase = waiting_first; rounds = 0; sent = [] }

-- The leader with the signals to its streams, and how many proposals are appended but not signalled.
pub record Source : Type 0 where
  pub leader : Leader
  pub ping : Broadcaster
  pub unannounced : ℕ

-- A step: a send succeeds or fails, or the leader's stop is noticed.
pub data Action : Type 0 where
  goes fails stops : Action

pub data Push : Type 0 where
  blocked panicked : Push
  moves : Source → Pusher → Push

abbrev pub to_phase : Pusher → Phase → Pusher
to_phase p phase = record p { phase = phase }

-- The goroutine returns, with its deferred removal of the subscription.
abbrev pub drop_sub : Option Int64 → Source → Source
drop_sub none w = w
drop_sub (some id) w = record w { ping = unsubscribe w.ping id }

abbrev pub finish : Source → Pusher → Push
finish w p = moves (drop_sub (sub_of p.phase) w) (to_phase p finished)

-- The stop is among what a goroutine waits for.
abbrev pub stop_or : Action → Source → Pusher → Push → Push
stop_or stops w p other = if w.leader.stopped then finish w p else blocked
stop_or goes w p other = other
stop_or fails w p other = other

abbrev pub push_first : Source → Pusher → Push
push_first w p = elim p.initial [
  | none ↦ blocked
  | some last ↦ moves w (to_phase p (catching_up none last))
]

-- The call of `Catchup`.
abbrev pub push_catchup : Source → Pusher → Option Int64 → Int64 → Push
push_catchup w p sub last = elim (catchup w.leader last) [
  | none ↦ panicked
  | some r ↦ moves w (to_phase p (sending (catchup_messages r) (reads_position sub)))
]

abbrev pub push_after : Source → Pusher → After → Push
push_after w p (reads_position sub) = moves w (to_phase p (positioning sub))
push_after w p (has_sent id li) = moves w (to_phase p (checking id li))

abbrev pub push_message : Action → Source → Pusher → List Payload → After → Push
push_message a w p [] next = push_after w p next
push_message fails w p (m ∷ ms) next = finish w p
push_message goes w p (m ∷ ms) next =
    moves w (record p { phase = sending ms next; sent = p.sent ++ m ∷ [] })
push_message stops w p (m ∷ ms) next =
    moves w (record p { phase = sending ms next; sent = p.sent ++ m ∷ [] })

-- `last = pm.leader.LastIndex()`
abbrev pub push_position : Source → Pusher → Option Int64 → Push
push_position w p none = moves w (to_phase p (subscribing (last_index w.leader)))
push_position w p (some id) = moves w (to_phase p (checking id (last_index w.leader)))

abbrev pub push_subscribe : Source → Pusher → Int64 → Push
push_subscribe w p last =
    let (id, ping) = subscribe w.ping in
    moves (record w { ping = ping }) (to_phase p (idle id last))

-- A signal is taken from the channel.
abbrev pub take_signal : Source → Pusher → Int64 → Int64 → Option Bool → Push
take_signal w p id last (some true) =
    moves (record w { ping = record w.ping { subs = store id false w.ping.subs } })
      (record p { phase = checking id last; rounds = suc p.rounds })
take_signal w p id last (some false) = blocked
take_signal w p id last none = blocked

-- `li := pm.leader.LastIndex()`
abbrev pub push_check : Source → Pusher → Int64 → Int64 → Push
push_check w p id last =
    let li = last_index w.leader in
    moves w (to_phase p (if Int64.le li last then idle id last else fetched id last li))

abbrev pub push_entries : Source → Pusher → Int64 → Int64 → Int64 → Push
push_entries w p id last li = elim (entries_after w.leader last) [
  | none ↦ panicked
  | some none ↦ moves w (to_phase p (catching_up (some id) last))
  | some (some entries) ↦ moves w (to_phase p (sending (map entry entries) (has_sent id li)))
]

unfoldable pub push : Action → Source → Pusher → Push
unfolding find
push a w p = elim p.phase [
  | waiting_first ↦ stop_or a w p (push_first w p)
  | catching_up sub last ↦ push_catchup w p sub last
  | sending ms next ↦ push_message a w p ms next
  | positioning sub ↦ push_position w p sub
  | subscribing last ↦ push_subscribe w p last
  | idle id last ↦ stop_or a w p (take_signal w p id last (find id w.ping.subs))
  | checking id last ↦ push_check w p id last
  | fetched id last li ↦ push_entries w p id last li
  | finished ↦ blocked
]
