-- ===== src/Witnesses/Clients.antt =====
-- The theorems on the client library at concrete inputs: a follower, the leader, and one client.
use repository.Base.{
  ℕ, ◌+◌, ◌*◌, ◌^◌, ◌≤◌, ◌<◌, ◌≡◌, ◌↔◌, refl, true, false, List, [], ◌∷◌, none, some, arith, codes,
  if◌then◌else◌,
}
use repository.Store.State.{StoreError, new}
use repository.Server.{
  Node, Failure, of_store, Status, rejects, without_hint, answer, done, Answer, PutRequest,
  handle_put, map_propose_error, with_leader_hint,
}
use repository.Base.Dict.{find}
use repository.Repl.Applier.{Applied, nothing}
use repository.Client.{is_among, Address, Network, World, Reply, succeeds, fails}
use repository.Client.Wire.{
  sentinel, rpc, plain, Plain, Sentinel, map_status, parse_leader_hint, seen_as, IsPlain,
  parse_leader_hint-with_leader_hint, map_status-with_leader_hint,
}
use repository.Client.Reads.{returns, raises, info}
use repository.Client.Writes.{put, register}
use repository.Client.Progress.{requests_in}
use repository.Client.Attempts.{Ends, writes_total}
use repository.Client.Redirect.{writes_reach_leader, store_errors_reach_caller}
use repository.Client.Lease.{
  lease_step, second, new_lease, new_lease-interval, Event, keep_alive, registering, ended,
  pause_ends, register_succeeds, heartbeat_fails, register_fails, stop, stopped, Occurs,
  keep_alive_caused,
}

abbrev follower : Node
follower = record {
  node_id = 2;
  leader_id = 1;
  is_leader = false;
  peers = (1, "a") ∷ (2, "b") ∷ [];
  st = new;
}

abbrev put_request : PutRequest
put_request = record {
  namespace = "app";
  key = "x";
  value = 7 ∷ [];
  ttl_ms = 0;
  expected_version = 0;
}

abbrev refusal : Status
refusal = map_propose_error follower Failure.not_leader

-- Node "a" answers 1, and every other node refuses.
abbrev reply_of : Address → Reply ℕ
reply_of addr = if is_among addr (codes "a" ∷ []) then succeeds 1 else fails (rpc refusal)

abbrev net : Network ℕ
net = record {
  dial = λ calls addr. none;
  info = λ calls addr. fails (plain Plain.other);
  request = λ calls addr. reply_of addr;
}

abbrev world : World
world = record {
  client = record {
    endpoints = codes "b" ∷ codes "a" ∷ [];
    conns = [];
    leader = codes "b";
    rr_index = 3;
  };
  calls = [];
}

IsPlain-address : IsPlain "10.0.0.1:9000"
IsPlain-address = (
  refl,
  (
    refl,
    (refl, (refl, (refl, (refl, (refl, (refl, (refl, (refl, (refl, (refl, (refl, tt))))))))))),
  ),
)

parse_leader_hint-with_leader_hint_example :
    parse_leader_hint (rpc (with_leader_hint Failure.no_quorum "10.0.0.1:9000"))
    ≡ codes "10.0.0.1:9000"
parse_leader_hint-with_leader_hint_example =
    parse_leader_hint-with_leader_hint Failure.no_quorum "10.0.0.1:9000" (λ text k. cc)
      IsPlain-address

map_status-with_leader_hint_example :
    map_status (rpc (with_leader_hint Failure.deadline_exceeded "a:1"))
    ≡ seen_as Failure.deadline_exceeded (with_leader_hint Failure.deadline_exceeded "a:1")
map_status-with_leader_hint_example =
    map_status-with_leader_hint Failure.deadline_exceeded "a:1" (refl, (refl, (refl, tt)))

writes_total_example : Ends 4 2 world (put net world) × Ends 4 2 world (register net world)
writes_total_example = writes_total net world (omega arith, omega arith)

refusal-eq : handle_put 1000 follower put_request ≡ rejects refusal
unfolding handle_put
refusal-eq = refl

writes_reach_leader_example :
    ((w' : World) × (put net world ≡ some (returns 1, w'))
      × (w'.client.leader ≡ codes "a")
      × (requests_in w'.calls ≡ 0 + 2))
    × ((w' : World) × (register net world ≡ some (returns 1, w'))
        × (w'.client.leader ≡ codes "a")
        × (requests_in w'.calls ≡ 0 + 2))
unfolding find
writes_reach_leader_example =
    writes_reach_leader net (λ calls a. refl) world (codes "b") refusal refl (λ e. cc)
      (λ calls. refl) 1000 follower put_request 1 refl refusal-eq (λ e. cc) (refl, tt)
      (λ calls. refl)

-- A leader whose log refuses the write.
abbrev conflict : Status
conflict = without_hint (of_store StoreError.cas_conflict)

abbrev refusing : Network ℕ
refusing = record net { request = λ calls addr. fails (rpc conflict) }

abbrev conflicted : Applied
conflicted = record nothing { error = some StoreError.cas_conflict }

conflict-eq : answer {A = ℕ} follower (λ r. 1) (done conflicted) ≡ Answer.refuses conflict
unfolding answer
conflict-eq = refl

store_errors_reach_caller_example :
    ((w' : World) × (put refusing world ≡ some (raises (some (sentinel Sentinel.cas_conflict)), w'))
      × (requests_in w'.calls ≡ 0 + 1))
    × ((w' : World) × (register refusing world
          ≡ some (raises (some (sentinel Sentinel.cas_conflict)), w'))
        × (requests_in w'.calls ≡ 0 + 1))
store_errors_reach_caller_example =
    store_errors_reach_caller refusing (λ calls a. refl) world (codes "b") conflict refl (λ e. cc)
      (λ calls. refl) follower (λ r. 1) conflicted StoreError.cas_conflict refl conflict-eq

new_lease-interval_example :
    (let l = new_lease 3000 in
      (0 < l.ttl)
      × (l.ttl < 2 ^ 63)
      × (second ≤ l.interval)
      × ((l.interval < l.ttl) ↔ (second < l.ttl))
      × ((3 * l.interval ≤ l.ttl) ↔ (3 * second ≤ l.ttl)))
new_lease-interval_example = new_lease-interval 3000

abbrev lease_events : List Event
lease_events =
    register_fails ∷ pause_ends ∷ register_succeeds ∷ heartbeat_fails ∷ register_succeeds ∷ stop
    ∷ []

lease_run : keep_alive (registering true) lease_events ≡ ended stopped
unfolding lease_step
lease_run = refl

keep_alive_caused_example : Occurs stopped lease_events
keep_alive_caused_example = keep_alive_caused lease_events stopped lease_run
