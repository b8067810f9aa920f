-- ===== src/Cli/Commands.antt =====
-- The client's commands, up to their call of the client library (distconf/cmd/distconf/cli.go).
use repository.Base.{
  ℕ, Bool, not, ◌&&◌, ◌||◌, String, List, [], ◌∷◌, Option, none, some, map, select, if◌then◌else◌,
  ◌==◌, text_comparable, nat_comparable, bytes_comparable, codes,
}
use repository.Base.Int64.{Int64}
use repository.Base.Dict.{Dict, store}
use repository.Server.{PutRequest, DeleteRequest, HeartbeatRequest}
use repository.Client.{Address, Client}
use repository.Cli.{comma, equals, split, trim_space, trim_left, trim_right, is_empty, cut}

-- `newClient`, with `client.New`, which wants an endpoint.
unfoldable pub endpoints_of : List ℕ → List Address
unfolding split trim_left trim_right
endpoints_of v = select (λ e. not (is_empty e)) (map trim_space (split comma v))

abbrev pub new : List Address → Option Client
new [] = none
new (e ∷ es) = some record { endpoints = e ∷ es; conns = []; leader = []; rr_index = 0 }

abbrev pub new_client : List ℕ → Option Client
new_client v = new (endpoints_of v)

-- `parseMeta`: an item without `=`, or with nothing before it, is left out.
abbrev pub add_meta : Option (List ℕ × List ℕ) → Dict (List ℕ) (List ℕ) → List (List ℕ × List ℕ)
add_meta none m = m
add_meta (some ([], v)) m = m
add_meta (some (c ∷ k, v)) m = store (c ∷ k) v m

unfoldable pub parse_metas : Dict (List ℕ) (List ℕ) → List (List ℕ) → Dict (List ℕ) (List ℕ)
unfolding cut store trim_left trim_right
parse_metas m [] = m
parse_metas m (kv ∷ kvs) =
    if is_empty (trim_space kv)
    then parse_metas m kvs
    else parse_metas (add_meta (cut equals (trim_space kv)) m) kvs

unfoldable pub parse_meta : List ℕ → Dict (List ℕ) (List ℕ)
unfolding parse_metas split
parse_meta spec = if is_empty spec then [] else parse_metas [] (split comma spec)

-- The flags of the client's commands.
pub record Flags : Type 0 where
  pub ns : String
  pub key : String
  pub service : String
  pub id : String
  pub value : String
  pub ttl_ms : Int64
  pub expect_version : Int64
  pub from_seq : Int64
  pub address : String
  pub meta : String
  pub watch : Bool

-- What a command calls, or the error that it returns before.
pub data Action : Type 0 where
  watches : String → String → Int64 → Action
  watches_instances discovers : String → String → Action
  asks_info : Action
  puts : PutRequest → Action
  gets : String → String → Action
  deletes : DeleteRequest → Action
  registers : String → String → String → String → Dict (List ℕ) (List ℕ) → Int64 → Action
  heartbeats : HeartbeatRequest → Action
  wants_flags unknown_command : Action

abbrev pub cmd_put : Flags → Action
cmd_put f =
    if f.key == ""
    then wants_flags
    else puts record {
      namespace = f.ns;
      key = f.key;
      value = codes f.value;
      ttl_ms = f.ttl_ms;
      expected_version = f.expect_version;
    }

abbrev pub cmd_delete : Flags → Action
cmd_delete f = deletes record { namespace = f.ns; key = f.key; expected_version = f.expect_version }

abbrev pub cmd_register : Flags → Action
cmd_register f =
    if f.service == "" || f.id == "" || f.address == ""
    then wants_flags
    else registers f.ns f.service f.id f.address (parse_meta (codes f.meta)) f.ttl_ms

abbrev pub cmd_heartbeat : Flags → Action
cmd_heartbeat f = heartbeats record { namespace = f.ns; service = f.service; instance_id = f.id }

abbrev pub cmd_discover : Flags → Action
cmd_discover f = if f.service == "" then wants_flags else discovers f.ns f.service

-- The two switches of `runClient`, once there is a client.
unfoldable pub run_client : String → Flags → Action
unfolding parse_meta
run_client cmd f =
    if cmd == "watch"
    then watches f.ns f.key f.from_seq
    else if cmd == "discover" && f.watch
    then watches_instances f.ns f.service
    else if cmd == "info"
    then asks_info
    else if cmd == "put"
    then cmd_put f
    else if cmd == "get"
    then gets f.ns f.key
    else if cmd == "delete"
    then cmd_delete f
    else if cmd == "register"
    then cmd_register f
    else if cmd == "heartbeat"
    then cmd_heartbeat f
    else if cmd == "discover"
    then cmd_discover f
    else unknown_command
