-- ===== src/Witnesses/Commands.antt =====
-- The theorems on the command line and on the admission of followers at concrete inputs.
use repository.Base.{
  ℕ, ◌%◌, ◌^◌, ◌≡◌, ◌≢◌, ◌↔◌, refl, true, [], ◌∷◌, Option, none, some, arith, codes, nat_comparable,
}
use repository.Base.Int64.{Int64}
use repository.Base.Dict.{find}
use repository.Store.State.{new}
use repository.Server.{Node}
use repository.Server.Cluster.{serves, call_append_entries}
use repository.Server.Cluster.Admits.{Authentic, call_append_entries_iff}
use repository.Cli.{atoi, digits, peers, parse_peers, trim_left, trim_right, trim_space}
use repository.Cli.Peers.{Peer, IsPeer, written, assigned, parse_peers-written}
use repository.Cli.Serve.{Flags, starts, advertised, run_serve, run_serve-written}
use repository.Cli.Metadata
use repository.Cli.Commands.{parse_meta}

abbrev peer_one : Peer
peer_one = record { digits = codes "1"; id = 1; address = codes "a:1" }

abbrev peer_two : Peer
peer_two = record { digits = codes "2"; id = 2; address = codes "b:1" }

peer_one-IsPeer : IsPeer peer_one
unfolding atoi digits
peer_one-IsPeer = record {
  reads = refl;
  digits_spaceless = (refl, tt);
  digits_comma = (refl, tt);
  digits_equals = (refl, tt);
  address_spaceless = (refl, (refl, (refl, tt)));
  address_comma = (refl, (refl, (refl, tt)));
}

peer_two-IsPeer : IsPeer peer_two
unfolding atoi digits
peer_two-IsPeer = record {
  reads = refl;
  digits_spaceless = (refl, tt);
  digits_comma = (refl, tt);
  digits_equals = (refl, tt);
  address_spaceless = (refl, (refl, (refl, tt)));
  address_comma = (refl, (refl, (refl, tt)));
}

parse_peers-written_example :
    parse_peers (written peer_one (peer_two ∷ [])) ≡ peers (assigned [] (peer_one ∷ peer_two ∷ []))
parse_peers-written_example =
    parse_peers-written peer_one (peer_two ∷ []) (peer_one-IsPeer, (peer_two-IsPeer, tt))

abbrev flags : Flags
flags = record {
  node_id = 2;
  listen = codes ":9000";
  advertise = [];
  leader_id = 1;
  peers_spec = codes "1=a:1,2=b:1";
}

run_serve-written_example :
    run_serve flags
    ≡ starts record {
      node_id = 2 % 2 ^ 32;
      listen_addr = codes ":9000";
      advertise_addr = advertised flags;
      leader_id = 1 % 2 ^ 32;
      peers = assigned [] (peer_one ∷ peer_two ∷ []);
    }
run_serve-written_example =
    run_serve-written flags peer_one (peer_two ∷ []) (omega arith) (omega arith)
      (peer_one-IsPeer, (peer_two-IsPeer, tt)) refl

abbrev zone : Metadata.Pair
zone = record { first = 122; rest = []; value = codes "k=1" }

zone-IsPair : Metadata.IsPair zone
zone-IsPair = record {
  key_spaceless = (refl, tt);
  key_comma = (refl, tt);
  key_equals = (refl, tt);
  value_spaceless = (refl, (refl, (refl, tt)));
  value_comma = (refl, (refl, (refl, tt)));
}

parse_meta-written_example :
    parse_meta (Metadata.written zone []) ≡ Metadata.assigned [] (zone ∷ [])
parse_meta-written_example = Metadata.parse_meta-written zone [] (zone-IsPair, tt)

-- An ideographic space and a no-break space are cut off, as `strings.TrimSpace` does.
trim_space-wide : trim_space (12288 ∷ 104 ∷ 160 ∷ []) ≡ 104 ∷ []
unfolding trim_left trim_right
trim_space-wide = refl

abbrev leader_node : Node
leader_node = record {
  node_id = 1;
  leader_id = 1;
  is_leader = true;
  peers = (1, "a") ∷ (2, "b") ∷ [];
  st = new;
}

call_append_entries_iff_example :
    (call_append_entries "t" (some ("t" ∷ [])) leader_node (some (2, 7)) ≡ serves 2 7) ↔ (
      Authentic "t" (some ("t" ∷ []))
      × (true ≡ true)
      × (◌≡◌ {A = Option (ℕ × Int64)} (some (2, 7)) (some (2, 7)))
      × (find 2 leader_node.peers ≢ none)
      × (◌≢◌ {A = ℕ} 2 1))
call_append_entries_iff_example =
    call_append_entries_iff "t" (some ("t" ∷ [])) leader_node (some (2, 7)) 2 7
