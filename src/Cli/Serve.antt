-- ===== src/Cli/Serve.antt =====
-- The configuration of a node from its flags (distconf/cmd/distconf/main.go: runServe, up to NewNode).
use repository.Base.{
  ℕ, ◌%◌, ◌^◌, ◌<◌, ◌≡◌, ◌≢◌, refl, ap, ◌∙◌, All, true, List, [], ◌∷◌, ◌++◌, Option, none, some,
  arith, if◌then◌else◌, ◌==◌, nat_comparable, codes,
}
use repository.Base.Int64.{Int64}
use repository.Base.Int64
use repository.Base.Dict.{Dict, store}
use repository.Cli.Peers.{Peer, IsPeer, written, assigned, parse_peers-written}
use repository.Cli.{is_empty, to_int32, Parsed, bad_spec, bad_id, parse_peers}

-- The flags, each with its value from the command line or the environment.
pub record Flags : Type 0 where
  pub node_id : Int64
  pub listen : List ℕ
  pub advertise : List ℕ
  pub leader_id : Int64
  pub peers_spec : List ℕ

pub record NodeConfig : Type 0 where
  pub node_id : ℕ
  pub listen_addr : List ℕ
  pub advertise_addr : List ℕ
  pub leader_id : ℕ
  pub peers : Dict ℕ (List ℕ)

pub data Served : Type 0 where
  starts : NodeConfig → Served
  no_node_id : Served
  bad_peers : Parsed → Served

-- `listen[i+1:]` for the last colon, or all of it.
unfoldable pub after_colon : List ℕ → Option (List ℕ)
after_colon [] = none
after_colon (c ∷ s) = elim (after_colon s) [
  | some t ↦ some t
  | none ↦ if c == 58 then some s else none
]

abbrev pub port_of : List ℕ → List ℕ
port_of listen = elim (after_colon listen) [ none ↦ listen | some port ↦ port ]

abbrev pub advertised : Flags → List ℕ
advertised f = if is_empty f.advertise then codes "127.0.0.1:" ++ port_of f.listen else f.advertise

abbrev pub peers_or_self : Flags → Dict ℕ (List ℕ) → Dict ℕ (List ℕ)
peers_or_self f [] = (to_int32 f.node_id, advertised f) ∷ []
peers_or_self f (p ∷ ps) = p ∷ ps

abbrev pub config_of : Flags → Parsed → Served
config_of f (bad_spec e) = bad_peers (bad_spec e)
config_of f (bad_id e) = bad_peers (bad_id e)
config_of f (Parsed.peers m) = starts record {
  node_id = to_int32 f.node_id;
  listen_addr = f.listen;
  advertise_addr = advertised f;
  leader_id = to_int32 f.leader_id;
  peers = peers_or_self f m;
}

unfoldable pub run_serve : Flags → Served
unfolding parse_peers
run_serve f = if Int64.lt 0 f.node_id then config_of f (parse_peers f.peers_spec) else no_node_id

store_nonempty : (k : ℕ) (v : List ℕ) (m : Dict ℕ (List ℕ)) → store k v m ≢ []
unfolding store
store_nonempty k v [] = λ e. cc
store_nonempty k v ((j, w) ∷ m) = λ e. ground (arith, e)

assigned_nonempty : (out : Dict ℕ (List ℕ)) (ps : List Peer) → out ≢ [] → assigned out ps ≢ []
assigned_nonempty out [] h = h
assigned_nonempty out (p ∷ ps) h =
    assigned_nonempty (store (to_int32 p.id) p.address out) ps
      (store_nonempty (to_int32 p.id) p.address out)

given_peers : (f : Flags) (m : Dict ℕ (List ℕ)) → m ≢ [] → peers_or_self f m ≡ m
given_peers f [] h = absurd (h refl)
given_peers f (p ∷ ps) h = refl

-- A node that is started with a positive id from a list of peers as it is written out has exactly these
-- peers in its configuration, and its two ids as the flags give them, cut to 32 bits.
pub run_serve-written :
    (f : Flags) (p : Peer) (ps : List Peer)
    → 0 < f.node_id
    → f.node_id < 2 ^ 63
    → All IsPeer (p ∷ ps)
    → f.peers_spec ≡ written p ps
    → run_serve f
      ≡ starts record {
        node_id = f.node_id % 2 ^ 32;
        listen_addr = f.listen;
        advertise_addr = advertised f;
        leader_id = f.leader_id % 2 ^ 32;
        peers = assigned [] (p ∷ ps);
      }
unfolding run_serve
run_serve-written f p ps positive small h given =
    let test : Int64.lt 0 f.node_id ≡ true = ground (arith, positive, small) in
    let kept = given_peers f (assigned [] (p ∷ ps)) (
      assigned_nonempty (store (to_int32 p.id) p.address []) ps
        (store_nonempty (to_int32 p.id) p.address [])) in
    ap (λ b. if b then config_of f (parse_peers f.peers_spec) else no_node_id) test
    ∙ ap (λ s. config_of f (parse_peers s)) given
    ∙ ap (config_of f) (parse_peers-written p ps h)
    ∙ ap
        (λ m. starts record {
          node_id = to_int32 f.node_id;
          listen_addr = f.listen;
          advertise_addr = advertised f;
          leader_id = to_int32 f.leader_id;
          peers = m;
        })
        kept
