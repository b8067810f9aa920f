-- ===== src/Cli/Peers.antt =====
-- The peers of a node, written out and parsed again (distconf/cmd/distconf/main.go: parsePeers).
use repository.Base.{
  ℕ, ◌≡◌, refl, ap, ◌∙◌, true, false, List, [], ◌∷◌, ◌++◌, none, some, All, All-append, arith,
  if◌then◌else◌, ◌==◌, nat_comparable,
}
use repository.Base.Int64.{Int64}
use repository.Base.Dict.{Dict, store}
use repository.Cli.{
  comma, equals, split, is_space, is_empty, trim_left, trim_right, trim_space, cut, atoi, to_int32,
  peers, bad_spec, bad_id, parse_peer, parse_items, parse_peers,
}

abbrev pub Spaceless : List ℕ → Type 0
Spaceless s = All (λ c. is_space c ≡ false) s

abbrev pub Without : ℕ → List ℕ → Type 0
Without sep s = All (λ c. (c == sep) ≡ false) s

pub record Peer : Type 0 where
  pub digits : List ℕ
  pub id : Int64
  pub address : List ℕ

-- A peer whose id reads as its digits say, and whose texts have none of the separators in them.
pub record IsPeer (p : Peer) : Type 0 where
  pub reads : atoi p.digits ≡ some p.id
  pub digits_spaceless : Spaceless p.digits
  pub digits_comma : Without comma p.digits
  pub digits_equals : Without equals p.digits
  pub address_spaceless : Spaceless p.address
  pub address_comma : Without comma p.address

abbrev pub item : Peer → List ℕ
item p = p.digits ++ equals ∷ p.address

abbrev pub written : Peer → List Peer → List ℕ
written p [] = item p
written p (q ∷ ps) = item p ++ comma ∷ written q ps

-- The map that has each peer under its id as an int32, a later one in place of an earlier one.
abbrev pub assigned : Dict ℕ (List ℕ) → List Peer → Dict ℕ (List ℕ)
assigned out [] = out
assigned out (p ∷ ps) = assigned (store (to_int32 p.id) p.address out) ps

trim_left-Spaceless : (s : List ℕ) → Spaceless s → trim_left s ≡ s
unfolding trim_left
trim_left-Spaceless [] h = refl
trim_left-Spaceless (c ∷ s) h = ground (arith, h.0)

trim_right-Spaceless : (s : List ℕ) → Spaceless s → trim_right s ≡ s
unfolding trim_right
trim_right-Spaceless [] h = refl
trim_right-Spaceless (c ∷ s) h = ground (arith, h.0, trim_right-Spaceless s h.1)

pub trim_space-Spaceless : (s : List ℕ) → Spaceless s → trim_space s ≡ s
trim_space-Spaceless s h = ap trim_right (trim_left-Spaceless s h) ∙ trim_right-Spaceless s h

pub split-last : (s : List ℕ) → Without comma s → split comma s ≡ s ∷ []
unfolding split
split-last [] h = refl
split-last (c ∷ s) h = ground (arith, h.0, split-last s h.1)

pub split-append :
    (s t : List ℕ) → Without comma s → split comma (s ++ comma ∷ t) ≡ s ∷ split comma t
unfolding split
split-append [] t h = refl
split-append (c ∷ s) t h = ground (arith, h.0, split-append s t h.1)

pub cut-append : (s t : List ℕ) → Without equals s → cut equals (s ++ equals ∷ t) ≡ some (s, t)
unfolding cut
cut-append [] t h = refl
cut-append (c ∷ s) t h = ground (arith, h.0, cut-append s t h.1)

pub is_empty-append : (s : List ℕ) (c : ℕ) (t : List ℕ) → is_empty (s ++ c ∷ t) ≡ false
is_empty-append [] c t = refl
is_empty-append (d ∷ s) c t = refl

module _ (p : Peer) (h : IsPeer p) where
  item-Spaceless : Spaceless (item p)
  item-Spaceless =
      All-append (λ c. is_space c ≡ false) p.digits (equals ∷ p.address) h.digits_spaceless
        (refl, h.address_spaceless)

  item-Without : Without comma (item p)
  item-Without =
      All-append (λ c. (c == comma) ≡ false) p.digits (equals ∷ p.address) h.digits_comma
        (refl, h.address_comma)

  parse_peer-item :
      (out : Dict ℕ (List ℕ))
      → parse_peer out (item p) (cut equals (item p)) ≡ peers (store (to_int32 p.id) p.address out)
  parse_peer-item out =
      ap (parse_peer out (item p)) (cut-append p.digits p.address h.digits_equals)
      ∙ ap
          (λ d. elim (atoi d) [
            | none ↦ bad_id p.digits
            | some n ↦ peers (store (to_int32 n) (trim_space p.address) out)
          ])
          (trim_space-Spaceless p.digits h.digits_spaceless)
      ∙ ap
          (λ o. elim o [
            | none ↦ bad_id p.digits
            | some n ↦ peers (store (to_int32 n) (trim_space p.address) out)
          ])
          h.reads
      ∙ ap (λ a. peers (store (to_int32 p.id) a out))
          (trim_space-Spaceless p.address h.address_spaceless)

  -- One item of the list sets its peer.
  parse_items-item :
      (out : Dict ℕ (List ℕ)) (rest : List (List ℕ))
      → parse_items out (item p ∷ rest) ≡ parse_items (store (to_int32 p.id) p.address out) rest
  unfolding parse_items
  parse_items-item out rest =
      ap
        (λ s. elim (is_empty s) [
          | true ↦ parse_items out rest
          | false ↦ elim (parse_peer out s (cut equals s)) [
            | bad_spec e ↦ bad_spec e
            | bad_id e ↦ bad_id e
            | peers out' ↦ parse_items out' rest
          ]
        ])
        (trim_space-Spaceless (item p) item-Spaceless)
      ∙ ap
          (λ b. elim b [
            | true ↦ parse_items out rest
            | false ↦ elim (parse_peer out (item p) (cut equals (item p))) [
              | bad_spec e ↦ bad_spec e
              | bad_id e ↦ bad_id e
              | peers out' ↦ parse_items out' rest
            ]
          ])
          (is_empty-append p.digits equals p.address)
      ∙ ap
          (λ q. elim q [
            | bad_spec e ↦ bad_spec e
            | bad_id e ↦ bad_id e
            | peers out' ↦ parse_items out' rest
          ])
          (parse_peer-item out)

written-Spaceless : (p : Peer) (ps : List Peer) → All IsPeer (p ∷ ps) → Spaceless (written p ps)
written-Spaceless p [] h = item-Spaceless p h.0
written-Spaceless p (q ∷ ps) h =
    All-append (λ c. is_space c ≡ false) (item p) (comma ∷ written q ps) (item-Spaceless p h.0)
      (refl, written-Spaceless q ps h.1)

parse_items-written :
    (out : Dict ℕ (List ℕ)) (p : Peer) (ps : List Peer)
    → All IsPeer (p ∷ ps)
    → parse_items out (split comma (written p ps)) ≡ peers (assigned out (p ∷ ps))
unfolding parse_items
parse_items-written out p [] h =
    ap (parse_items out) (split-last (item p) (item-Without p h.0)) ∙ parse_items-item p h.0 out []
parse_items-written out p (q ∷ ps) h =
    ap (parse_items out) (split-append (item p) (written q ps) (item-Without p h.0))
    ∙ parse_items-item p h.0 out (split comma (written q ps))
    ∙ parse_items-written (store (to_int32 p.id) p.address out) q ps h.1

is_empty-written : (p : Peer) (ps : List Peer) → is_empty (written p ps) ≡ false
is_empty-written p [] = is_empty-append p.digits equals p.address
is_empty-written p (q ∷ ps) = is_empty-append (item p) comma (written q ps)

-- A list of peers written as `id=address,...` parses to the map of these peers, if each id reads as its
-- digits say and no separator stands in the digits and the addresses.
pub parse_peers-written :
    (p : Peer) (ps : List Peer)
    → All IsPeer (p ∷ ps)
    → parse_peers (written p ps) ≡ peers (assigned [] (p ∷ ps))
unfolding parse_peers
parse_peers-written p ps h =
    let trimmed = trim_space-Spaceless (written p ps) (written-Spaceless p ps h) in
    ap (λ s. if is_empty s then peers [] else parse_items [] (split comma s)) trimmed
    ∙ ap (λ b. if b then peers [] else parse_items [] (split comma (written p ps)))
        (is_empty-written p ps)
    ∙ parse_items-written [] p ps h
