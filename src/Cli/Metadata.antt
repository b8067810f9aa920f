-- ===== src/Cli/Metadata.antt =====
-- The metadata of an instance, written out and parsed again (distconf/cmd/distconf/cli.go: parseMeta).
use repository.Base.{
  ℕ, ◌≡◌, refl, ap, ◌∙◌, false, List, [], ◌∷◌, ◌++◌, All, All-append, if◌then◌else◌, ◌==◌,
  nat_comparable, bytes_comparable,
}
use repository.Base.Dict.{Dict, store}
use repository.Cli.{comma, equals, split, is_space, is_empty, cut}
use repository.Cli.Commands.{add_meta, parse_metas, parse_meta}
use repository.Cli.Peers.{
  Spaceless, Without, trim_space-Spaceless, split-last, split-append, cut-append,
}

-- A key and a value as they can be written: no separator in the key, which is not empty, and no comma
-- or space in the value.
pub record Pair : Type 0 where
  pub first : ℕ
  pub rest : List ℕ
  pub value : List ℕ

abbrev pub key : Pair → List ℕ
key p = p.first ∷ p.rest

pub record IsPair (p : Pair) : Type 0 where
  pub key_spaceless : Spaceless (key p)
  pub key_comma : Without comma (key p)
  pub key_equals : Without equals (key p)
  pub value_spaceless : Spaceless p.value
  pub value_comma : Without comma p.value

abbrev pub item : Pair → List ℕ
item p = key p ++ equals ∷ p.value

abbrev pub written : Pair → List Pair → List ℕ
written p [] = item p
written p (q ∷ ps) = item p ++ comma ∷ written q ps

abbrev pub assigned : Dict (List ℕ) (List ℕ) → List Pair → Dict (List ℕ) (List ℕ)
assigned m [] = m
assigned m (p ∷ ps) = assigned (store (key p) p.value m) ps

module _ (p : Pair) (h : IsPair p) where
  item-Spaceless : Spaceless (item p)
  item-Spaceless =
      All-append (λ c. is_space c ≡ false) (key p) (equals ∷ p.value) h.key_spaceless
        (refl, h.value_spaceless)

  item-Without : Without comma (item p)
  item-Without =
      All-append (λ c. (c == comma) ≡ false) (key p) (equals ∷ p.value) h.key_comma
        (refl, h.value_comma)

  -- One item of the list sets its key.
  parse_metas-item :
      (m : Dict (List ℕ) (List ℕ)) (kvs : List (List ℕ))
      → parse_metas m (item p ∷ kvs) ≡ parse_metas (store (key p) p.value m) kvs
  unfolding parse_metas
  parse_metas-item m kvs =
      ap
        (λ s. if is_empty s then parse_metas m kvs else parse_metas (add_meta (cut equals s) m) kvs)
        (trim_space-Spaceless (item p) item-Spaceless)
      ∙ ap (λ o. parse_metas (add_meta o m) kvs) (cut-append (key p) p.value h.key_equals)

parse_metas-written :
    (m : Dict (List ℕ) (List ℕ)) (p : Pair) (ps : List Pair)
    → All IsPair (p ∷ ps)
    → parse_metas m (split comma (written p ps)) ≡ assigned m (p ∷ ps)
unfolding parse_metas
parse_metas-written m p [] h =
    ap (parse_metas m) (split-last (item p) (item-Without p h.0)) ∙ parse_metas-item p h.0 m []
parse_metas-written m p (q ∷ ps) h =
    ap (parse_metas m) (split-append (item p) (written q ps) (item-Without p h.0))
    ∙ parse_metas-item p h.0 m (split comma (written q ps))
    ∙ parse_metas-written (store (key p) p.value m) q ps h.1

is_empty-written : (p : Pair) (ps : List Pair) → is_empty (written p ps) ≡ false
is_empty-written p [] = refl
is_empty-written p (q ∷ ps) = refl

-- Metadata written as `k=v,...` parses to the map of these pairs, a later value in place of an earlier
-- one, if no key is empty and no separator stands in the texts; a value may have `=` in it.
pub parse_meta-written :
    (p : Pair) (ps : List Pair)
    → All IsPair (p ∷ ps)
    → parse_meta (written p ps) ≡ assigned [] (p ∷ ps)
unfolding parse_meta
parse_meta-written p ps h =
    ap (λ b. if b then [] else parse_metas [] (split comma (written p ps))) (is_empty-written p ps)
    ∙ parse_metas-written [] p ps h
