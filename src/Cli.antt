-- ===== src/Cli.antt =====
-- The command line of a node and of the client (distconf/cmd/distconf: main.go, cli.go): what its texts
-- and flags mean.
pub mod Peers
pub mod Serve
pub mod Commands
pub mod Metadata
use repository.Base.{
  ℕ, zero, suc, ◌+◌, ◌-◌, ◌*◌, ◌%◌, ◌^◌, Bool, true, false, not, ◌&&◌, ◌||◌, String, List, [], ◌∷◌,
  ◌++◌, Option, none, some, map, select, if◌then◌else◌, ◌==◌, leb, ltb, nat_comparable,
  text_comparable, codes,
}
use repository.Base.Int64.{Int64}
use repository.Base.Dict.{Dict, store}

abbrev pub comma : ℕ
comma = 44

abbrev pub equals : ℕ
equals = 61

-- `strings.Split(s, sep)` for a `sep` of one code point.
abbrev pub prepend : ℕ → List (List ℕ) → List (List ℕ)
prepend c [] = (c ∷ []) ∷ []
prepend c (p ∷ ps) = (c ∷ p) ∷ ps

unfoldable pub split : ℕ → List ℕ → List (List ℕ)
split sep [] = [] ∷ []
split sep (c ∷ s) = let rest = split sep s in if c == sep then [] ∷ rest else prepend c rest

-- `unicode.IsSpace`, which `strings.TrimSpace` goes by.
abbrev pub is_space : ℕ → Bool
is_space c =
    (leb 9 c && leb c 13)
    || c == 32
    || c == 133
    || c == 160
    || c == 5760
    || (leb 8192 c && leb c 8202)
    || c == 8232
    || c == 8233
    || c == 8239
    || c == 8287
    || c == 12288

abbrev pub is_empty : List ℕ → Bool
is_empty [] = true
is_empty (c ∷ s) = false

unfoldable pub trim_left : List ℕ → List ℕ
trim_left [] = []
trim_left (c ∷ s) = let rest = trim_left s in if is_space c then rest else c ∷ s

unfoldable pub trim_right : List ℕ → List ℕ
trim_right [] = []
trim_right (c ∷ s) = let rest = trim_right s in if is_space c && is_empty rest then [] else c ∷ rest

abbrev pub trim_space : List ℕ → List ℕ
trim_space s = trim_right (trim_left s)

-- The text before and after the first `sep`; `none` without one.
abbrev pub before : ℕ → Option (List ℕ × List ℕ) → Option (List ℕ × List ℕ)
before c none = none
before c (some (a, b)) = some (c ∷ a, b)

unfoldable pub cut : ℕ → List ℕ → Option (List ℕ × List ℕ)
cut sep [] = none
cut sep (c ∷ s) = let rest = cut sep s in if c == sep then some ([], s) else before c rest

-- `strconv.Atoi` with an int of 64 bits.
unfoldable pub digits : ℕ → List ℕ → Option ℕ
digits n [] = some n
digits n (c ∷ s) =
    let rest = digits (n * 10 + (c - 48)) s in if leb 48 c && leb c 57 then rest else none

abbrev pub positive : Option ℕ → Option Int64
positive none = none
positive (some n) = if ltb n (2 ^ 63) then some n else none

abbrev pub negative : Option ℕ → Option Int64
negative none = none
negative (some n) = if leb n (2 ^ 63) then some ((2 ^ 64 - n) % 2 ^ 64) else none

abbrev pub digits_of : List ℕ → Option ℕ
digits_of [] = none
digits_of (c ∷ s) = digits 0 (c ∷ s)

unfoldable pub atoi : List ℕ → Option Int64
unfolding digits
atoi [] = none
atoi (c ∷ s) =
    if c == 45
    then negative (digits_of s)
    else if c == 43
    then positive (digits_of s)
    else positive (digits_of (c ∷ s))

-- `atoiOr`
abbrev atoi_or : List ℕ → Int64 → Int64
atoi_or s def = elim (atoi s) [ none ↦ def | some n ↦ n ]

-- `int32(n)` as its pattern.
abbrev pub to_int32 : Int64 → ℕ
to_int32 n = n % 2 ^ 32

-- `parsePeers`
pub data Parsed : Type 0 where
  peers : Dict ℕ (List ℕ) → Parsed
  bad_spec bad_id : List ℕ → Parsed

abbrev pub parse_peer : Dict ℕ (List ℕ) → List ℕ → Option (List ℕ × List ℕ) → Parsed
parse_peer out item none = bad_spec item
parse_peer out item (some (id, addr)) = elim (atoi (trim_space id)) [
  | none ↦ bad_id id
  | some n ↦ peers (store (to_int32 n) (trim_space addr) out)
]

unfoldable pub parse_items : Dict ℕ (List ℕ) → List (List ℕ) → Parsed
unfolding trim_left trim_right cut
parse_items out [] = peers out
parse_items out (item ∷ items) = elim (is_empty (trim_space item)) [
  | true ↦ parse_items out items
  | false ↦ elim (parse_peer out (trim_space item) (cut equals (trim_space item))) [
    | bad_spec e ↦ bad_spec e
    | bad_id e ↦ bad_id e
    | peers out' ↦ parse_items out' items
  ]
]

unfoldable pub parse_peers : List ℕ → Parsed
unfolding parse_items split
parse_peers spec =
    if is_empty (trim_space spec) then peers [] else parse_items [] (split comma (trim_space spec))
