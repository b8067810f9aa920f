-- ===== src/Base/Text.antt =====
-- Go's strings as their code points, for code that looks inside them (package strings). A position that
-- is found in one only serves to cut it there, so it may count code points in place of bytes.
use Prim.Native.Char.{code}
use Prim.Native.Nat.{ℕ, suc}
use Prim.Native.String.{String}
use mathlib.Core.Path.{◌≡◌, refl}
use mathlib.Core.Bool.{Bool, true, false, ◌&&◌, ◌||◌}
use mathlib.Core.Option.{Option, none, some}
use mathlib.Core.List.{List, [], ◌∷◌}
use native.Mathlib.Omega.{arith}
use repository.Base.Tests.{if◌then◌else◌, ◌==◌, Comparable, nat_comparable}
use mathlib.Core.Logic.{◌↔◌}
use repository.Base.Lists.{All}

-- A text as its code points.
abbrev pub codes : String → List ℕ
codes String.[] = []
codes (String.◌∷◌ c s) = code c ∷ codes s

-- `strings.HasPrefix(s, prefix)`, with the prefix first.
unfoldable pub has_prefix : List ℕ → List ℕ → Bool
has_prefix [] s = true
has_prefix (c ∷ p) [] = false
has_prefix (c ∷ p) (d ∷ s) = (c == d) && has_prefix p s

abbrev pub next_position : Option ℕ → Option ℕ
next_position none = none
next_position (some i) = some (suc i)

-- `strings.Index(s, sub)`; `none` is -1.
unfoldable pub index : List ℕ → List ℕ → Option ℕ
unfolding has_prefix
index [] sub = if has_prefix sub [] then some 0 else none
index (c ∷ s) sub =
    let later = index s sub in if has_prefix sub (c ∷ s) then some 0 else next_position later

-- `strings.Contains(s, sub)`
abbrev pub contains : List ℕ → List ℕ → Bool
contains s sub = elim (index s sub) [ none ↦ false | some i ↦ true ]

abbrev pub is_one_of : List ℕ → ℕ → Bool
is_one_of [] c = false
is_one_of (d ∷ ds) c = (d == c) || is_one_of ds c

-- `strings.IndexAny(s, chars)`
unfoldable pub index_any : List ℕ → List ℕ → Option ℕ
index_any [] chars = none
index_any (c ∷ s) chars =
    let later = index_any s chars in if is_one_of chars c then some 0 else next_position later

pub index_any-none :
    (chars s : List ℕ) → All (λ c. is_one_of chars c ≡ false) s → index_any s chars ≡ none
unfolding index_any
index_any-none chars [] h = refl
index_any-none chars (c ∷ s) h = ground (arith, index_any-none chars s h.1)

abbrev pub same_text : List ℕ → List ℕ → Bool
same_text [] [] = true
same_text [] (d ∷ ds) = false
same_text (c ∷ cs) [] = false
same_text (c ∷ cs) (d ∷ ds) = if c == d then same_text cs ds else false

pub same_text_iff : (s t : List ℕ) → (same_text s t ≡ true) ↔ (s ≡ t)
same_text_iff [] [] = (λ e. refl, λ e. refl)
same_text_iff [] (d ∷ ds) = (λ e. absurd (ground arith), λ e. absurd (ground arith))
same_text_iff (c ∷ cs) [] = (λ e. absurd (ground arith), λ e. absurd (ground arith))
same_text_iff (c ∷ cs) (d ∷ ds) = ground (arith, same_text_iff cs ds)

instance abbrev pub bytes_comparable : Comparable (List ℕ)
bytes_comparable = record { agree = same_text; agree_iff = same_text_iff }
