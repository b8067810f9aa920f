-- ===== src/Base/Slices.antt =====
-- Laws of `take`, `drop` and `get_elem?` on lists measured by native numbers.
use Prim.Native.Nat.{ℕ, zero, suc, ◌+◌, ◌-◌, ◌≤◌}
use mathlib.Core.Path.{◌≡◌, refl, ap, sym, ◌∙◌}
use mathlib.Core.List.{List, [], ◌∷◌, ◌++◌}
use mathlib.Core.Option.{some}
use native.Mathlib.Omega.{arith}
use repository.Base.Lists.{length, get_elem?, take, drop}

module _ {ℓ} {A : Type ℓ} where
  pub length-drop : (n : ℕ) (xs : List A) → length (drop n xs) ≡ length xs - n
  length-drop zero xs = omega arith
  length-drop (suc n) [] = omega arith
  length-drop (suc n) (x ∷ xs) = omega (arith, length-drop n xs)

  pub drop-append :
      (n : ℕ) (xs : List A) (a : A) → n ≤ length xs → drop n (xs ++ a ∷ []) ≡ drop n xs ++ a ∷ []
  drop-append zero xs a h = refl
  drop-append (suc n) [] a h = absurd (omega arith)
  drop-append (suc n) (x ∷ xs) a h = drop-append n xs a (omega arith)

  pub take-append :
      (n : ℕ) (xs : List A) (a : A) → n ≤ length xs → take n (xs ++ a ∷ []) ≡ take n xs
  take-append zero xs a h = refl
  take-append (suc n) [] a h = absurd (omega arith)
  take-append (suc n) (x ∷ xs) a h = ap (◌∷◌ x) (take-append n xs a (omega arith))

  pub get_elem?-drop :
      (c k : ℕ) (xs : List A) → c ≤ k → get_elem? (drop c xs) (k - c) ≡ get_elem? xs k
  get_elem?-drop zero k xs h = ap (get_elem? xs) (omega arith)
  get_elem?-drop (suc c) zero xs h = absurd (omega arith)
  get_elem?-drop (suc c) (suc k) [] h = refl
  get_elem?-drop (suc c) (suc k) (x ∷ xs) h =
      ap (get_elem? (drop c xs)) (omega arith) ∙ get_elem?-drop c k xs (omega arith)

  pub take-suc :
      (k : ℕ) (xs : List A) (a : A)
      → get_elem? xs k ≡ some a
      → take (suc k) xs ≡ take k xs ++ a ∷ []
  take-suc zero [] a h = cc
  take-suc zero (x ∷ xs) a h = ground arith
  take-suc (suc k) [] a h = cc
  take-suc (suc k) (x ∷ xs) a h = ap (◌∷◌ x) (take-suc k xs a h)

  pub drop-nil : (n : ℕ) → ◌≡◌ {A = List A} (drop n []) []
  drop-nil zero = refl
  drop-nil (suc n) = refl

  pub drop-drop : (a b : ℕ) (xs : List A) → drop a (drop b xs) ≡ drop (b + a) xs
  drop-drop a zero xs = let e : a ≡ zero + a = omega arith in ap (λ n. drop n xs) e
  drop-drop a (suc b) [] = drop-nil a ∙ sym (drop-nil (suc b + a))
  drop-drop a (suc b) (x ∷ xs) =
      let e : suc (b + a) ≡ suc b + a = omega arith in
      drop-drop a b xs ∙ ap (λ n. drop n (x ∷ xs)) e

  pub drop-length : (xs : List A) → drop (length xs) xs ≡ []
  drop-length [] = refl
  drop-length (x ∷ xs) = drop-length xs

  pub take-length : (xs : List A) → take (length xs) xs ≡ xs
  take-length [] = refl
  take-length (x ∷ xs) = ap (◌∷◌ x) (take-length xs)
