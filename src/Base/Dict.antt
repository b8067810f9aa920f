-- ===== src/Base/Dict.antt =====
-- Go's maps as association lists: a write keeps a key's place or adds it at the end.
use repository.Base.Tests.{if◌then◌else◌, ◌==◌, Comparable}
use mathlib.Core.Path.{◌≡◌, refl}
use mathlib.Core.Bool.{true}
use mathlib.Core.Logic.{◌≢◌}
use mathlib.Core.List.{List, [], ◌∷◌}
use mathlib.Core.Option.{Option, none, some}
use native.Mathlib.Omega.{arith}

abbrev pub Dict {ℓ κ} : Type ℓ → Type κ → Type (ℓ ⊔ κ)
Dict K V = List (K × V)

pub agree_refl {ℓ} : {K : Type ℓ} ⦃e : Comparable K⦄ (k : K) → (k == k) ≡ true
agree_refl ⦃e⦄ k = (e.agree_iff k k).1 refl

module _ {ℓ κ} {K : Type ℓ} {V : Type κ} ⦃e : Comparable K⦄ where
  -- `v, ok := m[k]`
  unfoldable pub find : K → Dict K V → Option V
  find k [] = none
  find k ((j, v) ∷ m) = if j == k then some v else find k m

  -- `m[k] = v`
  unfoldable pub store : K → V → Dict K V → Dict K V
  store k v [] = (k, v) ∷ []
  store k v ((j, w) ∷ m) = if j == k then (j, v) ∷ m else (j, w) ∷ store k v m

  -- `delete(m, k)`
  unfoldable pub erase : K → Dict K V → Dict K V
  erase k [] = []
  erase k ((j, v) ∷ m) = if j == k then erase k m else (j, v) ∷ erase k m

  -- `for k, v := range m { out[k] = v }`
  unfoldable pub copy_into : Dict K V → Dict K V → Dict K V
  copy_into out [] = out
  copy_into out ((k, v) ∷ m) = copy_into (store k v out) m

  -- No key stands twice.
  abbrev pub IsUnique : Dict K V → Type κ
  IsUnique [] = Unit
  IsUnique ((k, v) ∷ m) = (find k m ≡ none) × IsUnique m

  pub find-store :
      (k j : K) (v : V) (m : Dict K V)
      → find j (store k v m) ≡ (if k == j then some v else find j m)
  unfolding find store
  find-store k j v [] = refl
  find-store k j v ((i, w) ∷ m) =
      ground (arith, e.agree_iff k j, e.agree_iff i k, e.agree_iff i j, find-store k j v m)

  pub find-erase :
      (k j : K) (m : Dict K V) → find j (erase k m) ≡ (if k == j then none else find j m)
  unfolding find erase
  find-erase k j [] = ground arith
  find-erase k j ((i, w) ∷ m) =
      ground (arith, e.agree_iff k j, e.agree_iff i k, e.agree_iff i j, find-erase k j m)

  pub find-store_apart : (k j : K) (v : V) (m : Dict K V) → k ≢ j → find j (store k v m) ≡ find j m
  find-store_apart k j v m apart = ground (arith, find-store k j v m, e.agree_iff k j)

  pub find-erase_apart : (k j : K) (m : Dict K V) → k ≢ j → find j (erase k m) ≡ find j m
  find-erase_apart k j m apart = ground (arith, find-erase k j m, e.agree_iff k j)

  pub IsUnique-store : (k : K) (v : V) (m : Dict K V) → IsUnique m → IsUnique (store k v m)
  unfolding store find
  IsUnique-store k v [] u = (refl, tt)
  IsUnique-store k v ((i, w) ∷ m) u =
      ground (arith, e.agree_iff i k, e.agree_iff k i, find-store k i v m, IsUnique-store k v m u.1)

  pub IsUnique-erase : (k : K) (m : Dict K V) → IsUnique m → IsUnique (erase k m)
  unfolding erase
  IsUnique-erase k [] u = tt
  IsUnique-erase k ((i, w) ∷ m) u = ground (arith, find-erase k i m, IsUnique-erase k m u.1)

pub ruleset dict_laws = (find-store, find-erase, agree_refl)
