-- ===== src/Client/Rotation.antt =====
-- The order in which a loop over the nodes tries them (distconf/client/client.go: the loops of Info,
-- discoverLeader, Get and Discover).
use native.Mathlib.Nat.{mod-lt, mod-add-mod, mod-eq_of_lt, mod-eq-sub-mod}
use native.Mathlib.Decide.{dec_lt}
use repository.Base.{
  ℕ, zero, suc, ◌+◌, ◌-◌, ◌%◌, ◌^◌, ◌≤◌, ◌<◌, ◌≡◌, refl, ap, sym, ◌∙◌, List, [], ◌∷◌, ◌++◌, Option,
  none, some, length, get_elem?, take, drop, drop-length, arith, length-drop, length-append,
  get_elem?-drop,
}
use repository.Base.Int64.{Int64}
use repository.Base.Int64
use repository.Client.Wire.{Error}
use repository.Client.{
  Address, World, Verdict, stops, passes, Scanned, found, exhausted, newer, slot, endpoint_at, scan,
  scan_endpoints, next_start,
}

module _ {ℓ} {A : Type ℓ} where
  abbrev pub rotation : ℕ → List A → List A
  rotation k xs = drop k xs ++ take k xs

  get_elem?-append_left :
      (xs ys : List A) (i : ℕ) → i < length xs → get_elem? (xs ++ ys) i ≡ get_elem? xs i
  get_elem?-append_left [] ys i h = absurd (omega arith)
  get_elem?-append_left (x ∷ xs) ys zero h = refl
  get_elem?-append_left (x ∷ xs) ys (suc i) h = get_elem?-append_left xs ys i (omega arith)

  get_elem?-append_right :
      (xs ys : List A) (i : ℕ)
      → length xs ≤ i
      → get_elem? (xs ++ ys) i ≡ get_elem? ys (i - length xs)
  get_elem?-append_right [] ys i h = ap (get_elem? ys) (omega arith)
  get_elem?-append_right (x ∷ xs) ys zero h = absurd (omega arith)
  get_elem?-append_right (x ∷ xs) ys (suc i) h =
      get_elem?-append_right xs ys i (omega arith) ∙ ap (get_elem? ys) (omega arith)

  get_elem?-take : (k i : ℕ) (xs : List A) → i < k → get_elem? (take k xs) i ≡ get_elem? xs i
  get_elem?-take zero i xs h = absurd (omega arith)
  get_elem?-take (suc k) i [] h = refl
  get_elem?-take (suc k) zero (x ∷ xs) h = refl
  get_elem?-take (suc k) (suc i) (x ∷ xs) h = get_elem?-take k i xs (omega arith)

  length-take : (k : ℕ) (xs : List A) → k ≤ length xs → length (take k xs) ≡ k
  length-take zero xs h = refl
  length-take (suc k) [] h = absurd (omega arith)
  length-take (suc k) (x ∷ xs) h = ap suc (length-take k xs (omega arith))

  get_elem?-rotation :
      (k i : ℕ) (xs : List A)
      → k < length xs
      → i < length xs
      → get_elem? (rotation k xs) i ≡ get_elem? xs ((k + i) % length xs)
  get_elem?-rotation k i xs hk hi = elim (dec_lt (k + i) (length xs)) [
    | yes h ↦
        get_elem?-append_left (drop k xs) (take k xs) i (omega (arith, length-drop k xs))
        ∙ ap (get_elem? (drop k xs)) (omega arith)
        ∙ get_elem?-drop k (k + i) xs (omega arith)
        ∙ ap (get_elem? xs) (sym (mod-eq_of_lt h))
    | no h ↦
        get_elem?-append_right (drop k xs) (take k xs) i (omega (arith, length-drop k xs))
        ∙ get_elem?-take k (i - length (drop k xs)) xs (omega (arith, length-drop k xs))
        ∙ ap (get_elem? xs) (omega (arith, length-drop k xs))
        ∙ ap (get_elem? xs) (sym (mod-eq-sub-mod (omega arith) ∙ mod-eq_of_lt (omega arith)))
  ]

  drop-get_elem? :
      (i : ℕ) (xs : List A)
      → i < length xs
      → (a : A) × (get_elem? xs i ≡ some a) × (drop i xs ≡ a ∷ drop (suc i) xs)
  drop-get_elem? i [] h = absurd (omega arith)
  drop-get_elem? zero (x ∷ xs) h = (x, refl, refl)
  drop-get_elem? (suc i) (x ∷ xs) h = drop-get_elem? i xs (omega arith)

  length-rotation : (k : ℕ) (xs : List A) → k ≤ length xs → length (rotation k xs) ≡ length xs
  length-rotation k xs h =
      omega (arith, length-append (drop k xs) (take k xs), length-drop k xs, length-take k xs h)

abbrev at_slot : List Address → Option ℕ → Option Address
at_slot xs none = none
at_slot xs (some k) = get_elem? xs k

slot-small : (k n : ℕ) → k < 2 ^ 63 → slot k n ≡ some (k % n)
slot-small k n h = ground arith

-- One turn of the loop on a start that is no negative int.
endpoint_at-rotation :
    (xs : List Address) (start : Int64) (i : ℕ)
    → start + length xs < 2 ^ 63
    → i < length xs
    → endpoint_at xs start i ≡ get_elem? (rotation (start % length xs) xs) i
unfolding endpoint_at
endpoint_at-rotation xs start i small h =
    let bound = mod-lt start {m = length xs} (omega arith) in
    ap (at_slot xs) (
      ap (λ k. slot k (length xs)) {x = Int64.add start i} (omega arith)
      ∙ slot-small (start + i) (length xs) (omega arith))
    ∙ ap (get_elem? xs) (sym (mod-add-mod start (length xs) i))
    ∙ sym (get_elem?-rotation (start % length xs) i xs bound h)

module _ {ℓ κ} {T : Type ℓ} {R : Type κ} (try_node : Address → World → T × World)
    (judge : T → Verdict R) where
  -- The loop over a list of nodes.
  abbrev pub scan_list : List Address → Option Error → World → Scanned R × World
  scan_list [] last w = (exhausted last, w)
  scan_list (addr ∷ rest) last w =
      let (t, w') = try_node addr w in
      elim (judge t) [ stops r ↦ (found r, w') | passes e ↦ scan_list rest (newer last e) w' ]

  verdict_step :
      (v : Verdict R) (w : World) (more : Option Error → Option (Scanned R × World))
      (rest : Option Error → Scanned R × World)
      → ((e : Option Error) → more e ≡ some (rest e))
      → ◌≡◌ {A = Option (Scanned R × World)}
          (elim v as (λ v. Option (Scanned R × World)) [
            | stops r ↦ some (found r, w)
            | passes e ↦ more e
          ])
          (some (elim v as (λ v. Scanned R × World) [ stops r ↦ (found r, w) | passes e ↦ rest e ]))
  verdict_step (stops r) w more rest h = refl
  verdict_step (passes e) w more rest h = h e

  module _
      (keeps : (addr : Address) (w : World)
        → (try_node addr w).1.client.endpoints ≡ w.client.endpoints)
      (start : Int64) (xs : List Address) (small : start + length xs < 2 ^ 63)
      (some_node : 0 < length xs) where
    scan-rotation :
        (left i : ℕ) (last : Option Error) (w : World)
        → i + left ≡ length xs
        → w.client.endpoints ≡ xs
        → scan try_node judge start i left last w
          ≡ some (scan_list (drop i (rotation (start % length xs) xs)) last w)
    unfolding scan
    scan-rotation zero i last w full same =
        let whole =
          length-rotation (start % length xs) xs
            (omega (arith, mod-lt start {m = length xs} some_node)) in
        let at_end =
          ap (λ n. drop n (rotation (start % length xs) xs)) {x = i} (omega (arith, whole))
          ∙ drop-length (rotation (start % length xs) xs) in
        ap (λ l. some (scan_list l last w)) (sym at_end)
    scan-rotation (suc left) i last w full same =
        let bound = mod-lt start {m = length xs} (omega arith) in
        let whole = length-rotation (start % length xs) xs (omega (arith, bound)) in
        let (a, got, rest) =
          drop-get_elem? i (rotation (start % length xs) xs) (omega (arith, whole)) in
        let at =
          ap (λ l. endpoint_at l start i) same
          ∙ endpoint_at-rotation xs start i small (omega arith)
          ∙ got in
        let (t, w') = try_node a w in
        ap
          (λ o. elim o [
            | none ↦ none
            | some addr ↦
                (let (t, w') = try_node addr w in
                  elim (judge t) [
                    | stops r ↦ some (found r, w')
                    | passes e ↦ scan try_node judge start (i + 1) left (newer last e) w'
                  ])
          ])
          at
        ∙ verdict_step (judge (try_node a w).0) (try_node a w).1
            (λ e. scan try_node judge start (i + 1) left (newer last e) (try_node a w).1)
            (λ e.
              scan_list (drop (suc i) (rotation (start % length xs) xs)) (newer last e)
                (try_node a w).1)
            (λ e.
              scan-rotation left (i + 1) (newer last e) (try_node a w).1 (omega arith)
                (keeps a w ∙ same)
              ∙ ap
                  (λ n. some (
                    scan_list (drop n (rotation (start % length xs) xs)) (newer last e)
                      (try_node a w).1))
                  {y = suc i} (omega arith))
        ∙ ap (λ l. some (scan_list l last w)) (sym rest)

  -- The whole loop is the one over the nodes from `rr_index` on, once around.
  pub scan_endpoints-rotation :
      ((addr : Address) (w : World) → (try_node addr w).1.client.endpoints ≡ w.client.endpoints)
      → (w : World) → 0 < length w.client.endpoints
      → w.client.rr_index + length w.client.endpoints < 2 ^ 63
      → scan_endpoints try_node judge w
        ≡ some (
            scan_list
              (rotation (w.client.rr_index % length w.client.endpoints) w.client.endpoints)
              none
              (next_start w))
  unfolding scan_endpoints
  scan_endpoints-rotation keeps w some_node small =
      scan-rotation keeps w.client.rr_index w.client.endpoints small some_node
        (length w.client.endpoints) 0 none (next_start w) (omega arith) refl
