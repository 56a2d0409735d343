-- ===== src/Base/Lists.antt =====
-- Lists measured, cut and compared by native numbers, under the library's names.
use Prim.Native.Nat.{ℕ, zero, suc, ◌+◌, ◌-◌, ◌≤◌, ◌<◌, min}
use mathlib.Core.Path.{◌≡◌, refl, ap, ◌∙◌}
use mathlib.Core.List.{List, [], ◌∷◌, ◌++◌}
use native.Mathlib.Omega.{arith}

module _ {ℓ} {A : Type ℓ} where
  abbrev pub length : List A → ℕ
  length [] = 0
  length (x ∷ xs) = suc (length xs)

  -- `xs[i]`, with a default where the index is out of bounds.
  abbrev pub get_or : List A → ℕ → A → A
  get_or [] i d = d
  get_or (x ∷ xs) zero d = x
  get_or (x ∷ xs) (suc i) d = get_or xs i d

  abbrev pub take : ℕ → List A → List A
  take zero xs = []
  take (suc n) [] = []
  take (suc n) (x ∷ xs) = x ∷ take n xs

  abbrev pub drop : ℕ → List A → List A
  drop zero xs = xs
  drop (suc n) [] = []
  drop (suc n) (x ∷ xs) = drop n xs

  pub length-append : (xs ys : List A) → length (xs ++ ys) ≡ length xs + length ys
  length-append [] ys = omega arith
  length-append (x ∷ xs) ys = omega (arith, length-append xs ys)

  pub take-append-drop : (n : ℕ) (xs : List A) → take n xs ++ drop n xs ≡ xs
  take-append-drop zero xs = refl
  take-append-drop (suc n) [] = refl
  take-append-drop (suc n) (x ∷ xs) = ap (λ r. x ∷ r) (take-append-drop n xs)

  pub length-take : (n : ℕ) (xs : List A) → length (take n xs) ≡ min n (length xs)
  length-take zero xs = omega arith
  length-take (suc n) [] = omega arith
  length-take (suc n) (x ∷ xs) = omega (arith, length-take n xs)

  pub length-drop : (n : ℕ) (xs : List A) → length (drop n xs) ≡ length xs - n
  length-drop zero xs = omega arith
  length-drop (suc n) [] = omega arith
  length-drop (suc n) (x ∷ xs) = omega (arith, length-drop n xs)

  -- A cut inside the first part of an append leaves the second part alone.
  pub take-append_of_le : (n : ℕ) (xs ys : List A) → n ≤ length xs → take n (xs ++ ys) ≡ take n xs
  take-append_of_le zero xs ys h = refl
  take-append_of_le (suc n) [] ys h = absurd (omega arith)
  take-append_of_le (suc n) (x ∷ xs) ys h =
      ap (λ r. x ∷ r) (take-append_of_le n xs ys (omega arith))

  pub drop-append_of_le :
      (n : ℕ) (xs ys : List A) → n ≤ length xs → drop n (xs ++ ys) ≡ drop n xs ++ ys
  drop-append_of_le zero xs ys h = refl
  drop-append_of_le (suc n) [] ys h = absurd (omega arith)
  drop-append_of_le (suc n) (x ∷ xs) ys h = drop-append_of_le n xs ys (omega arith)

  pub take_self : (xs : List A) → take (length xs) xs ≡ xs
  take_self [] = refl
  take_self (x ∷ xs) = ap (λ r. x ∷ r) (take_self xs)

  pub drop_self : (xs : List A) → drop (length xs) xs ≡ []
  drop_self [] = refl
  drop_self (x ∷ xs) = drop_self xs

  -- A write out of bounds changes nothing.
  abbrev pub set : List A → ℕ → A → List A
  set [] i v = []
  set (x ∷ xs) zero v = v ∷ xs
  set (x ∷ xs) (suc i) v = x ∷ set xs i v

  pub length-set : (xs : List A) (i : ℕ) (v : A) → length (set xs i v) ≡ length xs
  length-set [] i v = refl
  length-set (x ∷ xs) zero v = refl
  length-set (x ∷ xs) (suc i) v = ap suc (length-set xs i v)

  pub append-cancel :
      (xs ys vs ws : List A) → length xs ≡ length ys → xs ++ vs ≡ ys ++ ws → (xs ≡ ys) × (vs ≡ ws)
  append-cancel [] [] vs ws h e = (refl, e)
  append-cancel [] (y ∷ ys) vs ws h e = absurd (omega arith)
  append-cancel (x ∷ xs) [] vs ws h e = absurd (omega arith)
  append-cancel (x ∷ xs) (y ∷ ys) vs ws h e =
      let (p, q) = append-cancel xs ys vs ws (omega arith) (cc) in (cc, q)

  -- All elements but the last.
  abbrev pub init : List A → List A
  init [] = []
  init (x ∷ []) = []
  init (x ∷ y ∷ r) = x ∷ init (y ∷ r)

  pub init-append_one : (xs : List A) (y : A) → init (xs ++ (y ∷ [])) ≡ xs
  init-append_one [] y = refl
  init-append_one (x ∷ []) y = refl
  init-append_one (x ∷ z ∷ r) y = ap (λ q. x ∷ q) (init-append_one (z ∷ r) y)

module _ {ℓ} {A : Type ℓ} where
  -- `slice::chunks(n)` for a positive `n`; the first argument bounds the number of chunks.
  pub chunks_fuel : ℕ → ℕ → List A → List (List A)
  chunks_fuel zero n xs = []
  chunks_fuel (suc fuel) n [] = []
  chunks_fuel (suc fuel) n (x ∷ xs) = take n (x ∷ xs) ∷ chunks_fuel fuel n (drop n (x ∷ xs))

  unfoldable pub chunks : ℕ → List A → List (List A)
  unfolding chunks_fuel
  chunks n xs = chunks_fuel (length xs) n xs

  abbrev pub concat : List (List A) → List A
  concat [] = []
  concat (xs ∷ rest) = xs ++ concat rest

  concat-chunks_fuel :
      (fuel n : ℕ) (xs : List A) → length xs ≤ fuel → concat (chunks_fuel fuel (suc n) xs) ≡ xs
  unfolding chunks_fuel
  concat-chunks_fuel zero n [] h = refl
  concat-chunks_fuel zero n (x ∷ xs) h = absurd (omega arith)
  concat-chunks_fuel (suc fuel) n [] h = refl
  concat-chunks_fuel (suc fuel) n (x ∷ xs) h =
      ap (λ r. x ∷ (take n xs ++ r))
        (concat-chunks_fuel fuel n (drop n xs) (omega (arith, length-drop {ℓ} n xs)))
      ∙ ap (λ r. x ∷ r) (take-append-drop n xs)

  take_of_le : (n : ℕ) (xs : List A) → length xs ≤ n → take n xs ≡ xs
  take_of_le zero [] h = refl
  take_of_le zero (x ∷ xs) h = absurd (omega arith)
  take_of_le (suc n) [] h = refl
  take_of_le (suc n) (x ∷ xs) h = ap (λ r. x ∷ r) (take_of_le n xs (omega arith))

  drop_of_le : (n : ℕ) (xs : List A) → length xs ≤ n → drop n xs ≡ []
  drop_of_le zero [] h = refl
  drop_of_le zero (x ∷ xs) h = absurd (omega arith)
  drop_of_le (suc n) [] h = refl
  drop_of_le (suc n) (x ∷ xs) h = drop_of_le n xs (omega arith)

  chunks_fuel_nil : (fuel n : ℕ) → chunks_fuel fuel n [] ≡ []
  unfolding chunks_fuel
  chunks_fuel_nil zero n = refl
  chunks_fuel_nil (suc fuel) n = refl

  -- A list that is not empty and fits is its one chunk.
  pub chunks_one : (n : ℕ) (xs : List A) → 0 < length xs → length xs ≤ n → chunks n xs ≡ xs ∷ []
  unfolding chunks chunks_fuel
  chunks_one n [] h k = absurd (omega arith)
  chunks_one n (x ∷ xs) h k =
      rw (take_of_le n (x ∷ xs) k)
        (rw (drop_of_le n (x ∷ xs) k) (rw (chunks_fuel_nil (length xs) n) refl))

  -- The chunks are the list, cut.
  pub concat-chunks : (n : ℕ) (xs : List A) → 0 < n → concat (chunks n xs) ≡ xs
  unfolding chunks
  concat-chunks zero xs h = absurd (omega arith)
  concat-chunks (suc n) xs h = concat-chunks_fuel (length xs) n xs (omega arith)

  -- No list in a list is empty.
  abbrev pub AllFull : List (List A) → Type 0
  AllFull [] = Unit
  AllFull (xs ∷ rest) = (0 < length xs) × AllFull rest

  chunks_fuel-AllFull : (fuel n : ℕ) (xs : List A) → AllFull (chunks_fuel fuel (suc n) xs)
  unfolding chunks_fuel
  chunks_fuel-AllFull zero n xs = tt
  chunks_fuel-AllFull (suc fuel) n [] = tt
  chunks_fuel-AllFull (suc fuel) n (x ∷ xs) = (omega arith, chunks_fuel-AllFull fuel n (drop n xs))

  pub chunks-AllFull : (n : ℕ) (xs : List A) → 0 < n → AllFull (chunks n xs)
  unfolding chunks
  chunks-AllFull zero xs h = absurd (omega arith)
  chunks-AllFull (suc n) xs h = chunks_fuel-AllFull (length xs) n xs

  -- Every list in a list has at most `n` elements.
  abbrev pub AllWithin : ℕ → List (List A) → Type 0
  AllWithin n [] = Unit
  AllWithin n (xs ∷ rest) = (length xs ≤ n) × AllWithin n rest

  chunks_fuel-AllWithin : (fuel n : ℕ) (xs : List A) → AllWithin n (chunks_fuel fuel n xs)
  unfolding chunks_fuel
  chunks_fuel-AllWithin zero n xs = tt
  chunks_fuel-AllWithin (suc fuel) n [] = tt
  chunks_fuel-AllWithin (suc fuel) n (x ∷ xs) =
      (omega (arith, length-take {ℓ} n (x ∷ xs)), chunks_fuel-AllWithin fuel n (drop n (x ∷ xs)))

  pub chunks-AllWithin : (n : ℕ) (xs : List A) → AllWithin n (chunks n xs)
  unfolding chunks
  chunks-AllWithin n xs = chunks_fuel-AllWithin (length xs) n xs
