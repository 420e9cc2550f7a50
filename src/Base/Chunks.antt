-- ===== src/Base/Chunks.antt =====
-- `slice.chunks(n)`: the slice cut into pieces of `n`, the last one with what is left.
use Prim.Native.Nat.{ℕ, zero, suc, ◌≤◌, ◌<◌}
use mathlib.Core.Path.{◌≡◌, refl, ap, ◌∙◌}
use mathlib.Core.List.{List, [], ◌∷◌, ◌++◌}
use native.Mathlib.Omega.{arith}
use rsfbclient.Base.Lists.{
  length, take, drop, concat, All, take-append-drop, length-take, length-drop,
}
use rsfbclient.Base.{ℕ, zero, suc, ◌≤◌, ◌<◌, ◌≡◌, refl, ap, ◌∙◌, List, [], ◌∷◌, ◌++◌, arith}

module _ {ℓ} {A : Type ℓ} where
  -- Each piece takes an element at least, so the length is fuel enough.
  chunks_loop : ℕ → ℕ → List A → List (List A)
  chunks_loop zero n xs = []
  chunks_loop (suc fuel) n [] = []
  chunks_loop (suc fuel) n (x ∷ xs) = take n (x ∷ xs) ∷ chunks_loop fuel n (drop n (x ∷ xs))

  unfoldable pub chunks : ℕ → List A → List (List A)
  unfolding chunks_loop
  chunks n xs = chunks_loop (length xs) n xs

  concat-chunks_loop :
      (fuel n : ℕ) (xs : List A) → 0 < n → length xs ≤ fuel → concat (chunks_loop fuel n xs) ≡ xs
  unfolding chunks_loop
  concat-chunks_loop zero n [] hn h = refl
  concat-chunks_loop zero n (x ∷ xs) hn h = absurd (omega arith)
  concat-chunks_loop (suc fuel) n [] hn h = refl
  concat-chunks_loop (suc fuel) n (x ∷ xs) hn h =
      ap (◌++◌ (take n (x ∷ xs)))
        (concat-chunks_loop fuel n (drop n (x ∷ xs)) hn (omega (arith, length-drop n (x ∷ xs))))
      ∙ take-append-drop n (x ∷ xs)

  -- The pieces in order are the slice.
  pub concat-chunks : (n : ℕ) (xs : List A) → 0 < n → concat (chunks n xs) ≡ xs
  unfolding chunks
  concat-chunks n xs hn = concat-chunks_loop (length xs) n xs hn (omega arith)

  chunks_loop-bound : (fuel n : ℕ) (xs : List A) → All (λ c. length c ≤ n) (chunks_loop fuel n xs)
  unfolding chunks_loop
  chunks_loop-bound zero n xs = tt
  chunks_loop-bound (suc fuel) n [] = tt
  chunks_loop-bound (suc fuel) n (x ∷ xs) =
      (omega (arith, length-take n (x ∷ xs)), chunks_loop-bound fuel n (drop n (x ∷ xs)))

  -- No piece is longer than `n`.
  pub chunks-bound : (n : ℕ) (xs : List A) → All (λ c. length c ≤ n) (chunks n xs)
  unfolding chunks
  chunks-bound n xs = chunks_loop-bound (length xs) n xs

  chunks_loop_fuel :
      (f g n : ℕ) (xs : List A)
      → 0 < n
      → length xs ≤ f
      → length xs ≤ g
      → chunks_loop f n xs ≡ chunks_loop g n xs
  unfolding chunks_loop
  chunks_loop_fuel zero zero n xs hn hf hg = refl
  chunks_loop_fuel zero (suc g) n [] hn hf hg = refl
  chunks_loop_fuel zero (suc g) n (x ∷ xs) hn hf hg = absurd (omega arith)
  chunks_loop_fuel (suc f) zero n [] hn hf hg = refl
  chunks_loop_fuel (suc f) zero n (x ∷ xs) hn hf hg = absurd (omega arith)
  chunks_loop_fuel (suc f) (suc g) n [] hn hf hg = refl
  chunks_loop_fuel (suc f) (suc g) n (x ∷ xs) hn hf hg =
      let shorter = length-drop n (x ∷ xs) in
      ap (◌∷◌ (take n (x ∷ xs))) (
        chunks_loop_fuel f g n (drop n (x ∷ xs)) hn (omega (arith, shorter))
          (omega (arith, shorter)))

  -- The first piece, and the pieces of what is behind it.
  pub chunks-cons :
      (n : ℕ) (x : A) (xs : List A)
      → 0 < n
      → chunks n (x ∷ xs) ≡ take n (x ∷ xs) ∷ chunks n (drop n (x ∷ xs))
  unfolding chunks chunks_loop
  chunks-cons n x xs hn = ap (◌∷◌ (take n (x ∷ xs))) (
      chunks_loop_fuel (length xs) (length (drop n (x ∷ xs))) n (drop n (x ∷ xs)) hn
        (omega (arith, length-drop n (x ∷ xs))) (omega arith))
