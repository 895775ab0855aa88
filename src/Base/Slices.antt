-- ===== src/Base/Slices.antt =====
-- Memory blocks as lists: reading a range, writing a range, and how the two interact.
use Prim.Native.Nat.{ℕ, zero, suc, ◌+◌, ◌≤◌}
use mathlib.Core.Path.{◌≡◌, refl, ap, ◌∙◌}
use mathlib.Core.List.{List, [], ◌∷◌, ◌++◌}
use native.Mathlib.Omega.{arith}
use rubo.Base.Lists.{length, take, drop, length-take, length-drop}

module _ {ℓ} {A : Type ℓ} where
  -- `n` cells from `off` on. A read past the end of the block comes back short.
  abbrev pub slice : List A → ℕ → ℕ → List A
  slice b off n = take n (drop off b)

  -- The cells from `off` on replaced by `xs`. A write past the end of the block is lost.
  unfoldable pub copy_at : List A → ℕ → List A → List A
  copy_at [] off xs = []
  copy_at (b ∷ bs) zero [] = b ∷ bs
  copy_at (b ∷ bs) zero (x ∷ xs) = x ∷ copy_at bs zero xs
  copy_at (b ∷ bs) (suc off) xs = b ∷ copy_at bs off xs

  pub length-copy_at : (b : List A) (off : ℕ) (xs : List A) → length (copy_at b off xs) ≡ length b
  unfolding copy_at
  length-copy_at [] off xs = refl
  length-copy_at (b ∷ bs) zero [] = refl
  length-copy_at (b ∷ bs) zero (x ∷ xs) = ap suc (length-copy_at bs zero xs)
  length-copy_at (b ∷ bs) (suc off) xs = ap suc (length-copy_at bs off xs)

  pub length-slice : (b : List A) (off n : ℕ) → off + n ≤ length b → length (slice b off n) ≡ n
  length-slice b off n h = omega (arith, length-take n (drop off b), length-drop off b)

  pub take-add : (k n m : ℕ) (xs : List A) → k ≡ n + m → take k xs ≡ take n xs ++ take m (drop n xs)
  take-add k zero m xs e = ap (λ j. take j xs) (omega arith)
  take-add zero (suc n) m xs e = absurd (omega arith)
  take-add (suc k) (suc n) zero [] e = refl
  take-add (suc k) (suc n) (suc m) [] e = refl
  take-add (suc k) (suc n) m (x ∷ xs) e = ap (◌∷◌ x) (take-add k n m xs (omega arith))

  pub drop-drop : (k n m : ℕ) (xs : List A) → k ≡ n + m → drop m (drop n xs) ≡ drop k xs
  drop-drop k zero m xs e = ap (λ j. drop j xs) (omega arith)
  drop-drop zero (suc n) m xs e = absurd (omega arith)
  drop-drop (suc k) (suc n) zero [] e = refl
  drop-drop (suc k) (suc n) (suc m) [] e = refl
  drop-drop (suc k) (suc n) m (x ∷ xs) e = drop-drop k n m xs (omega arith)

  -- A range is cut at any place.
  pub slice-add :
      (b : List A) (off n m k mid : ℕ)
      → k ≡ n + m
      → mid ≡ off + n
      → slice b off k ≡ slice b off n ++ slice b mid m
  slice-add b off n m k mid e e' =
      take-add k n m (drop off b) e ∙ ap (λ l. slice b off n ++ take m l) (drop-drop mid off n b e')

  -- What was written is read back.
  pub slice-copy_at_self :
      (b : List A) (off n : ℕ) (xs : List A)
      → n ≡ length xs
      → off + n ≤ length b
      → slice (copy_at b off xs) off n ≡ xs
  unfolding copy_at
  slice-copy_at_self b off zero [] e h = refl
  slice-copy_at_self b off zero (x ∷ xs) e h = absurd (omega arith)
  slice-copy_at_self b off (suc n) [] e h = absurd (omega arith)
  slice-copy_at_self [] off (suc n) (x ∷ xs) e h = absurd (omega arith)
  slice-copy_at_self (b ∷ bs) zero (suc n) (x ∷ xs) e h =
      ap (◌∷◌ x) (slice-copy_at_self bs zero n xs (omega arith) (omega arith))
  slice-copy_at_self (b ∷ bs) (suc off) (suc n) (x ∷ xs) e h =
      slice-copy_at_self bs off (suc n) (x ∷ xs) e (omega arith)

  -- Cells before the write are as they were.
  pub slice-copy_at_before :
      (b : List A) (off i n : ℕ) (xs : List A)
      → i + n ≤ off
      → slice (copy_at b off xs) i n ≡ slice b i n
  unfolding copy_at
  slice-copy_at_before [] off i n xs h = refl
  slice-copy_at_before (b ∷ bs) zero zero zero xs h = refl
  slice-copy_at_before (b ∷ bs) zero zero (suc n) xs h = absurd (omega arith)
  slice-copy_at_before (b ∷ bs) zero (suc i) n xs h = absurd (omega arith)
  slice-copy_at_before (b ∷ bs) (suc off) zero zero xs h = refl
  slice-copy_at_before (b ∷ bs) (suc off) zero (suc n) xs h =
      ap (◌∷◌ b) (slice-copy_at_before bs off zero n xs (omega arith))
  slice-copy_at_before (b ∷ bs) (suc off) (suc i) n xs h =
      slice-copy_at_before bs off i n xs (omega arith)

  -- Cells behind the write are as they were.
  pub slice-copy_at_after :
      (b : List A) (off i n : ℕ) (xs : List A)
      → off + length xs ≤ i
      → slice (copy_at b off xs) i n ≡ slice b i n
  unfolding copy_at
  slice-copy_at_after [] off i n xs h = refl
  slice-copy_at_after (b ∷ bs) zero i n [] h = refl
  slice-copy_at_after (b ∷ bs) zero zero n (x ∷ xs) h = absurd (omega arith)
  slice-copy_at_after (b ∷ bs) zero (suc i) n (x ∷ xs) h =
      slice-copy_at_after bs zero i n xs (omega arith)
  slice-copy_at_after (b ∷ bs) (suc off) zero n xs h = absurd (omega arith)
  slice-copy_at_after (b ∷ bs) (suc off) (suc i) n xs h =
      slice-copy_at_after bs off i n xs (omega arith)
