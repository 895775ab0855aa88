-- ===== src/Server/Balance.antt =====
-- The two loops of `get_worker`, in server/Gate/GateIO.cpp and in server/Logic/LogicIO.cpp: the first
-- worker that has the connection or the user, or else one with the fewest.
use rubo.Base.{
  ℕ, zero, suc, ◌-◌, ◌^◌, ◌≤◌, ◌<◌, ◌≡◌, refl, ap, ◌∙◌, Bool, true, false, List, [], ◌∷◌, Option,
  none, some, arith, ltb, lt→ltb, le→ltb, dec_lt, sym, inl, inr, Bool-cases, Option-cases,
}
use mathlib.Core.Path.{subst}
use mathlib.Core.Option.{some-injective}

-- UINT_MAX
abbrev pub uint_max : ℕ
uint_max = 2 ^ 32 - 1

module _ {W : Type 0} where
  -- The place of the first worker that passes a test.
  unfoldable pub first_with : (W → Bool) → ℕ → List W → Option ℕ
  first_with has i [] = none
  first_with has i (w ∷ ws) = elim (has w) [ true ↦ some i | false ↦ first_with has (suc i) ws ]

  -- The loop for the fewest, with its `min_num` and the place of the worker found so far.
  unfoldable pub fewest : (W → ℕ) → ℕ → Option ℕ → ℕ → List W → Option ℕ
  fewest num min_num ret i [] = ret
  fewest num min_num ret i (w ∷ ws) = elim (ltb (num w) min_num) [
    | true ↦ fewest num (num w) (some i) (suc i) ws
    | false ↦ fewest num min_num ret (suc i) ws
  ]

  unfoldable pub get_worker : (W → Bool) → (W → ℕ) → List W → Option ℕ
  get_worker has num ws = elim (first_with has 0 ws) [
    | some i ↦ some i
    | none ↦ fewest num uint_max none 0 ws
  ]

  -- The worker at a place.
  abbrev pub get_elem? : List W → ℕ → Option W
  get_elem? [] i = none
  get_elem? (w ∷ ws) zero = some w
  get_elem? (w ∷ ws) (suc i) = get_elem? ws i

  abbrev pub All : (W → Type 0) → List W → Type 0
  All P [] = Unit
  All P (w ∷ ws) = P w × All P ws

  -- The place `i` of a list that starts at `start`.
  abbrev pub IsAt : List W → ℕ → ℕ → W → Type 0
  IsAt ws start i w = (start ≤ i) × (get_elem? ws (i - start) ≡ some w)

  IsAt-suc :
      (v w : W) (ws : List W) (start i : ℕ) → IsAt ws (suc start) i w → IsAt (v ∷ ws) start i w
  IsAt-suc v w ws start i (le, e) =
      let s : i - start ≡ suc (i - suc start) = omega arith in
      (omega arith, ap (get_elem? (v ∷ ws)) s ∙ e)

  IsAt-here : (w : W) (ws : List W) (start : ℕ) → IsAt (w ∷ ws) start start w
  IsAt-here w ws start =
      let s : start - start ≡ 0 = omega arith in (omega arith, ap (get_elem? (w ∷ ws)) s)

  All-mono : {P Q : W → Type 0} (ws : List W) → ((w : W) → P w → Q w) → All P ws → All Q ws
  All-mono [] f a = tt
  All-mono (w ∷ ws) f a = (f w a.0, All-mono ws f a.1)

  -- What the loop ends with: the worker found before, if none has fewer; or one of the list that has
  -- fewer, and the fewest of all.
  data Least (num : W → ℕ) (min_num : ℕ) (ret : Option ℕ) (start : ℕ) (ws : List W) (r : Option ℕ)
      : Type 0 where
    stays : r ≡ ret → All (λ w. min_num ≤ num w) ws → Least num min_num ret start ws r
    found :
        (i : ℕ) (w : W)
        → r ≡ some i
        → IsAt ws start i w
        → num w < min_num
        → All (λ v. num w ≤ num v) ws
        → Least num min_num ret start ws r

  fewest-Least :
      (num : W → ℕ) (min_num : ℕ) (ret : Option ℕ) (start : ℕ) (ws : List W)
      → Least num min_num ret start ws (fewest num min_num ret start ws)
  unfolding fewest
  fewest-Least num min_num ret start [] = stays refl tt
  fewest-Least num min_num ret start (v ∷ ws) = elim (dec_lt (num v) min_num) [
    | yes less ↦
        rw (lt→ltb (num v) min_num less, fewest)
          (elim (fewest-Least num (num v) (some start) (suc start) ws) [
            | stays e a ↦ found start v e (IsAt-here v ws start) less (omega arith, a)
            | found i w e at lt a ↦
                found i w e (IsAt-suc v w ws start i at) (omega arith) (omega arith, a)
          ])
    | no more ↦
        rw (le→ltb (num v) min_num (omega arith), fewest)
          (elim (fewest-Least num min_num ret (suc start) ws) [
            | stays e a ↦ stays e (omega arith, a)
            | found i w e at lt a ↦ found i w e (IsAt-suc v w ws start i at) lt (omega arith, a)
          ])
  ]

  first_with-none :
      (has : W → Bool) (start : ℕ) (ws : List W)
      → All (λ w. has w ≡ false) ws
      → first_with has start ws ≡ none
  unfolding first_with
  first_with-none has start [] a = refl
  first_with-none has start (w ∷ ws) a =
      rw (a.0, first_with) (first_with-none has (suc start) ws a.1)

  first_with-IsAt :
      (has : W → Bool) (start : ℕ) (ws : List W) (i : ℕ)
      → first_with has start ws ≡ some i
      → (w : W) × IsAt ws start i w
  unfolding first_with
  first_with-IsAt has start [] i e = absurd (cc e)
  first_with-IsAt has start (w ∷ ws) i e = elim (Bool-cases (has w)) [
    | inl h ↦
        let here : start ≡ i = some-injective start i (sym (rw (first_with, h)) ∙ e) in
        (w, subst (λ j. IsAt (w ∷ ws) start j w) here (IsAt-here w ws start))
    | inr h ↦
        let later : first_with has (suc start) ws ≡ some i = sym (rw (first_with, h)) ∙ e in
        let (v, at) = first_with-IsAt has (suc start) ws i later in (v, IsAt-suc w v ws start i at)
  ]

  -- If there is a worker, and the first has less than UINT_MAX, one of the workers is returned.
  pub get_worker-found :
      (has : W → Bool) (num : W → ℕ) (v : W) (ws : List W)
      → num v < uint_max
      → (i : ℕ) × (w : W) × (get_worker has num (v ∷ ws) ≡ some i) × (get_elem? (v ∷ ws) i ≡ some w)
  unfolding get_worker
  get_worker-found has num v ws small = elim (Option-cases (first_with has 0 (v ∷ ws))) [
    | inr (i, e) ↦
        let (w, at) = first_with-IsAt has 0 (v ∷ ws) i e in
        (i, w, rw (get_worker, e), at_start i w at)
    | inl e ↦ elim (fewest-Least num uint_max none 0 (v ∷ ws)) [
      | stays e' b ↦ absurd (omega (arith, b.0))
      | found i w e' at lt b ↦ (i, w, rw (get_worker, e) e', at_start i w at)
    ]
  ]
    where
      at_start : (i : ℕ) (w : W) → IsAt (v ∷ ws) 0 i w → get_elem? (v ∷ ws) i ≡ some w
      at_start i w at = ap (get_elem? (v ∷ ws)) (let z : i ≡ i - 0 = omega arith in z) ∙ at.1

  -- For a connection or user that no worker has: if there is a worker, and the first has less than
  -- UINT_MAX, `get_worker` returns one that has the fewest.
  pub get_worker-fewest :
      (has : W → Bool) (num : W → ℕ) (v : W) (ws : List W)
      → All (λ w. has w ≡ false) (v ∷ ws)
      → num v < uint_max
      → (i : ℕ) × (w : W) × (get_worker has num (v ∷ ws) ≡ some i)
        × (get_elem? (v ∷ ws) i ≡ some w)
        × All (λ u. num w ≤ num u) (v ∷ ws)
  unfolding get_worker
  get_worker-fewest has num v ws a small = elim (fewest-Least num uint_max none 0 (v ∷ ws)) [
    | stays e b ↦ absurd (omega (arith, b.0))
    | found i w e at lt b ↦ (
      i,
      w,
      rw (get_worker, first_with-none has 0 (v ∷ ws) a) e,
      ap (get_elem? (v ∷ ws)) (let z : i ≡ i - 0 = omega arith in z) ∙ at.1,
      b,
    )
  ]
