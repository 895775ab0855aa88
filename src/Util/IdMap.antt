-- ===== src/Util/IdMap.antt =====
-- `std::map<int, T>` of the standard library, as the sources use it: find, insert a new key, erase.
use rubo.Base.{
  ◌≡◌, refl, inl, inr, true, false, List, [], ◌∷◌, Option, none, some, Bool-cases, if◌then◌else◌,
}
use rubo.Base.Int.{ℤ, ◌==ℤ◌, ==ℤ→eq, ==ℤ_refl, is_positive}

abbrev pub IdMap {ℓ} : Type ℓ → Type ℓ
IdMap A = List (ℤ × A)

module _ {ℓ} {A : Type ℓ} where
  unfoldable pub lookup : ℤ → IdMap A → Option A
  lookup k [] = none
  lookup k ((j, a) ∷ rest) = if j ==ℤ k then some a else lookup k rest

  unfoldable pub erase : ℤ → IdMap A → IdMap A
  erase k [] = []
  erase k ((j, a) ∷ rest) = let others = erase k rest in if j ==ℤ k then others else (j, a) ∷ others

  -- `if(find(k) == end() && k > 0) m[k] = a;`
  unfoldable pub add_new : ℤ → A → IdMap A → IdMap A
  add_new k a m = elim (lookup k m) [ some _ ↦ m | none ↦ if is_positive k then (k, a) ∷ m else m ]

  pub lookup-erase : (k : ℤ) (m : IdMap A) → lookup k (erase k m) ≡ none
  unfolding lookup erase
  lookup-erase k [] = refl
  lookup-erase k ((j, a) ∷ rest) = elim (Bool-cases (j ==ℤ k)) [
    | inl e ↦ rw e (lookup-erase k rest)
    | inr e ↦ rw (e, lookup, e) (lookup-erase k rest)
  ]

  pub lookup-erase_other :
      (k j : ℤ) (m : IdMap A) → (k ==ℤ j) ≡ false → lookup j (erase k m) ≡ lookup j m
  unfolding lookup erase
  lookup-erase_other k j [] h = refl
  lookup-erase_other k j ((i, a) ∷ rest) h = elim (Bool-cases (i ==ℤ k)) [
    | inl e ↦ rw (e, gone i (==ℤ→eq i k e)) (lookup-erase_other k j rest h)
    | inr e ↦ rw (e, lookup, lookup-erase_other k j rest h) refl
  ]
    where
      gone : (i : ℤ) → i ≡ k → (i ==ℤ j) ≡ false
      gone i e = rw e h

  pub lookup-add_new :
      (k : ℤ) (a : A) (m : IdMap A)
      → is_positive k ≡ true
      → lookup k m ≡ none
      → lookup k (add_new k a m) ≡ some a
  unfolding add_new lookup
  lookup-add_new k a m h free = rw (add_new, free, h, lookup, ==ℤ_refl k) refl

  pub add_new_taken : (k : ℤ) (a b : A) (m : IdMap A) → lookup k m ≡ some b → add_new k a m ≡ m
  unfolding add_new
  add_new_taken k a b m h = rw (add_new, h) refl
