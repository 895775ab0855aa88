-- ===== src/Util/Utils/Split.antt =====
-- `utils::split` against the pieces of a text, read off character by character.
use rubo.Base.{
  ℕ, zero, suc, ◌+◌, ◌-◌, ◌^◌, ◌≤◌, ◌<◌, ◌≡◌, refl, sym, ap, ◌∙◌, inl, inr, true, false, List, [],
  ◌∷◌, ◌++◌, append_assoc, none, some, arith, ◌==◌, if◌then◌else◌, length, take, drop, take_all,
  length-drop, drop-drop, Option-cases, le→ltb, lt→ltb,
}
use rubo.Base.Int.{add_size, sub_size}
use rubo.Msgs.UserMsg.{Text}
use rubo.Util.Utils.{
  npos, contains, index_of, find_first_of, substr, push_piece, push_last, split_loop, split,
}

-- A character before the first of these pieces.
unfoldable pub prepend : ℕ → List Text → List Text
prepend c [] = (c ∷ []) ∷ []
prepend c (p ∷ ps) = (c ∷ p) ∷ ps

-- The pieces between the delimiters, empty ones too.
unfoldable pub pieces : Text → Text → List Text
pieces delim [] = [] ∷ []
pieces delim (c ∷ s) =
    let rest = pieces delim s in if contains delim c then [] ∷ rest else prepend c rest

module _ (delim : Text) where
  index_of-none : (s : Text) → index_of delim s ≡ none → pieces delim s ≡ s ∷ []
  unfolding index_of pieces prepend
  index_of-none [] e = refl
  index_of-none (c ∷ s) e = ground (arith, index_of-none s)

  -- A delimiter that is found behind the first character.
  index_of-suc :
      (c : ℕ) (s : Text) (k : ℕ)
      → index_of delim (c ∷ s) ≡ some (suc k)
      → (contains delim c ≡ false) × (index_of delim s ≡ some k)
  unfolding index_of
  index_of-suc c s k e = (ground arith, ground arith)

  index_of-zero : (c : ℕ) (s : Text) → index_of delim (c ∷ s) ≡ some 0 → contains delim c ≡ true
  unfolding index_of
  index_of-zero c s e = ground arith

  index_of-some :
      (s : Text) (k : ℕ)
      → index_of delim s ≡ some k
      → (k < length s) × (pieces delim s ≡ take k s ∷ pieces delim (drop (suc k) s))
  unfolding index_of pieces prepend
  index_of-some [] k e = absurd (cc e)
  index_of-some (c ∷ s) zero e = (omega arith, rw (index_of-zero c s e))
  index_of-some (c ∷ s) (suc k) e =
      let (plain, there) = index_of-suc c s k e in
      let (lt, cut) = index_of-some s k there in (omega arith, rw (plain, cut, prepend))

  -- The search from `last` on, while the text is shorter than `npos`.
  module _ (str : Text) (last : ℕ) (short : length str < 2 ^ 63) (inside : last ≤ length str) where
    push_last-rest :
        (ret : List Text) → push_last str last npos ret ≡ some (ret ++ (drop last str ∷ []))
    unfolding push_last push_piece substr
    push_last-rest ret =
        let wide : sub_size npos last ≡ npos - last = omega arith in
        let all : take (npos - last) (drop last str) ≡ drop last str =
          take_all (npos - last) (drop last str) (omega (arith, length-drop last str)) in
        rw (
          wide,
          lt→ltb 0 (npos - last) (omega arith),
          push_last,
          push_piece,
          substr,
          wide,
          le→ltb (length str) last inside,
          all,
        )

    push_piece-at :
        (k : ℕ) (ret : List Text)
        → last + k < length str
        → push_piece str last (last + k) ret ≡ some (ret ++ (take k (drop last str) ∷ []))
    unfolding push_piece substr
    push_piece-at k ret lt =
        let wide : sub_size (last + k) last ≡ k = omega arith in
        rw (push_piece, substr, wide, le→ltb (length str) last inside)

  -- One round of the loop, by the place that was found.
  module _ (fuel : ℕ) (str : Text) (last : ℕ) (ret : List Text) where
    loop_ends :
        (index : ℕ)
        → index ≡ npos
        → split_loop (suc fuel) str delim last index ret ≡ push_last str last npos ret
    unfolding split_loop
    loop_ends index e = rw e

    loop_goes :
        (k : ℕ) (ret' : List Text)
        → last + k < 2 ^ 63
        → push_piece str last (last + k) ret ≡ some ret'
        → split_loop (suc fuel) str delim last (last + k) ret
          ≡ split_loop fuel str delim (last + suc k) (find_first_of str delim (last + suc k)) ret'
    unfolding split_loop
    loop_goes k ret' small p =
        let other : ((last + k) == npos) ≡ false = ground arith in
        let next : add_size (last + k) 1 ≡ last + suc k = omega arith in
        rw (split_loop, other, p, next)

  module _ (str : Text) (last : ℕ) where
    found-none : index_of delim (drop last str) ≡ none → find_first_of str delim last ≡ npos
    unfolding find_first_of
    found-none e = rw (find_first_of, e)

    found-some :
        (k : ℕ) → index_of delim (drop last str) ≡ some k → find_first_of str delim last ≡ last + k
    unfolding find_first_of
    found-some k e = rw (find_first_of, e)

  split_loop-pieces :
      (fuel : ℕ) (str : Text) (last : ℕ) (ret : List Text)
      → length str < 2 ^ 63
      → last ≤ length str
      → length str < fuel + last
      → split_loop fuel str delim last (find_first_of str delim last) ret
        ≡ some (ret ++ pieces delim (drop last str))
  split_loop-pieces zero str last ret short inside enough = absurd (omega arith)
  split_loop-pieces (suc fuel) str last ret short inside enough =
      elim (Option-cases (index_of delim (drop last str))) [
        | inl e ↦
            loop_ends fuel str last ret (find_first_of str delim last) (found-none str last e)
            ∙ push_last-rest str last short inside ret
            ∙ ap (λ ps. some (ret ++ ps)) (sym (index_of-none (drop last str) e))
        | inr (k, e) ↦
            let (lt, cut) = index_of-some (drop last str) k e in
            let lt' : last + k < length str = omega (arith, length-drop last str) in
            ap (λ i. split_loop (suc fuel) str delim last i ret) (found-some str last k e)
            ∙ loop_goes fuel str last ret k _ (omega arith)
                (push_piece-at str last short inside k ret lt')
            ∙ split_loop-pieces fuel str (last + suc k) (ret ++ (take k (drop last str) ∷ [])) short
                (omega arith) (omega arith)
            ∙ ap some (
                append_assoc ret (take k (drop last str) ∷ [])
                  (pieces delim (drop (last + suc k) str))
                ∙ ap (λ r. ret ++ (take k (drop last str) ∷ pieces delim r))
                    (sym (drop-drop (last + suc k) last (suc k) str refl))
                ∙ ap (λ ps. ret ++ ps) (sym cut))
      ]

-- For a text of less than 2^63 bytes, and fuel of one more than its length, `split` appends to its
-- result exactly the pieces between the delimiters, empty ones and the last one included.
pub split-pieces :
    (str delim : Text) (ret : List Text)
    → length str < 2 ^ 63
    → split (suc (length str)) str delim ret ≡ some (ret ++ pieces delim str)
unfolding split
split-pieces str delim ret short =
    split_loop-pieces delim (suc (length str)) str 0 ret short (omega arith) (omega arith)
