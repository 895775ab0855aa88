-- ===== src/Msgs/MsgCenter/Strings.antt =====
-- `c_string` on a buffer that was zeroed before a body was copied into it.
use rubo.Base.{
  ℕ, zero, suc, ◌<◌, ◌≡◌, refl, ◌≢◌, inl, inr, false, List, [], ◌∷◌, none, some, arith, length,
  replicate, copy_at, ◌==◌, if◌then◌else◌, Bool-cases,
}
use rubo.Msgs.MsgCenter.{c_string}

-- The bytes before the first zero.
unfoldable pub until_nul : List ℕ → List ℕ
until_nul [] = []
until_nul (b ∷ bs) = let rest = until_nul bs in if b == 0 then [] else b ∷ rest

abbrev pub HasNoNul : List ℕ → Type 0
HasNoNul [] = Unit
HasNoNul (b ∷ bs) = (b ≢ 0) × HasNoNul bs

pub until_nul-HasNoNul : (bs : List ℕ) → HasNoNul bs → until_nul bs ≡ bs
unfolding until_nul
until_nul-HasNoNul [] h = refl
until_nul-HasNoNul (b ∷ bs) h =
    let z : (b == 0) ≡ false = ground (arith, h.0) in rw (z, until_nul-HasNoNul bs h.1)

-- A body shorter than its zeroed buffer is read up to its first zero byte.
pub c_string-copy_at :
    (t : ℕ) (body : List ℕ)
    → length body < t
    → c_string (copy_at (replicate t 0) 0 body) ≡ some (until_nul body)
unfolding c_string copy_at until_nul
c_string-copy_at zero body h = absurd (omega arith)
c_string-copy_at (suc t) [] h = refl
c_string-copy_at (suc t) (b ∷ bs) h = elim (Bool-cases (b == 0)) [
  | inl z ↦ rw (z, c_string)
  | inr nz ↦ rw (nz, c_string, c_string-copy_at t bs (omega arith))
]

-- A body that fills its buffer, with no zero byte, is read past the end.
pub c_string_full :
    (body : List ℕ) → HasNoNul body → c_string (copy_at (replicate (length body) 0) 0 body) ≡ none
unfolding c_string copy_at
c_string_full [] h = refl
c_string_full (b ∷ bs) h =
    let z : (b == 0) ≡ false = ground (arith, h.0) in rw (z, c_string, c_string_full bs h.1)
