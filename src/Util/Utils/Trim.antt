-- ===== src/Util/Utils/Trim.antt =====
-- What `utils::trim_left` and `utils::trim_right` leave.
use rubo.Base.{ℕ, ◌≡◌, ◌≢◌, false, ◌∷◌, arith, ◌==◌, ==_iff}
use rubo.Msgs.UserMsg.{Text}
use rubo.Util.Utils.{find_first_not_of, trim_left}

module _ (c : ℕ) where
  pub trim_left_self : (s : Text) → trim_left (c ∷ s) c ≡ trim_left s c
  unfolding trim_left find_first_not_of
  trim_left_self s = ground (arith, ==_iff c c)

  pub trim_left-other : (d : ℕ) (s : Text) → d ≢ c → trim_left (d ∷ s) c ≡ d ∷ s
  unfolding trim_left find_first_not_of
  trim_left-other d s h =
      let other : (d == c) ≡ false = ground (arith, h) in rw (trim_left, find_first_not_of, other)
