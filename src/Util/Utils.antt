-- ===== src/Util/Utils.antt =====
-- util/utils.cpp: cutting a text at delimiters, and trimming it. The search functions and `erase` of
-- `std::string` are written out. `none` is an exception of `substr`, or that the fuel ran out.
pub mod Split
pub mod Trim
use rubo.Base.{
  ℕ, zero, suc, ◌+◌, ◌-◌, ◌^◌, Bool, true, false, ◌||◌, List, [], ◌∷◌, ◌++◌, Option, none, some,
  ltb, ◌==◌, if◌then◌else◌, length, take, drop, slice,
}
use rubo.Base.Int.{add_size, sub_size}
use rubo.Msgs.UserMsg.{Text}

-- `std::string::npos`
abbrev pub npos : ℕ
npos = 2 ^ 64 - 1

unfoldable pub contains : Text → ℕ → Bool
contains [] c = false
contains (d ∷ delim) c = c == d || contains delim c

-- The place of the first character that is one of the delimiters.
unfoldable pub index_of : Text → Text → Option ℕ
index_of delim [] = none
index_of delim (c ∷ s) =
    let rest = index_of delim s in
    if contains delim c then some 0 else elim rest [ none ↦ none | some k ↦ some (suc k) ]

unfoldable pub find_first_of : Text → Text → ℕ → ℕ
find_first_of str delim last = elim (index_of delim (drop last str)) [
  | none ↦ npos
  | some k ↦ last + k
]

unfoldable pub substr : Text → ℕ → ℕ → Option Text
substr str off n = if ltb (length str) off then none else some (slice str off n)

unfoldable pub push_piece : Text → ℕ → ℕ → List Text → Option (List Text)
push_piece str last index ret = elim (substr str last (sub_size index last)) [
  | none ↦ none
  | some piece ↦ some (ret ++ (piece ∷ []))
]

-- What follows the loop.
unfoldable pub push_last : Text → ℕ → ℕ → List Text → Option (List Text)
push_last str last index ret = elim (ltb 0 (sub_size index last)) [
  | true ↦ push_piece str last index ret
  | false ↦ some ret
]

unfoldable pub split_loop : ℕ → Text → Text → ℕ → ℕ → List Text → Option (List Text)
split_loop zero str delim last index ret = none
split_loop (suc fuel) str delim last index ret = elim (index == npos) [
  | true ↦ push_last str last index ret
  | false ↦ elim (push_piece str last index ret) [
    | none ↦ none
    | some ret' ↦
        let last' = add_size index 1 in
        split_loop fuel str delim last' (find_first_of str delim last') ret'
  ]
]

unfoldable pub split : ℕ → Text → Text → List Text → Option (List Text)
split fuel str delim ret = split_loop fuel str delim 0 (find_first_of str delim 0) ret

-- The place of the first and the last character that is not `c`, and `none` for `npos`.
unfoldable pub find_first_not_of : ℕ → Text → Option ℕ
find_first_not_of c [] = none
find_first_not_of c (d ∷ s) =
    let rest = find_first_not_of c s in
    if d == c then elim rest [ none ↦ none | some k ↦ some (suc k) ] else some 0

unfoldable pub find_last_not_of : ℕ → Text → Option ℕ
find_last_not_of c [] = none
find_last_not_of c (d ∷ s) = elim (find_last_not_of c s) [
  | none ↦ if d == c then none else some 0
  | some k ↦ some (suc k)
]

-- `erase(0, npos)` takes all away.
unfoldable pub trim_left : Text → ℕ → Text
trim_left src c = elim (find_first_not_of c src) [ none ↦ [] | some k ↦ drop k src ]

-- `npos + 1` is 0, so `erase` takes all away here too.
unfoldable pub trim_right : Text → ℕ → Text
trim_right src c = elim (find_last_not_of c src) [ none ↦ take 0 src | some k ↦ take (k + 1) src ]
