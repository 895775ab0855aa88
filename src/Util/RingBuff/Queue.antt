-- ===== src/Util/RingBuff/Queue.antt =====
-- What a user of `RingBuff` counts on: a queue of bytes, as a list, oldest first. The result of each
-- method and the bytes that go through `dest`, without the block, its size and its indices.
use rubo.Base.{
  ℕ, ◌+◌, ◌^◌, ◌≤◌, ◌<◌, Bool, true, false, List, [], ◌∷◌, ◌++◌, length, take, drop, ltb, ◌==◌,
  ◌||◌, if◌then◌else◌,
}

-- The public methods that change or read the bytes.
pub data Op : Type 0 where
  adds : List ℕ → Op
  deletes : ℕ → Op
  steps : ℕ → Op
  reads : ℕ → Op
  takes : ℕ → Op

-- The result, and the bytes written to `dest`.
abbrev pub Reply : Type 0
Reply = Bool × List ℕ

unfoldable pub apply : List ℕ → Op → Reply × List ℕ
apply q (adds xs) = ((true, []), q ++ xs)
apply q (deletes n) =
    if ltb (length q) n || n == 0 then ((false, []), q) else ((true, []), drop n q)
apply q (steps n) = ((true, []), drop n q)
apply q (reads n) = if ltb (length q) n then ((false, []), q) else ((true, take n q), q)
apply q (takes n) =
    if ltb (length q) n
    then ((false, []), q)
    else (if n == 0 then ((false, []), q) else ((true, take n q), drop n q))

unfoldable pub run : List ℕ → List Op → List Reply × List ℕ
run q [] = ([], q)
run q (op ∷ ops) = let (a, q') = apply q op in let (replies, q'') = run q' ops in (a ∷ replies, q'')

-- What a caller answers for: `step`, which has no check, is not called past the end, and at no time
-- are 2^62 bytes held.
abbrev pub Fits : List ℕ → Op → Type 0
Fits q (adds xs) = length q + length xs + 1 < 2 ^ 62
Fits q (steps n) = n ≤ length q
Fits q _ = Unit

abbrev pub AllFit : List ℕ → List Op → Type 0
AllFit q [] = Unit
AllFit q (op ∷ ops) = Fits q op × AllFit (apply q op).1 ops
