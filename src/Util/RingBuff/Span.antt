-- ===== src/Util/RingBuff/Span.antt =====
-- The bytes a ring holds, read off its block, its head and its tail; and how they change when bytes
-- are written at the head or dropped at the tail.
use rubo.Base.{
  ℕ, ◌+◌, ◌-◌, ◌^◌, ◌≤◌, ◌<◌, ◌≡◌, refl, ap₂, ◌∙◌, List, ◌++◌, append-nil, append_assoc, arith,
  length, slice, copy_at, leb, if◌then◌else◌, le→leb, lt→leb, length-copy_at, slice-add,
  slice-copy_at_self, slice-copy_at_before, slice-copy_at_after,
}
use rubo.Util.RingBuff.{RingBuff}

-- From the tail up to the head, round the end of the block if the head is below the tail.
unfoldable pub span : List ℕ → ℕ → ℕ → ℕ → List ℕ
span b len head tail =
    if leb tail head
    then slice b tail (head - tail)
    else slice b tail (len - tail) ++ slice b 0 head

abbrev pub contents : RingBuff → List ℕ
contents r = span r.buff r.len r.head r.tail

pub record IsValid (r : RingBuff) : Type 0 where
  pub block : length r.buff ≡ r.len
  pub room : 4 ≤ r.len
  pub small : r.len ≤ 2 ^ 63
  pub head_in : r.head < r.len
  pub tail_in : r.tail < r.len

module _ (b : List ℕ) (len head tail : ℕ) where
  pub span_straight : tail ≤ head → span b len head tail ≡ slice b tail (head - tail)
  unfolding span
  span_straight h = rw (le→leb tail head h)

  pub span_wrapped :
      head < tail → span b len head tail ≡ slice b tail (len - tail) ++ slice b 0 head
  unfolding span
  span_wrapped h = rw (lt→leb tail head h)

-- Writing at the head appends, in each of the four layouts.
module _ (b : List ℕ) (len head tail : ℕ) (xs : List ℕ) (block : length b ≡ len) where
  -- The bytes from the tail up to the write, and the write.
  slice-write :
      (k : ℕ)
      → tail ≤ head
      → head + length xs ≤ len
      → k ≡ head - tail + length xs
      → slice (copy_at b head xs) tail k ≡ slice b tail (head - tail) ++ xs
  slice-write k h fits e =
      slice-add (copy_at b head xs) tail (head - tail) (length xs) k head e (omega arith)
      ∙ ap₂ ◌++◌ (slice-copy_at_before b head tail (head - tail) xs (omega arith))
          (slice-copy_at_self b head (length xs) xs refl (omega arith))

  pub span-write_straight :
      tail ≤ head
      → head + length xs < len
      → span (copy_at b head xs) len (head + length xs) tail ≡ span b len head tail ++ xs
  span-write_straight h fits =
      rw
        (
          span_straight (copy_at b head xs) len (head + length xs) tail (omega arith),
          span_straight b len head tail h,
        )
        (slice-write (head + length xs - tail) h (omega arith) (omega arith))

  pub span-write_to_end :
      tail ≤ head
      → head + length xs ≡ len
      → 0 < tail
      → span (copy_at b head xs) len 0 tail ≡ span b len head tail ++ xs
  span-write_to_end h fits pos =
      rw (span_wrapped (copy_at b head xs) len 0 tail pos, span_straight b len head tail h)
        (append-nil _ ∙ slice-write (len - tail) h (omega arith) (omega arith))

  pub span-write_below :
      head < tail
      → head + length xs < tail
      → tail ≤ len
      → span (copy_at b head xs) len (head + length xs) tail ≡ span b len head tail ++ xs
  span-write_below h fits t =
      rw
        (
          span_wrapped (copy_at b head xs) len (head + length xs) tail fits,
          span_wrapped b len head tail h,
          append_assoc,
        )
        (ap₂ ◌++◌ (slice-copy_at_after b head tail (len - tail) xs (omega arith)) (
          slice-add (copy_at b head xs) 0 head (length xs) (head + length xs) head refl
            (omega arith)
          ∙ ap₂ ◌++◌ (slice-copy_at_before b head 0 head xs (omega arith))
              (slice-copy_at_self b head (length xs) xs refl (omega arith))))

-- The write that goes round the end: `ys` fills the block up, `zs` goes to its start.
module _ (b : List ℕ) (len head tail : ℕ) (ys zs : List ℕ) (block : length b ≡ len) where
  pub span-write_round :
      tail ≤ head
      → head + length ys ≡ len
      → length zs < tail
      → span (copy_at (copy_at b head ys) 0 zs) len (length zs) tail
        ≡ span b len head tail ++ (ys ++ zs)
  span-write_round h fits below =
      rw
        (
          span_wrapped (copy_at (copy_at b head ys) 0 zs) len (length zs) tail below,
          span_straight b len head tail h,
          ← append_assoc,
        )
        (ap₂ ◌++◌
          (slice-copy_at_after (copy_at b head ys) 0 tail (len - tail) zs (omega arith)
            ∙ slice-write b len head tail ys block (len - tail) h (omega arith) (omega arith))
          (slice-copy_at_self (copy_at b head ys) 0 (length zs) zs refl
            (omega (arith, length-copy_at b head ys))))
