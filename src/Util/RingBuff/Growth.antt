-- ===== src/Util/RingBuff/Growth.antt =====
-- `left_size`, `data_size`, `append_size`, and the loop at the head of `add_data`.
use rubo.Base.{
  ℕ, zero, suc, ◌+◌, ◌-◌, ◌^◌, ◌≤◌, ◌<◌, ◌≡◌, refl, sym, ap, ◌∙◌, List, ◌++◌, inl, inr, arith,
  length, replicate, slice, copy_at, leb, le→leb, lt→leb, leb→le, length-append, length-slice,
  length-copy_at, length-replicate, slice-copy_at_self, dec_le, Bool-cases,
}
use rubo.Base.Int.{add_size, sub_size}
use rubo.Util.RingBuff.{RingBuff, left_size, data_size, next_len, append_size, grow}
use rubo.Util.RingBuff.Span.{
  contents, IsValid, span, span_straight, span_wrapped, span-write_straight,
}

module _ {r : RingBuff} (v : IsValid r) where
  open r use {buff, len, head, tail}

  pub length-contents_straight : tail ≤ head → length (contents r) ≡ head - tail
  length-contents_straight p =
      rw (span_straight buff len head tail p) (length-slice buff tail (head - tail) (omega arith))

  pub length-contents_wrapped : head < tail → length (contents r) ≡ len - tail + head
  length-contents_wrapped p = rw (span_wrapped buff len head tail p) (
      omega (
        arith,
        length-append (slice buff tail (len - tail)) (slice buff 0 head),
        length-slice buff tail (len - tail),
        length-slice buff 0 head,
      ))

  left_size_straight : tail ≤ head → left_size r ≡ len - (head - tail)
  unfolding left_size
  left_size_straight p = rw (le→leb tail head p) (omega arith)

  left_size_wrapped : head < tail → left_size r ≡ tail - head
  unfolding left_size
  left_size_wrapped p = rw (lt→leb tail head p) (omega arith)

  pub left_size-contents : left_size r + length (contents r) ≡ len
  left_size-contents = elim (dec_le tail head) [
    | yes p ↦ omega (arith, left_size_straight p, length-contents_straight p)
    | no p ↦ omega (arith, left_size_wrapped (omega arith), length-contents_wrapped (omega arith))
  ]

  -- `data_size` counts the bytes held, and there is always a free byte.
  pub data_size-contents : (data_size r ≡ length (contents r)) × (length (contents r) < len)
  unfolding data_size
  data_size-contents = elim (dec_le tail head) [
    | yes p ↦ omega (arith, left_size-contents, length-contents_straight p)
    | no p ↦ omega (arith, left_size-contents, length-contents_wrapped (omega arith))
  ]

-- The bytes moved to the start of a block.
span_moved :
    (b : List ℕ) (new_len n : ℕ) (xs : List ℕ)
    → n ≡ length xs
    → n ≤ length b
    → span (copy_at b 0 xs) new_len n 0 ≡ xs
span_moved b new_len n xs e h =
    span_straight (copy_at b 0 xs) new_len n 0 (omega arith)
    ∙ slice-copy_at_self b 0 (n - 0) xs (omega arith) (omega arith)

-- `append_size` keeps the bytes in a block that is larger by four bytes at least.
module _ {r : RingBuff} (v : IsValid r) (fits : r.len ≤ 2 ^ 62) where
  open r use {buff, len, head, tail}

  next_len-bounds : (len + 4 ≤ next_len len) × (next_len len ≤ 2 ^ 63)
  next_len-bounds = ground arith

  zeroed : List ℕ
  zeroed = replicate (next_len len) 0

  length-zeroed : length zeroed ≡ next_len len
  unfolding zeroed
  length-zeroed = length-replicate (next_len len) 0

  moved_straight :
      tail ≤ head
      → span
          (copy_at zeroed 0 (slice buff tail (sub_size head tail)))
          (next_len len)
          (data_size r)
          0
        ≡ contents r
  moved_straight p =
      let e : sub_size head tail ≡ head - tail = omega arith in
      rw (e, span_straight buff len head tail p)
        (span_moved zeroed (next_len len) (data_size r) (slice buff tail (head - tail))
          (omega (
            arith,
            data_size-contents v,
            length-contents_straight v p,
            length-slice buff tail (head - tail),
          ))
          (omega (arith, data_size-contents v, length-zeroed, next_len-bounds)))

  moved_wrapped :
      head < tail
      → let len1 = sub_size len tail in
        span
          (copy_at (copy_at zeroed 0 (slice buff tail len1)) len1 (slice buff 0 head))
          (next_len len)
          (data_size r)
          0
        ≡ contents r
  moved_wrapped p =
      let e : sub_size len tail ≡ len - tail = omega arith in
      let front = slice buff tail (len - tail) in
      let back = slice buff 0 head in
      let lf : length front ≡ len - tail = length-slice buff tail (len - tail) (omega arith) in
      let lb : length back ≡ head = length-slice buff 0 head (omega arith) in
      let d : data_size r ≡ len - tail + length back =
        omega (arith, data_size-contents v, length-contents_wrapped v p, lb) in
      rw (e, d, span_wrapped buff len head tail p)
        (span-write_straight (copy_at zeroed 0 front) (next_len len) (len - tail) 0 back
            (length-copy_at zeroed 0 front ∙ length-zeroed) (omega arith)
            (omega (arith, next_len-bounds, lb))
          ∙ ap (λ l. l ++ back)
              (span_moved zeroed (next_len len) (len - tail) front (sym lf)
                (omega (arith, length-zeroed, next_len-bounds))))

  pub contents-append_size : contents (append_size r) ≡ contents r
  unfolding append_size zeroed
  contents-append_size = elim (dec_le tail head) [
    | yes p ↦ rw (le→leb tail head p) (moved_straight p)
    | no p ↦ rw (lt→leb tail head (omega arith)) (moved_wrapped (omega arith))
  ]

  pub append_size-IsValid : IsValid (append_size r)
  unfolding append_size zeroed
  append_size-IsValid = record {
    block = ground (
      arith,
      length-zeroed,
      length-copy_at zeroed 0 (slice buff tail (sub_size head tail)),
      length-copy_at zeroed 0 (slice buff tail (sub_size len tail)),
      length-copy_at (copy_at zeroed 0 (slice buff tail (sub_size len tail))) (sub_size len tail)
          (slice buff 0 head),
    );
    room = omega (arith, next_len-bounds);
    small = omega (arith, next_len-bounds);
    head_in = omega (arith, next_len-bounds, data_size-contents v);
    tail_in = omega (arith, next_len-bounds);
  }

  pub len-append_size : len + 4 ≤ (append_size r).len
  unfolding append_size
  len-append_size = omega (arith, next_len-bounds)

-- What the loop leaves: the same bytes, in a block where `n` more fit with a byte to spare.
pub record Grown (r : RingBuff) (n : ℕ) (r' : RingBuff) : Type 0 where
  pub valid : IsValid r'
  pub same : contents r' ≡ contents r
  pub room : length (contents r) + n + 1 < r'.len

-- The fuel falls by one a round, and the block grows by four.
pub grow-Grown :
    (fuel : ℕ) (r : RingBuff) (n : ℕ)
    → IsValid r
    → length (contents r) + n + 1 < 2 ^ 62
    → length (contents r) + n + 1 < r.len + fuel
    → Grown r n (grow fuel r n)
unfolding grow
grow-Grown zero r n v small enough = record { valid = v; same = refl; room = omega arith }
grow-Grown (suc fuel) r n v small enough = elim (Bool-cases (leb (left_size r) (add_size n 1))) [
  | inl more ↦
      let h : left_size r ≤ add_size n 1 = leb→le _ _ more in
      let fits : r.len ≤ 2 ^ 62 = omega (arith, left_size-contents v) in
      let same = contents-append_size v fits in
      let g =
        grow-Grown fuel (append_size r) n (append_size-IsValid v fits) (rw same small)
          (rw same (omega (arith, len-append_size v fits))) in
      rw (more, grow) (record { valid = g.valid; same = g.same ∙ same; room = rw (← same) g.room })
  | inr done ↦
      rw (done, grow)
        (record { valid = v; same = refl; room = ground (arith, done, left_size-contents v) })
]
