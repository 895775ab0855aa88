-- ===== src/Util/RingBuff/Reads.antt =====
-- `read_begin`, `del_data`, `read_del_begin` and `step`.
use rubo.Base.{
  ℕ, ◌+◌, ◌-◌, ◌%◌, ◌≤◌, ◌<◌, ◌≡◌, refl, sym, ap, ◌∙◌, inl, inr, true, false, ◌++◌, append_assoc,
  arith, length, take, drop, replicate, slice, copy_at, ltb, leb, ◌==◌, if◌then◌else◌, le→leb,
  lt→leb, lt→ltb, le→ltb, length-copy_at, length-append, length-slice, length-replicate, slice-add,
  take-append_self, dec_le, dec_lt,
}
use native.Mathlib.Nat.{mod-eq_of_lt, mod-eq-sub-mod}
use rubo.Base.Int.{add_size, sub_size}
use rubo.Util.RingBuff.{RingBuff, clear_front, front_bytes, step, del_data, data_size}
use rubo.Util.RingBuff.Span.{contents, IsValid, span, span_straight, span_wrapped}
use rubo.Util.RingBuff.Drop.{
  span-drop_straight, span-drop_wrapped, span-drop_round, span-copy_at_before, span-copy_at_behind,
}
use rubo.Util.RingBuff.Growth.{
  data_size-contents, length-contents_straight, length-contents_wrapped,
}
use rubo.Util.RingBuff.Writes.{Holds}

module _ {r : RingBuff} (v : IsValid r) (n : ℕ) (few : n ≤ length (contents r)) where
  open r use {buff, len, head, tail}

  len1-eq : sub_size len tail ≡ len - tail
  len1-eq = omega arith

  -- What is copied to `dest` is the start of the contents.
  pub front_bytes-take : front_bytes r n ≡ take n (contents r)
  unfolding front_bytes
  front_bytes-take = elim (dec_le tail head) [
    | yes p ↦
        let lc = length-contents_straight v p in
        rw (le→leb tail head p, span_straight buff len head tail p)
          (sym (
            ap (take n)
              (slice-add buff tail n (head - tail - n) (head - tail) (tail + n) (omega arith) refl)
            ∙ take-append_self n (slice buff tail n) _ (length-slice buff tail n (omega arith))))
    | no p ↦
        let q : head < tail = omega arith in
        let lc = length-contents_wrapped v q in
        rw (lt→leb tail head q, span_wrapped buff len head tail q, len1-eq)
          (elim (dec_le n (len - tail)) [
            | yes here ↦ rw (le→leb n (len - tail) here) (
                sym (
                  ap (λ l. take n (l ++ slice buff 0 head))
                    (slice-add buff tail n (len - tail - n) (len - tail) (tail + n) (omega arith)
                      refl)
                  ∙ ap (take n) (append_assoc (slice buff tail n) _ _)
                  ∙ take-append_self n (slice buff tail n) _
                      (length-slice buff tail n (omega arith))))
            | no there ↦
                let k = n - (len - tail) in
                let e : sub_size n (len - tail) ≡ k = omega arith in
                rw (lt→leb n (len - tail) (omega arith), e)
                  (sym (
                    ap (λ l. take n (slice buff tail (len - tail) ++ l))
                      (slice-add buff 0 k (head - k) head k (omega arith) (omega arith))
                    ∙ ap (take n) (
                        sym (
                          append_assoc (slice buff tail (len - tail)) (slice buff 0 k)
                            (slice buff k (head - k))))
                    ∙ take-append_self n (slice buff tail (len - tail) ++ slice buff 0 k) _ (
                        omega (
                          arith,
                          length-append (slice buff tail (len - tail)) (slice buff 0 k),
                          length-slice buff tail (len - tail),
                          length-slice buff 0 k,
                        ))))
          ])
  ]

  -- `(_tail + len) % _len`, short of the end and past it.
  next_tail : tail + n < len → add_size tail n % len ≡ tail + n
  next_tail h = let e : add_size tail n ≡ tail + n = omega arith in rw e (mod-eq_of_lt h)

  next_tail_round : len ≤ tail + n → tail + n < len + len → add_size tail n % len ≡ tail + n - len
  next_tail_round h h' =
      let e : add_size tail n ≡ tail + n = omega arith in
      rw e (mod-eq-sub-mod h ∙ mod-eq_of_lt {n = tail + n - len} {m = len} (omega arith))

  -- Moving the tail drops the front.
  step-bytes : span buff len head (add_size tail n % len) ≡ drop n (contents r)
  step-bytes = elim (dec_le tail head) [
    | yes p ↦
        let lc = length-contents_straight v p in
        rw (next_tail (omega arith))
          (span-drop_straight buff len head tail n v.block (omega arith) (omega arith))
    | no p ↦
        let q : head < tail = omega arith in
        let lc = length-contents_wrapped v q in
        elim (dec_lt (tail + n) len) [
          | yes here ↦ rw (next_tail here) (span-drop_wrapped buff len head tail n v.block q here)
          | no there ↦ rw (next_tail_round (omega arith) (omega arith)) (
              span-drop_round buff len head tail n v.block (tail + n - len) q v.tail_in
                (omega arith) (omega arith))
        ]
  ]

  -- The zeros that `del_data` writes fall on the bytes that it deletes.
  clear_front-bytes :
      0 < n
      → let t = add_size tail n % len in span (clear_front r n) len head t ≡ span buff len head t
  unfolding clear_front
  clear_front-bytes pos = elim (dec_le tail head) [
    | yes p ↦
        let lc = length-contents_straight v p in
        rw (lt→ltb tail head (omega arith), next_tail (omega arith))
          (span-copy_at_before buff len head (tail + n) tail (replicate n 0)
            (omega (arith, length-replicate {A = ℕ} n 0)) (inl (omega arith)))
    | no p ↦
        let q : head < tail = omega arith in
        let lc = length-contents_wrapped v q in
        rw (le→ltb tail head (omega arith), lt→ltb head tail q, len1-eq)
          (elim (dec_lt (tail + n) len) [
            | yes here ↦
                rw (le→leb n (len - tail) (omega arith), next_tail here)
                  (span-copy_at_before buff len head (tail + n) tail (replicate n 0)
                    (omega (arith, length-replicate {A = ℕ} n 0)) (inr (omega arith)))
            | no there ↦
                rw (next_tail_round (omega arith) (omega arith))
                  (round q (omega arith) (omega arith))
          ])
  ]
    where
      round :
          head < tail
          → len ≤ tail + n
          → tail + n - len ≤ head
          → span
              (if leb n (len - tail)
                then copy_at buff tail (replicate n 0)
                else copy_at
                    (copy_at buff tail (replicate (len - tail) 0))
                    0
                    (replicate (sub_size n (len - tail)) 0))
              len
              head
              (tail + n - len)
            ≡ span buff len head (tail + n - len)
      round q past fits = elim (dec_le n (len - tail)) [
        | yes whole ↦ rw (le→leb n (len - tail) whole) (
            span-copy_at_behind buff len head (tail + n - len) tail (replicate n 0) fits
              (omega arith))
        | no split ↦
            let e : sub_size n (len - tail) ≡ tail + n - len = omega arith in
            rw (lt→leb n (len - tail) (omega arith), e)
              (span-copy_at_before (copy_at buff tail (replicate (len - tail) 0)) len head
                  (tail + n - len) 0 (replicate (tail + n - len) 0)
                  (omega (arith, length-replicate {A = ℕ} (tail + n - len) 0)) (inl fits)
                ∙ span-copy_at_behind buff len head (tail + n - len) tail (replicate (len - tail) 0)
                    fits (omega arith))
      ]

  length-clear_front : length (clear_front r n) ≡ length buff
  unfolding clear_front
  length-clear_front = ground (
    arith,
    length-copy_at buff tail (replicate n 0),
    length-copy_at buff tail (replicate (sub_size len tail) 0),
    length-copy_at (copy_at buff tail (replicate (sub_size len tail) 0)) 0
        (replicate (sub_size n (sub_size len tail)) 0),
  )

  -- `step` drops the first `n` bytes, if that many are held.
  pub step-Holds : Holds (drop n (contents r)) (step r n)
  unfolding step
  step-Holds = record {
    valid = record {
      block = v.block;
      room = v.room;
      small = v.small;
      head_in = v.head_in;
      tail_in = omega arith;
    };
    bytes = step-bytes;
  }

  -- `del_data` of at least one and at most all bytes.
  pub del_data-Holds :
      0 < n → ((del_data r n).0 ≡ true) × Holds (drop n (contents r)) (del_data r n).1
  unfolding del_data
  del_data-Holds pos =
      let t1 : ltb (data_size r) n ≡ false = le→ltb _ _ (omega (arith, data_size-contents v)) in
      let t2 : (n == 0) ≡ false = ground arith in
      rw (t1, t2)
        (
          refl,
          record {
            valid = record {
              block = length-clear_front ∙ v.block;
              room = v.room;
              small = v.small;
              head_in = v.head_in;
              tail_in = omega arith;
            };
            bytes = clear_front-bytes pos ∙ step-bytes;
          },
        )
