-- ===== src/Util/RingBuff/Drop.antt =====
-- What a ring holds when its tail moves up.
use rubo.Base.{
  ℕ, ◌+◌, ◌-◌, ◌≤◌, ◌<◌, ◌≡◌, refl, sym, ap, ap₂, ◌∙◌, List, ◌++◌, append_assoc, ◌⊎◌, arith, length,
  drop, slice, copy_at, length-append, length-slice, slice-add, slice-copy_at_before,
  slice-copy_at_after, drop-append_self, dec_le,
}
use rubo.Util.RingBuff.Span.{span, span_straight, span_wrapped}

module _ (b : List ℕ) (len head tail n : ℕ) (block : length b ≡ len) where
  pub span-drop_straight :
      head ≤ len → tail + n ≤ head → span b len head (tail + n) ≡ drop n (span b len head tail)
  span-drop_straight hl h =
      rw (span_straight b len head (tail + n) h, span_straight b len head tail (omega arith))
        (sym (
          ap (drop n)
            (slice-add b tail n (head - (tail + n)) (head - tail) (tail + n) (omega arith) refl)
          ∙ drop-append_self n _ _ (length-slice b tail n (omega arith))))

  pub span-drop_wrapped :
      head < tail → tail + n < len → span b len head (tail + n) ≡ drop n (span b len head tail)
  span-drop_wrapped h fits =
      rw (span_wrapped b len head (tail + n) (omega arith), span_wrapped b len head tail h)
        (sym (
          ap (λ l. drop n (l ++ slice b 0 head))
            (slice-add b tail n (len - (tail + n)) (len - tail) (tail + n) (omega arith) refl)
          ∙ ap (drop n) (append_assoc (slice b tail n) _ _)
          ∙ drop-append_self n _ _ (length-slice b tail n (omega arith))))

  -- The tail goes round the end, to `new_tail`.
  pub span-drop_round :
      (new_tail : ℕ)
      → head < tail
      → tail < len
      → tail + n ≡ len + new_tail
      → new_tail ≤ head
      → span b len head new_tail ≡ drop n (span b len head tail)
  span-drop_round new_tail h t e fits =
      rw (span_straight b len head new_tail fits, span_wrapped b len head tail h)
        (sym (
          ap (λ l. drop n (slice b tail (len - tail) ++ l))
            (slice-add b 0 new_tail (head - new_tail) head new_tail (omega arith) (omega arith))
          ∙ ap (drop n) (
              sym (
                append_assoc (slice b tail (len - tail)) (slice b 0 new_tail)
                  (slice b new_tail (head - new_tail))))
          ∙ drop-append_self n (slice b tail (len - tail) ++ slice b 0 new_tail) _ (
              omega (
                arith,
                length-append (slice b tail (len - tail)) (slice b 0 new_tail),
                length-slice b tail (len - tail),
                length-slice b 0 new_tail,
              ))))

-- A write outside the span leaves the span alone.
module _ (b : List ℕ) (len head tail off : ℕ) (xs : List ℕ) where
  pub span-copy_at_before :
      off + length xs ≤ tail
      → (tail ≤ head) ⊎ (head ≤ off)
      → span (copy_at b off xs) len head tail ≡ span b len head tail
  span-copy_at_before h side = elim (dec_le tail head) [
    | yes p ↦
        rw (span_straight (copy_at b off xs) len head tail p, span_straight b len head tail p)
          (slice-copy_at_after b off tail (head - tail) xs h)
    | no p ↦
        rw
          (
            span_wrapped (copy_at b off xs) len head tail (omega arith),
            span_wrapped b len head tail (omega arith),
          )
          (ap₂ ◌++◌ (slice-copy_at_after b off tail (len - tail) xs h)
            (slice-copy_at_before b off 0 head xs (omega arith)))
  ]

  pub span-copy_at_behind :
      tail ≤ head → head ≤ off → span (copy_at b off xs) len head tail ≡ span b len head tail
  span-copy_at_behind h p =
      rw (span_straight (copy_at b off xs) len head tail h, span_straight b len head tail h)
        (slice-copy_at_before b off tail (head - tail) xs (omega arith))
