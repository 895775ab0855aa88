-- ===== src/Util/RingBuff/Takes.antt =====
-- The reads of a ring whose contents are known as a front and a rest.
use rubo.Base.{
  ℕ, ◌≡◌, ap, ◌∙◌, ◌≢◌, true, false, List, ◌++◌, arith, length, take, drop, ltb, ◌==◌, le→ltb,
  length-append, take-append_self, drop-append_self,
}
use rubo.Util.RingBuff.{RingBuff, del_data, read_begin, read_del_begin, data_size}
use rubo.Util.RingBuff.Queue
use rubo.Util.RingBuff.Queue.{takes, deletes}
use rubo.Util.RingBuff.Span.{contents}
use rubo.Util.RingBuff.Growth.{data_size-contents}
use rubo.Util.RingBuff.Writes.{Holds}
use rubo.Util.RingBuff.Refine.{call, read_begin_lem, del_data_lem, read_del_begin_lem}

module _ {r : RingBuff} (xs ys : List ℕ) (h : Holds (xs ++ ys) r) (n : ℕ) (e : length xs ≡ n) where
  fits : ltb (length (contents r)) n ≡ false
  fits = rw h.bytes (le→ltb _ n (omega (arith, length-append xs ys)))

  pub read_begin-append : read_begin r n ≡ (true, xs)
  read_begin-append =
      read_begin_lem h.valid n
      ∙ rw fits (ap (λ l. (true, l)) (ap (take n) h.bytes ∙ take-append_self n xs ys e))

  front : take n (contents r) ≡ xs
  front = ap (take n) h.bytes ∙ take-append_self n xs ys e

  rest : drop n (contents r) ≡ ys
  rest = ap (drop n) h.bytes ∙ drop-append_self n xs ys e

  pub del_data-append : n ≢ 0 → Holds ys (del_data r n).1
  unfolding Queue.apply call
  del_data-append nz =
      let z : (n == 0) ≡ false = ground arith in
      let a = rw (fits, z, rest) at (del_data_lem h.valid n) in a.holds

  pub read_del_begin-append :
      n ≢ 0
      → let (done, bytes, r') = read_del_begin r n in (done ≡ true) × (bytes ≡ xs) × Holds ys r'
  unfolding Queue.apply call
  read_del_begin-append nz =
      let z : (n == 0) ≡ false = ground arith in
      let a = rw (fits, z, rest, front) at (read_del_begin_lem h.valid n) in
      (ap (λ p. p.0) a.reply, ap (λ p. p.1) a.reply, a.holds)

-- `data_size` counts the bytes held.
pub data_size-Holds : {r : RingBuff} {xs : List ℕ} → Holds xs r → data_size r ≡ length xs
data_size-Holds h = (data_size-contents h.valid).0 ∙ ap length h.bytes
