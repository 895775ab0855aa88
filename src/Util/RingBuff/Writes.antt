-- ===== src/Util/RingBuff/Writes.antt =====
-- `add_data`: the four layouts of its copy, and its loop.
use rubo.Base.{
  ℕ, ◌+◌, ◌-◌, ◌%◌, ◌^◌, ◌≤◌, ◌<◌, ◌≡◌, ap, ◌∙◌, true, false, List, ◌++◌, arith, length, take, drop,
  copy_at, leb, le→leb, lt→leb, length-copy_at, length-take, length-drop, take-append-drop, dec_le,
  dec_lt,
}
use native.Mathlib.Nat.{mod-eq_of_lt, mod_self}
use rubo.Base.Int.{add_size, sub_size}
use rubo.Util.RingBuff.{RingBuff, put_bytes, add_data}
use rubo.Util.RingBuff.Span.{
  contents, IsValid, span, span-write_straight, span-write_to_end, span-write_below,
  span-write_round,
}
use rubo.Util.RingBuff.Growth.{
  grow-Grown, data_size-contents, length-contents_straight, length-contents_wrapped,
}

-- What an operation leaves: a valid ring, and the bytes that it holds.
pub record Holds (xs : List ℕ) (r : RingBuff) : Type 0 where
  pub valid : IsValid r
  pub bytes : contents r ≡ xs

module _ {r : RingBuff} (v : IsValid r) (xs : List ℕ) where
  open r use {buff, len, head, tail}

  -- `(_head + len) % _len`, short of the end and at it.
  next_head : head + length xs < len → add_size head (length xs) % len ≡ head + length xs
  next_head h =
      let e : add_size head (length xs) ≡ head + length xs = omega arith in rw e (mod-eq_of_lt h)

  next_head_at_end : head + length xs ≡ len → add_size head (length xs) % len ≡ 0
  next_head_at_end h = let e : add_size head (length xs) ≡ len = omega arith in rw e (mod_self len)

  straight : ℕ → RingBuff
  straight h = record r { buff = copy_at buff head xs; head = h }

  straight-Holds :
      (h : ℕ)
      → h < len
      → span (copy_at buff head xs) len h tail ≡ contents r ++ xs
      → Holds (contents r ++ xs) (straight h)
  unfolding straight
  straight-Holds h lt e = record {
    valid = record {
      block = length-copy_at buff head xs ∙ v.block;
      room = v.room;
      small = v.small;
      head_in = lt;
      tail_in = v.tail_in;
    };
    bytes = e;
  }

  round : RingBuff
  round =
      let len1 = sub_size len head in
      record r {
        buff = copy_at (copy_at buff head (take len1 xs)) 0 (drop len1 xs);
        head = sub_size (length xs) len1;
      }

  round-Holds :
      tail ≤ head
      → len < head + length xs
      → head + length xs < len + tail
      → Holds (contents r ++ xs) round
  unfolding round
  round-Holds p h fits =
      let e : sub_size len head ≡ len - head = omega arith in
      let ys = take (len - head) xs in
      let zs = drop (len - head) xs in
      let ly : length ys ≡ len - head = omega (arith, length-take (len - head) xs) in
      let lz : length zs ≡ length xs - (len - head) = length-drop (len - head) xs in
      let ez : sub_size (length xs) (len - head) ≡ length zs = omega arith in
      rw (e, ez)
        (record {
          valid = record {
            block =
                length-copy_at (copy_at buff head ys) 0 zs ∙ length-copy_at buff head ys ∙ v.block;
            room = v.room;
            small = v.small;
            head_in = omega arith;
            tail_in = v.tail_in;
          };
          bytes =
              span-write_round buff len head tail ys zs v.block p (omega arith) (omega arith)
              ∙ ap (λ l. contents r ++ l) (take-append-drop (len - head) xs);
        })

  -- The copy appends if a byte stays free.
  put_bytes-Holds :
      length (contents r) + length xs + 1 < len → Holds (contents r ++ xs) (put_bytes r xs)
  unfolding put_bytes straight round
  put_bytes-Holds room = elim (dec_le tail head) [
    | yes p ↦
        let lc = length-contents_straight v p in
        let e : sub_size len head ≡ len - head = omega arith in
        elim (dec_lt len (head + length xs)) [
          | yes over ↦
              let t1 : leb (length xs) (sub_size len head) ≡ false =
                rw e (lt→leb _ _ (omega arith)) in
              rw (le→leb tail head p, t1) (round-Holds p over (omega arith))
          | no under ↦
              let t1 : leb (length xs) (sub_size len head) ≡ true =
                rw e (le→leb _ _ (omega arith)) in
              rw (le→leb tail head p, t1) (fitting p (omega arith) lc)
        ]
    | no p ↦
        let q : head < tail = omega arith in
        let lc = length-contents_wrapped v q in
        rw (lt→leb tail head q, next_head (omega arith))
          (straight-Holds (head + length xs) (omega arith)
            (span-write_below buff len head tail xs v.block q (omega arith) (omega arith)))
  ]
    where
      fitting :
          tail ≤ head
          → head + length xs ≤ len
          → length (contents r) ≡ head - tail
          → Holds (contents r ++ xs) (straight (add_size head (length xs) % len))
      fitting p fits lc = elim (dec_lt (head + length xs) len) [
        | yes inside ↦ rw (next_head inside) (
            straight-Holds (head + length xs) inside
              (span-write_straight buff len head tail xs v.block p inside))
        | no at_end ↦
            let e : head + length xs ≡ len = omega arith in
            rw (next_head_at_end e) (
              straight-Holds 0 (omega arith)
                (span-write_to_end buff len head tail xs v.block p e (omega arith)))
      ]

-- `add_data` on a valid ring that will hold less than 2^62 bytes keeps it valid and appends exactly
-- the given bytes, whatever the layout and however often the block has to grow.
pub add_data-Holds :
    {r : RingBuff} (xs : List ℕ)
    → IsValid r
    → length (contents r) + length xs + 1 < 2 ^ 62
    → Holds (contents r ++ xs) (add_data r xs)
unfolding add_data
add_data-Holds {r} xs v small =
    let g =
      grow-Grown (length xs + 2) r (length xs) v small (omega (arith, data_size-contents v)) in
    rw (← g.same) (put_bytes-Holds g.valid xs (rw g.same g.room))
