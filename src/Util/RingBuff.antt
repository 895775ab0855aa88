-- ===== src/Util/RingBuff.antt =====
-- util/RingBuff.hpp, util/RingBuff.cpp: the byte ring behind each socket, as a record.
-- A method that changes the object returns the new object. `data` and `len` of `add_data` are one
-- list; a read returns the bytes that go through `dest`. `show` only prints and is left out.
pub mod Span
pub mod Drop
pub mod Growth
pub mod Writes
pub mod Reads
pub mod Queue
pub mod Refine
pub mod Takes
use rubo.Base.{
  ℕ, zero, suc, ◌+◌, ◌%◌, Bool, true, false, List, [], ◌++◌, length, take, drop, replicate, slice,
  copy_at, ltb, leb, ◌==◌, ◌||◌, if◌then◌else◌,
}
use rubo.Base.Int.{add_size, sub_size, mul_size}

abbrev pub default_buff_size : ℕ
default_buff_size = 4

-- A byte is any number: bytes are moved and zeroed, never computed with.
pub record RingBuff : Type 0 where
  pub buff : List ℕ
  pub len : ℕ
  pub head : ℕ
  pub tail : ℕ

unfoldable pub new_ring : RingBuff
new_ring = record {
  buff = replicate default_buff_size 0;
  len = default_buff_size;
  head = 0;
  tail = 0;
}

unfoldable pub left_size : RingBuff → ℕ
left_size r =
    if leb r.tail r.head then sub_size r.len (sub_size r.head r.tail) else sub_size r.tail r.head

unfoldable pub data_size : RingBuff → ℕ
data_size r = sub_size r.len (left_size r)

-- The size of the next block: four more bytes above 1024, and double up to there.
abbrev pub next_len : ℕ → ℕ
next_len len = if ltb 1024 len then add_size len default_buff_size else mul_size len 2

-- The held bytes, moved to the start of a zeroed block.
unfoldable pub append_size : RingBuff → RingBuff
append_size r =
    let new_len = next_len r.len in
    let new_buff = replicate new_len 0 in
    let len1 = sub_size r.len r.tail in
    record {
      buff =
          if leb r.tail r.head
          then copy_at new_buff 0 (slice r.buff r.tail (sub_size r.head r.tail))
          else copy_at (copy_at new_buff 0 (slice r.buff r.tail len1)) len1 (slice r.buff 0 r.head);
      len = new_len;
      head = data_size r;
      tail = 0;
    }

-- The bytes that `del_data` overwrites by zeros.
unfoldable pub clear_front : RingBuff → ℕ → List ℕ
clear_front r n =
    let len1 = sub_size r.len r.tail in
    if ltb r.tail r.head
    then copy_at r.buff r.tail (replicate n 0)
    else (if ltb r.head r.tail
        then (if leb n len1
            then copy_at r.buff r.tail (replicate n 0)
            else copy_at (copy_at r.buff r.tail (replicate len1 0)) 0
                (replicate (sub_size n len1) 0))
        else r.buff)

unfoldable pub step : RingBuff → ℕ → RingBuff
step r n = record r { tail = add_size r.tail n % r.len }

unfoldable pub del_data : RingBuff → ℕ → Bool × RingBuff
del_data r n =
    if ltb (data_size r) n || n == 0
    then (false, r)
    else (true, record r { buff = clear_front r n; tail = add_size r.tail n % r.len })

-- The bytes that a read copies to `dest`.
unfoldable pub front_bytes : RingBuff → ℕ → List ℕ
front_bytes r n =
    let len1 = sub_size r.len r.tail in
    if leb r.tail r.head
    then slice r.buff r.tail n
    else (if leb n len1
        then slice r.buff r.tail n
        else slice r.buff r.tail len1 ++ slice r.buff 0 (sub_size n len1))

-- The result and the bytes written to `dest`; on failure none are.
unfoldable pub read_begin : RingBuff → ℕ → Bool × List ℕ
read_begin r n = if ltb (data_size r) n then (false, []) else (true, front_bytes r n)

unfoldable pub read_del_begin : RingBuff → ℕ → Bool × List ℕ × RingBuff
read_del_begin r n =
    if ltb (data_size r) n
    then (false, [], r)
    else (let (done, r') = del_data r n in (done, front_bytes r n, r'))

-- `while(left_size() <= len + 1) append_size();` on fuel.
unfoldable pub grow : ℕ → RingBuff → ℕ → RingBuff
grow zero r n = r
grow (suc fuel) r n = elim (leb (left_size r) (add_size n 1)) [
  | true ↦ grow fuel (append_size r) n
  | false ↦ r
]

-- The copy of `add_data` behind its loop.
unfoldable pub put_bytes : RingBuff → List ℕ → RingBuff
put_bytes r data_in =
    let n = length data_in in
    let len1 = sub_size r.len r.head in
    let straight : RingBuff = record r {
      buff = copy_at r.buff r.head data_in;
      head = add_size r.head n % r.len;
    } in
    if leb r.tail r.head
    then (if leb n len1 then straight else record r {
      buff = copy_at (copy_at r.buff r.head (take len1 data_in)) 0 (drop len1 data_in);
      head = sub_size n len1;
    })
    else straight

-- Each round of the loop makes at least one byte more room, so `len + 2` rounds are enough.
unfoldable pub add_data : RingBuff → List ℕ → RingBuff
add_data r data_in = put_bytes (grow (length data_in + 2) r (length data_in)) data_in
