-- ===== src/Util/SocketOp/Receive.antt =====
-- `read`, and the ring of the connection.
use rubo.Base.{
  length-zero, ℕ, ◌+◌, ◌-◌, ◌%◌, ◌^◌, ◌≤◌, ◌<◌, ◌≡◌, refl, ap, ap₂, sym, ◌∙◌, Bool, true, false,
  List, [], ◌∷◌, ◌++◌, append_assoc, append-nil, some, arith, length, slice, copy_at, ltb, ◌==◌,
  if◌then◌else◌, if_true, if_false, lt→ltb, le→ltb, length-append, length-copy_at, slice-add,
  slice-copy_at_before, slice-copy_at_self, take_all, ℕ_discrete,
}
use rubo.Base.Int.{pos, of_u32}
use rubo.Util.RingBuff.{add_data}
use rubo.Util.RingBuff.Writes.{Holds, add_data-Holds}
use rubo.Util.LineBuffer.{LineBuffer, clean_data}
use rubo.Util.LineBuffer.Laws.{IsValid, append_size_default, clean_data-IsValid}
use rubo.Util.SocketNode.{SocketNode, FdEvent, fd_event_none, fd_event_error, fd_or}
use rubo.Util.SocketOp.{
  SocketOp, ReadRet, got, end_of_stream, again, interrupted, failed, asked_size, read_size,
  store_read, read_loop, read,
}

-- The bytes that the loop gets, and whether it ends by an error or the end of the stream.
unfoldable pub received : List ReadRet → List ℕ
received [] = []
received (got xs ∷ script) = xs ++ received script
received (interrupted ∷ script) = received script
received (_ ∷ script) = []

unfoldable pub ended : List ReadRet → Bool
ended [] = false
ended (got xs ∷ script) = ended script
ended (interrupted ∷ script) = ended script
ended (again ∷ script) = false
ended (failed ∷ script) = true
ended (end_of_stream ∷ script) = true

-- `::read` gives at least one byte and at most those asked for. The block that a round finds is the
-- one that the rounds before have left.
unfoldable pub Conforms : LineBuffer → ℕ → List ReadRet → Type 0
Conforms line n [] = Unit
Conforms line n (got xs ∷ script) =
    (0 < length xs)
    × (length xs ≤ read_size line n)
    × ((line' : LineBuffer)
        → store_read line n xs ≡ some line'
        → Conforms line' (n + length xs) script)
Conforms line n (interrupted ∷ script) = Conforms line n script
Conforms line n (_ ∷ script) = Unit

-- The loop's invariant: `xs` is in the block, and the block is not full.
record Filled (xs : List ℕ) (line : LineBuffer) (n : ℕ) : Type 0 where
  valid : IsValid line
  count : n ≡ length xs
  room : n < line.buff_size
  small : line.buff_size < 2 ^ 31
  bytes : slice line.buff 0 n ≡ xs

of_u32_small : (w : ℕ) → w < 2 ^ 31 → of_u32 (w % 2 ^ 32) ≡ pos w
of_u32_small w h =
    let e : w % 2 ^ 32 ≡ w = omega arith in
    ap of_u32 e ∙ if_true (ltb w (2 ^ 31)) (pos w) _ (lt→ltb _ _ h)

asked_size-bounds :
    (w : ℕ)
    → 0 < w
    → (0 < asked_size (pos w)) × (asked_size (pos w) ≤ 64) × (asked_size (pos w) ≤ w)
unfolding asked_size
asked_size-bounds w h = ground arith

-- A round never asks for no byte, so a result of 0 is the end of the stream.
pub read_size-bounds :
    (line : LineBuffer) (n : ℕ)
    → n < line.buff_size
    → line.buff_size < 2 ^ 31
    → (0 < read_size line n) × (read_size line n ≤ 64) × (n + read_size line n ≤ line.buff_size)
unfolding read_size
read_size-bounds line n h small =
    let w = line.buff_size - n in
    let e : read_size line n ≡ asked_size (pos w) = ap asked_size (of_u32_small w (omega arith)) in
    let (some_asked, few, fits) = asked_size-bounds w (omega arith) in
    rw e (some_asked, few, omega arith)

store_read-Filled :
    (xs ys : List ℕ) (line : LineBuffer) (n : ℕ)
    → Filled xs line n
    → length ys ≤ read_size line n
    → length xs + length ys < 2 ^ 29
    → (line' : LineBuffer) × (store_read line n ys ≡ some line')
      × Filled (xs ++ ys) line' (n + length ys)
unfolding store_read
store_read-Filled xs ys line n f le small = elim (ℕ_discrete (n + length ys) line.buff_size) [
  | yes full ↦
      let (line', e, g, most) = append_size_default line1 valid1 (omega arith) in
      (
        line',
        if_true (n + length ys == line.buff_size) _ _ (ground arith) ∙ e,
        record {
          valid = g.valid;
          count = omega (arith, f.count, length-append xs ys);
          room = omega (arith, g.wanted);
          small = omega (arith, most, f.count);
          bytes =
              ap (slice line'.buff 0) full
              ∙ g.kept
              ∙ sym (
                  take_all (n + length ys) (copy_at line.buff n ys)
                    (omega (arith, length-copy_at line.buff n ys, f.valid.block)))
              ∙ stored;
        },
      )
  | no part ↦ (
    line1,
    if_false (n + length ys == line.buff_size) _ _ (ground arith),
    record {
      valid = valid1;
      count = omega (arith, f.count, length-append xs ys);
      room = omega (arith, read_size-bounds line n f.room f.small);
      small = f.small;
      bytes = stored;
    },
  )
]
  where
    line1 : LineBuffer
    line1 = record line { buff = copy_at line.buff n ys }

    valid1 : IsValid line1
    valid1 = record { block = length-copy_at line.buff n ys ∙ f.valid.block; room = f.valid.room }

    stored : slice (copy_at line.buff n ys) 0 (n + length ys) ≡ xs ++ ys
    stored =
        slice-add (copy_at line.buff n ys) 0 n (length ys) (n + length ys) n refl (omega arith)
        ∙ ap₂ ◌++◌ (slice-copy_at_before line.buff n 0 n ys (omega arith) ∙ f.bytes) (
            slice-copy_at_self line.buff n (length ys) ys refl
              (omega (arith, read_size-bounds line n f.room f.small, f.valid.block)))

-- The result of `read`: the error flag at an error or the end of the stream, and nothing else.
abbrev pub read_result : List ReadRet → FdEvent
read_result script = if ended script then fd_event_error else fd_event_none

read_loop-Filled :
    (script : List ReadRet) (xs : List ℕ) (line : LineBuffer) (n : ℕ)
    → Filled xs line n
    → Conforms line n script
    → length xs + length (received script) < 2 ^ 29
    → (line' : LineBuffer) × (n' : ℕ) × (read_loop script line n
        ≡ some (line', n', read_result script))
      × Filled (xs ++ received script) line' n'
unfolding read_loop received ended Conforms
read_loop-Filled [] xs line n f c small = (line, n, refl, rw append-nil f)
read_loop-Filled (again ∷ script) xs line n f c small = (line, n, refl, rw append-nil f)
read_loop-Filled (failed ∷ script) xs line n f c small = (line, n, refl, rw append-nil f)
read_loop-Filled (end_of_stream ∷ script) xs line n f c small = (line, n, refl, rw append-nil f)
read_loop-Filled (interrupted ∷ script) xs line n f c small =
    read_loop-Filled script xs line n f c small
read_loop-Filled (got ys ∷ script) xs line n f c small =
    let total = length-append ys (received script) in
    let (line1, e, f1) = store_read-Filled xs ys line n f c.1 (omega (arith, total)) in
    let (line2, n2, e2, f2) =
      read_loop-Filled script (xs ++ ys) line1 (n + length ys) f1 (c.2 line1 e)
        (omega (arith, total, length-append xs ys)) in
    (line2, n2, rw (e, read_loop) e2, rw (← append_assoc) f2)

clean_data-size : (l : LineBuffer) → l.buff_size < 2 ^ 31 → (clean_data l).buff_size < 2 ^ 31
unfolding clean_data
clean_data-size l h = h

-- If `::read` gives between one byte and the number asked for, and less than 2^29 bytes are held
-- and received, `read` returns, appends all received bytes in order to the receive ring, changes
-- nothing else of the connection but the result flags, keeps its block valid, and reports an error
-- exactly at an error or the end of the stream.
pub read_lem :
    (script : List ReadRet) (op : SocketOp) (node : SocketNode) (held : List ℕ)
    → IsValid op.rd_buff
    → op.rd_buff.buff_size < 2 ^ 31
    → Conforms (clean_data op.rd_buff) 0 script
    → Holds held node.rd_buff
    → length held + length (received script) + 1 < 2 ^ 29
    → (op' : SocketOp) × (node' : SocketNode) × (read script op node
        ≡ some (op', node', read_result script))
      × IsValid op'.rd_buff
      × (op'.rd_buff.buff_size < 2 ^ 31)
      × Holds (held ++ received script) node'.rd_buff
      × (node' ≡ record node {
        rd_buff = node'.rd_buff;
        op_ret = fd_or node.op_ret (read_result script);
      })
unfolding read
read_lem script op node held v size c h small =
    let clean = clean_data-IsValid v in
    let start : Filled [] (clean_data op.rd_buff) 0 = record {
      valid = clean;
      count = refl;
      room = clean.room;
      small = clean_data-size op.rd_buff size;
      bytes = refl;
    } in
    let (line, n, e, f) =
      read_loop-Filled script [] (clean_data op.rd_buff) 0 start c (omega arith) in
    let rd = if ltb 0 n then add_data node.rd_buff (slice line.buff 0 n) else node.rd_buff in
    (
      record op { rd_buff = line },
      record node { rd_buff = rd; op_ret = fd_or node.op_ret (read_result script) },
      rw e,
      f.valid,
      f.small,
      moved line n f,
      refl,
    )
  where
    nothing :
        (line : LineBuffer) (n : ℕ)
        → Filled (received script) line n
        → n ≡ 0
        → Holds
            (held ++ received script)
            (if ltb 0 n then add_data node.rd_buff (slice line.buff 0 n) else node.rd_buff)
    nothing line n f z =
        let e : received script ≡ [] = length-zero (received script) (omega (arith, f.count)) in
        rw
          (if_false (ltb 0 n) (add_data node.rd_buff (slice line.buff 0 n)) node.rd_buff
            (le→ltb 0 n (omega arith)))
          (record {
            valid = h.valid;
            bytes = h.bytes ∙ sym (ap (λ l. held ++ l) e ∙ append-nil held);
          })

    some_bytes :
        (line : LineBuffer) (n : ℕ)
        → Filled (received script) line n
        → Holds (held ++ received script) (add_data node.rd_buff (slice line.buff 0 n))
    some_bytes line n f =
        let a =
          add_data-Holds (slice line.buff 0 n) h.valid
            (omega (arith, ap length h.bytes, ap length f.bytes)) in
        record { valid = a.valid; bytes = a.bytes ∙ ap₂ ◌++◌ h.bytes f.bytes }

    moved :
        (line : LineBuffer) (n : ℕ)
        → Filled (received script) line n
        → Holds
            (held ++ received script)
            (if ltb 0 n then add_data node.rd_buff (slice line.buff 0 n) else node.rd_buff)
    moved line n f = elim (ℕ_discrete n 0) [
      | yes z ↦ nothing line n f z
      | no nz ↦
          rw
            (if_true (ltb 0 n) (add_data node.rd_buff (slice line.buff 0 n)) node.rd_buff
              (lt→ltb 0 n (omega arith)))
            (some_bytes line n f)
    ]
