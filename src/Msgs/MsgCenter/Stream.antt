-- ===== src/Msgs/MsgCenter/Stream.antt =====
-- `parse_package` on a stream of packages.
use rubo.Base.{
  ℕ, zero, suc, ◌+◌, ◌^◌, ◌≤◌, ◌<◌, ◌≡◌, ap, ◌∙◌, ◌⊎◌, inl, inr, true, List, [], ◌∷◌, ◌++◌,
  append_assoc, map, some, arith, length, leb, le→leb, length-append,
}
use rubo.Base.Int.{ℤ, IsInt, le_bytes}
use rubo.Util.RingBuff.{RingBuff, data_size}
use rubo.Util.RingBuff.Writes.{Holds}
use rubo.Util.RingBuff.Takes.{data_size-Holds}
use rubo.Util.LineBuffer.{LineBuffer}
use rubo.Util.LineBuffer.Laws.{IsDoubled}
use rubo.Util.SocketNode.{SocketNode}
use rubo.Msgs.UserMsg.{UserMsg, Protobuf}
use rubo.Msgs.MsgCenter.{
  Names, MsgCenter, Package, gen_msg, finish, parse_one, parse_loop, parse_package, stop, parsed,
}
use rubo.Msgs.MsgCenter.Strings.{HasNoNul, until_nul-HasNoNul}
use rubo.Msgs.MsgCenter.Packages.{
  package_bytes, Taken, take_package_lem, parse_one-whole, parse_one-partial, parse_one-invalid,
}

-- Bytes at which the loop stops: too few for a header, or a package that is not there in full.
abbrev pub IsPartial : List ℕ → Type 0
IsPartial rest =
    (length rest ≤ 4)
    ⊎ ((n : ℕ) × (more : List ℕ) × (rest ≡ le_bytes n ++ more)
        × (n < 2 ^ 32)
        × (length more < n + 8))

module _ (proto : Protobuf) where
  -- The bytes that stand for a message in the stream.
  abbrev pub frame : UserMsg → List ℕ
  frame m = package_bytes m.msg_id m.uid (proto.serialize m.msg)

  unfoldable pub frames : List UserMsg → List ℕ
  frames [] = []
  frames (m ∷ ms) = frame m ++ frames ms

  -- A message that arrives as it was sent: its numbers are `int`s, its body has 2 to 2048 bytes, no
  -- zero byte and not the exact size of a buffer, its number is known, and protobuf reads back what
  -- it wrote.
  pub record IsSendable (names : Names) (m : UserMsg) : Type 0 where
    pub id_in : IsInt m.msg_id
    pub uid_in : IsInt m.uid
    pub two : 1 < length (proto.serialize m.msg)
    pub small : length (proto.serialize m.msg) ≤ 2048
    pub odd : IsDoubled (length (proto.serialize m.msg)) → ⊥
    pub no_nul : HasNoNul (proto.serialize m.msg)
    pub known :
        (p : UserMsg) × (gen_msg proto names m.msg_id ≡ some p)
        × (proto.parse_from p.msg (proto.serialize m.msg) ≡ m.msg)

  abbrev pub AllSendable : Names → List UserMsg → Type 0
  AllSendable names [] = Unit
  AllSendable names (m ∷ ms) = IsSendable names m × AllSendable names ms

  -- A message as the receiver has it: with the descriptor that it came from.
  abbrev pub received_on : ℤ → UserMsg → UserMsg
  received_on sfd m = record m { sfd = sfd }

  module _ (names : Names) (sfd : ℤ) where
    finish-Taken :
        (m : UserMsg) (rest : List ℕ) (p : Package)
        → IsSendable names m
        → Taken m.msg_id m.uid (proto.serialize m.msg) rest p
        → finish proto names sfd p ≡ parsed p.ring p.line (received_on sfd m)
    unfolding finish
    finish-Taken m rest p s t =
        let (g, eg, back) = s.known in
        let body = proto.serialize m.msg in
        let found : gen_msg proto names p.msg_id ≡ some g =
          ap (gen_msg proto names) t.id_read ∙ eg in
        let text : proto.parse_from g.msg p.text ≡ m.msg =
          ap (proto.parse_from g.msg) (t.text_read ∙ until_nul-HasNoNul body s.no_nul) ∙ back in
        rw (found, finish)
          (ap (parsed p.ring p.line)
            (λ i. record { uid = t.uid_read i; sfd = sfd; msg_id = t.id_read i; msg = text i }))

    parse_one-frame :
        (ring : RingBuff) (line : LineBuffer) (m : UserMsg) (rest : List ℕ)
        → IsSendable names m
        → Holds (frame m ++ rest) ring
        → IsDoubled line.buff_size
        → (ring' : RingBuff) × (line' : LineBuffer) × (parse_one proto names sfd ring line
            ≡ some (parsed ring' line' (received_on sfd m)))
          × Holds rest ring'
          × IsDoubled line'.buff_size
    parse_one-frame ring line m rest s h sized =
        let body = proto.serialize m.msg in
        let (p, e, t) =
          take_package_lem ring line m.msg_id m.uid body rest h s.id_in s.uid_in s.two s.small s.odd
            sized in
        let whole =
          parse_one-whole ring (length body) _ h proto names sfd line s.two s.small
            (omega (arith, length-append body rest)) in
        (p.ring, p.line, whole ∙ rw e (ap some (finish-Taken m rest p s t)), t.left, t.buffer)

    parse_one-IsPartial :
        (ring : RingBuff) (line : LineBuffer) (rest : List ℕ)
        → IsPartial rest
        → Holds rest ring
        → parse_one proto names sfd ring line ≡ some (stop ring line)
    unfolding parse_one
    parse_one-IsPartial ring line rest (inl few) h =
        let t : leb (data_size ring) 4 ≡ true = le→leb _ _ (omega (arith, data_size-Holds h)) in
        rw t
    parse_one-IsPartial ring line rest (inr (n, more, e, small, short)) h =
        parse_one-partial ring n more (record { valid = h.valid; bytes = h.bytes ∙ e }) proto names
          sfd line small short

    -- The loop stops at these bytes.
    abbrev pub Stops : List ℕ → Type 0
    Stops rest =
        (ring : RingBuff) (line : LineBuffer)
        → Holds rest ring
        → parse_one proto names sfd ring line ≡ some (stop ring line)

    -- Fuel for one round more than there are messages is enough.
    pub parse_loop-frames :
        (fuel : ℕ) (ring : RingBuff) (line : LineBuffer) (ms : List UserMsg) (rest : List ℕ)
        → length ms < fuel
        → AllSendable names ms
        → Stops rest
        → Holds (frames ms ++ rest) ring
        → IsDoubled line.buff_size
        → (ring' : RingBuff) × (line' : LineBuffer) × (parse_loop proto fuel names sfd ring line
            ≡ some (ring', line', map (received_on sfd) ms))
          × Holds rest ring'
          × IsDoubled line'.buff_size
    unfolding parse_loop frames
    parse_loop-frames zero ring line ms rest lt all stops h sized = absurd (omega arith)
    parse_loop-frames (suc fuel) ring line [] rest lt all stops h sized =
        (ring, line, rw (stops ring line h, parse_loop), h, sized)
    parse_loop-frames (suc fuel) ring line (m ∷ ms) rest lt all stops h sized =
        let h' : Holds (frame m ++ (frames ms ++ rest)) ring = record {
          valid = h.valid;
          bytes = h.bytes ∙ append_assoc (frame m) (frames ms) rest;
        } in
        let (ring1, line1, e1, h1, s1) =
          parse_one-frame ring line m (frames ms ++ rest) all.0 h' sized in
        let (ring2, line2, e2, h2, s2) =
          parse_loop-frames fuel ring1 line1 ms rest (omega arith) all.1 stops h1 s1 in
        (ring2, line2, rw (e1, parse_loop, e2), h2, s2)

  length-frames : (ms : List UserMsg) → length ms ≤ length (frames ms)
  unfolding frames
  length-frames [] = omega arith
  length-frames (m ∷ ms) = omega (arith, length-append (frame m) (frames ms), length-frames ms)

  -- What `parse_package` makes of messages and bytes at which the loop stops.
  pub parse_package-Stops :
      (center : MsgCenter) (sock : SocketNode) (ms : List UserMsg) (rest : List ℕ)
      → AllSendable center.names ms
      → Stops center.names sock.sfd rest
      → Holds (frames ms ++ rest) sock.rd_buff
      → IsDoubled center.parse_buff.buff_size
      → (ring : RingBuff) × (line : LineBuffer) × (parse_package proto center sock
          ≡ some (
            record center { parse_buff = line },
            record sock { rd_buff = ring },
            map (received_on sock.sfd) ms,
          ))
        × Holds rest ring
        × IsDoubled line.buff_size
  unfolding parse_package
  parse_package-Stops center sock ms rest all stops h sized =
      let (ring, line, e, h', s') =
        parse_loop-frames center.names sock.sfd (suc (data_size sock.rd_buff)) sock.rd_buff
          center.parse_buff ms rest
          (omega (arith, data_size-Holds h, length-append (frames ms) rest, length-frames ms)) all
          stops h sized in
      (ring, line, rw e, h', s')

  -- If the receive ring of a connection holds the frames of messages that protobuf reads back
  -- (their ids known, their bodies of 2 to 2048 bytes, with no zero byte and not the exact size of
  -- a buffer) and then an unfinished package, `parse_package` returns exactly these messages, in
  -- order and marked with the descriptor of the connection, and leaves the unfinished package in
  -- the ring.
  pub parse_package-frames :
      (center : MsgCenter) (sock : SocketNode) (ms : List UserMsg) (rest : List ℕ)
      → AllSendable center.names ms
      → IsPartial rest
      → Holds (frames ms ++ rest) sock.rd_buff
      → IsDoubled center.parse_buff.buff_size
      → (ring : RingBuff) × (line : LineBuffer) × (parse_package proto center sock
          ≡ some (
            record center { parse_buff = line },
            record sock { rd_buff = ring },
            map (received_on sock.sfd) ms,
          ))
        × Holds rest ring
        × IsDoubled line.buff_size
  parse_package-frames center sock ms rest all part =
      parse_package-Stops center sock ms rest all
        (λ ring line h. parse_one-IsPartial center.names sock.sfd ring line rest part h)

  -- A length of at most 1 or more than 2048 in the stream blocks the connection: `parse_package`
  -- returns the messages before it and leaves it in the ring with whatever follows, so that no
  -- message behind it is ever taken, however many bytes arrive.
  pub parse_package-stuck :
      (center : MsgCenter) (sock : SocketNode) (ms : List UserMsg) (n : ℕ) (more : List ℕ)
      → AllSendable center.names ms
      → n < 2 ^ 32
      → (n ≤ 1) ⊎ (2048 < n)
      → Holds (frames ms ++ (le_bytes n ++ more)) sock.rd_buff
      → IsDoubled center.parse_buff.buff_size
      → (ring : RingBuff) × (line : LineBuffer) × (parse_package proto center sock
          ≡ some (
            record center { parse_buff = line },
            record sock { rd_buff = ring },
            map (received_on sock.sfd) ms,
          ))
        × Holds (le_bytes n ++ more) ring
        × IsDoubled line.buff_size
  parse_package-stuck center sock ms n more all small invalid =
      parse_package-Stops center sock ms (le_bytes n ++ more) all (λ ring line h.
        parse_one-invalid ring n more h proto center.names sock.sfd line small invalid)
