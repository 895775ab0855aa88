-- ===== src/Msgs/MsgCenter/Any.antt =====
-- `parse_package` on any bytes, whoever sent them.
pub mod Take
pub mod Rounds
use mathlib.Core.Path.{subst}
use rubo.Base.{
  ℕ, zero, suc, ◌+◌, ◌-◌, ◌*◌, ◌≤◌, ◌<◌, ◌≡◌, ◌≢◌, refl, sym, ap, ◌∙◌, ◌⊎◌, inl, inr, Bool, true,
  false, List, [], ◌∷◌, ◌++◌, append_assoc, Option, none, some, arith, length, take, drop,
  replicate, copy_at, leb, ltb, ◌==◌, ◌||◌, if◌then◌else◌, le→leb, lt→leb, le→ltb, lt→ltb, dec_lt,
  dec_le, ℕ_discrete, length-append, length-take, length-drop, take-append-drop, Bool-cases,
}
use rubo.Base.Int.{ℤ, from_bytes, of_u32}
use rubo.Msgs.MsgCenter.{Round}
use rubo.Base.Fault.{◌>>=◌}
use rubo.Util.RingBuff.{RingBuff, data_size, del_data, read_begin, read_del_begin}
use rubo.Util.RingBuff.Writes.{Holds}
use rubo.Util.RingBuff.Takes.{
  read_begin-append, del_data-append, read_del_begin-append, data_size-Holds,
}
use rubo.Util.LineBuffer.{LineBuffer}
use rubo.Util.LineBuffer.Laws.{
  append_size-clean_data, Doubling, IsDoubled, Doubling-IsDoubled, doubled-le,
}
use rubo.Util.SocketNode.{SocketNode}
use rubo.Msgs.UserMsg.{UserMsg, Protobuf}
use rubo.Msgs.MsgCenter.{
  Names, MsgCenter, Package, take_package, finish, gen_msg, parse_one, parse_loop, parse_package,
  stop, parsed, c_string,
}
use rubo.Msgs.MsgCenter.Strings.{HasNoNul, c_string_full}
use rubo.Msgs.MsgCenter.Any.Take.{IsPackage, Packages, next, Unreadable, Unreadable-append}
use rubo.Msgs.MsgCenter.Any.Rounds.{Rounded, faults, stops, parses, parse_one-Rounded}

-- Either a package is unreadable, or the loop returns: the messages and the rest are made of the bytes.
pub data Parsed (bs : List ℕ) : Option (RingBuff × LineBuffer × List UserMsg) → Type 0 where
  overrun : Unreadable bs → Parsed bs none
  returned :
      (ring : RingBuff) (line : LineBuffer) (ms : List UserMsg) (taken rest : List ℕ)
      → bs ≡ taken ++ rest
      → Packages taken
      → 14 * length ms ≤ length taken
      → Holds rest ring
      → IsDoubled line.buff_size
      → Parsed bs (some (ring, line, ms))

IsPackage-long : (xs : List ℕ) → IsPackage xs → 14 ≤ length xs
IsPackage-long xs p = omega (
  arith,
  ap length p.place,
  length-append p.len_bytes (p.header ++ p.body),
  length-append p.header p.body,
  p.four,
  p.eight,
  p.two,
)

-- The result with one message more in front.
abbrev with_msg :
    UserMsg
    → Option (RingBuff × LineBuffer × List UserMsg)
    → Option (RingBuff × LineBuffer × List UserMsg)
with_msg m none = none
with_msg m (some (ring, line, ms)) = some (ring, line, m ∷ ms)

with_msg-Parsed :
    (m : UserMsg) (taken rest : List ℕ) (o : Option (RingBuff × LineBuffer × List UserMsg))
    → IsPackage taken
    → Parsed rest o
    → Parsed (taken ++ rest) (with_msg m o)
with_msg-Parsed m taken rest _ whole (overrun u) = overrun (Unreadable-append taken whole u)
with_msg-Parsed m taken rest _ whole (returned ring line ms taken' rest' e all bound h sized) =
    returned ring line (m ∷ ms) (taken ++ taken') rest'
      (ap (λ l. taken ++ l) e ∙ sym (append_assoc taken taken' rest')) (next taken taken' whole all)
      (omega (arith, length-append taken taken', IsPackage-long taken whole)) h sized

module _ (proto : Protobuf) (names : Names) (sfd : ℤ) where
  loop-Parsed :
      (fuel : ℕ) (bs : List ℕ) (o : Option Round)
      → length bs ≤ fuel
      → ((ring : RingBuff) (line : LineBuffer) (bs' : List ℕ)
          → length bs' < fuel
          → IsDoubled line.buff_size
          → Holds bs' ring
          → Parsed bs' (parse_loop proto fuel names sfd ring line))
      → Rounded bs o
      → Parsed bs (elim o [
        | none ↦ none
        | some (stop ring' line') ↦ some (ring', line', [])
        | some (parsed ring' line' m) ↦ elim (parse_loop proto fuel names sfd ring' line') [
          | none ↦ none
          | some (ring'', line'', ms) ↦ some (ring'', line'', m ∷ ms)
        ]
      ])
  loop-Parsed fuel bs _ enough ih (faults u) = overrun u
  loop-Parsed fuel bs _ enough ih (stops ring line taken rest e all h sized) =
      returned ring line [] taken rest e all (omega arith) h sized
  loop-Parsed fuel bs _ enough ih (parses ring line m taken rest e whole h sized) =
      let fewer : length rest < fuel =
        omega (arith, ap length e, length-append taken rest, IsPackage-long taken whole) in
      let o = parse_loop proto fuel names sfd ring line in
      subst (Parsed bs) (same o) (
        subst (λ l. Parsed l (with_msg m o)) (sym e)
          (with_msg-Parsed m taken rest o whole (ih ring line rest fewer sized h)))
    where
      same :
          (o : Option (RingBuff × LineBuffer × List UserMsg))
          → with_msg m o
            ≡ elim o [ none ↦ none | some (ring'', line'', ms) ↦ some (ring'', line'', m ∷ ms) ]
      same none = refl
      same (some r) = refl

  parse_loop-Parsed :
      (fuel : ℕ) (ring : RingBuff) (line : LineBuffer) (bs : List ℕ)
      → length bs < fuel
      → IsDoubled line.buff_size
      → Holds bs ring
      → Parsed bs (parse_loop proto fuel names sfd ring line)
  unfolding parse_loop
  parse_loop-Parsed zero ring line bs enough sized h = absurd (omega arith)
  parse_loop-Parsed (suc fuel) ring line bs enough sized h =
      loop-Parsed fuel bs (parse_one proto names sfd ring line) (omega arith)
        (parse_loop-Parsed fuel) (parse_one-Rounded proto names sfd ring line sized bs h)

module _ (center : MsgCenter) (sock : SocketNode) (bs : List ℕ) where
  -- What `parse_package` makes of a result of the loop.
  abbrev with_center :
      Option (RingBuff × LineBuffer × List UserMsg) → Option (MsgCenter × SocketNode × List UserMsg)
  with_center o = o >>= λ (ring, line, ms).
      some (record center { parse_buff = line }, record sock { rd_buff = ring }, ms)

  abbrev pub Returned : Option (MsgCenter × SocketNode × List UserMsg) → Type 0
  Returned o =
      ((o ≡ none) × Unreadable bs)
      ⊎ ((ring : RingBuff) × (line : LineBuffer) × (ms : List UserMsg) × (taken : List ℕ)
          × (rest : List ℕ) × (o
              ≡ some (record center { parse_buff = line }, record sock { rd_buff = ring }, ms))
          × (bs ≡ taken ++ rest)
          × Packages taken
          × (14 * length ms ≤ length taken)
          × Holds rest ring
          × IsDoubled line.buff_size)

  with_center-Returned :
      (o : Option (RingBuff × LineBuffer × List UserMsg)) → Parsed bs o → Returned (with_center o)
  with_center-Returned _ (overrun u) = inl (refl, u)
  with_center-Returned _ (returned ring line ms taken rest e all bound h sized) =
      inr (ring, line, ms, taken, rest, refl, e, all, bound, h, sized)

-- Whatever bytes a connection has sent: either they are whole packages (a length of 2 to 2048 in
-- four bytes, a number and a user of four bytes each, and a body of this length), then one whose
-- body has exactly the size of a buffer and no zero byte, so that its C string is read past the
-- end, and any bytes behind; or `parse_package` returns, what it took out is whole packages, what
-- stays in the ring is the end of the bytes, it gives at most one message for each 14 bytes that it
-- took out, and the ring and the buffer stay valid.
pub parse_package-any :
    (proto : Protobuf) (center : MsgCenter) (sock : SocketNode) (bs : List ℕ)
    → Holds bs sock.rd_buff
    → IsDoubled center.parse_buff.buff_size
    → Returned center sock bs (parse_package proto center sock)
unfolding parse_package
parse_package-any proto center sock bs h sized = with_center-Returned center sock bs _ (
    parse_loop-Parsed proto center.names sock.sfd (suc (data_size sock.rd_buff)) sock.rd_buff
      center.parse_buff bs (omega (arith, data_size-Holds h)) sized h)
