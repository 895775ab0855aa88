-- ===== src/Msgs/MsgCenter/Any/Rounds.antt =====
-- One round of `parse_package` on any bytes.
use mathlib.Core.Path.{subst}
use rubo.Base.{
  ℕ, ◌+◌, ◌≤◌, ◌<◌, ◌≡◌, refl, sym, ap, ◌∙◌, ◌⊎◌, inl, inr, true, false, List, [], ◌++◌,
  append_assoc, append-nil, Option, none, some, arith, length, leb, ltb, le→leb, lt→leb, le→ltb,
  lt→ltb, dec_lt, dec_le, length-append,
}
use rubo.Base.Int.{ℤ, from_bytes}
use rubo.Base.Fault.{◌>>=◌}
use rubo.Util.RingBuff.{RingBuff, data_size, read_begin}
use rubo.Util.RingBuff.Writes.{Holds}
use rubo.Util.RingBuff.Takes.{read_begin-append, data_size-Holds}
use rubo.Util.LineBuffer.{LineBuffer}
use rubo.Util.LineBuffer.Laws.{IsDoubled}
use rubo.Msgs.UserMsg.{UserMsg, Protobuf}
use rubo.Msgs.MsgCenter.{
  Names, Package, Round, take_package, finish, gen_msg, parse_one, stop, parsed,
}
use rubo.Msgs.MsgCenter.Any.Take.{
  IsPackage, Packages, no_more, next, Unreadable, cut, Took, overruns, takes, take_package-Took,
}

-- What a round makes of the bytes that the ring holds.
pub data Rounded (bs : List ℕ) : Option Round → Type 0 where
  faults : Unreadable bs → Rounded bs none
  stops :
      (ring : RingBuff) (line : LineBuffer) (taken rest : List ℕ)
      → bs ≡ taken ++ rest
      → Packages taken
      → Holds rest ring
      → IsDoubled line.buff_size
      → Rounded bs (some (stop ring line))
  parses :
      (ring : RingBuff) (line : LineBuffer) (m : UserMsg) (taken rest : List ℕ)
      → bs ≡ taken ++ rest
      → IsPackage taken
      → Holds rest ring
      → IsDoubled line.buff_size
      → Rounded bs (some (parsed ring line m))

joined :
    (len_bytes header body rest : List ℕ)
    → (len_bytes ++ (header ++ body)) ++ rest ≡ len_bytes ++ (header ++ (body ++ rest))
joined len_bytes header body rest =
    append_assoc len_bytes (header ++ body) rest
    ∙ ap (λ l. len_bytes ++ l) (append_assoc header body rest)

package_of :
    (len_bytes header body id_bytes uid_bytes : List ℕ)
    → header ≡ id_bytes ++ uid_bytes
    → length len_bytes ≡ 4
    → length id_bytes ≡ 4
    → length uid_bytes ≡ 4
    → from_bytes len_bytes ≡ length body
    → 1 < length body
    → length body ≤ 2048
    → IsPackage (len_bytes ++ (header ++ body))
package_of len_bytes header body id_bytes uid_bytes eh four four' four'' read two small = record {
  len_bytes = len_bytes;
  header = header;
  body = body;
  place = refl;
  four = four;
  eight = omega (arith, length-append id_bytes uid_bytes, ap length eh);
  len_read = read;
  two = two;
  small = small;
}

module _ (proto : Protobuf) (names : Names) (sfd : ℤ) where
  finish-Rounded :
      (p : Package) (taken rest : List ℕ)
      → IsPackage taken
      → Holds rest p.ring
      → IsDoubled p.line.buff_size
      → Rounded (taken ++ rest) (some (finish proto names sfd p))
  unfolding finish
  finish-Rounded p taken rest whole h sized = go (gen_msg proto names p.msg_id)
    where
      go :
          (o : Option UserMsg)
          → Rounded (taken ++ rest) (
              some (elim o [
                | none ↦ stop p.ring p.line
                | some m ↦ parsed p.ring p.line (record {
                  uid = p.user_id;
                  sfd = sfd;
                  msg_id = p.msg_id;
                  msg = proto.parse_from m.msg p.text;
                })
              ]))
      go none =
          stops p.ring p.line taken rest refl
            (subst Packages (append-nil taken) (next taken [] whole no_more)) h sized
      go (some m) = parses p.ring p.line _ taken rest refl whole h sized

  module _ (ring : RingBuff) (line : LineBuffer) (sized : IsDoubled line.buff_size) where
    -- The bytes of a package, cut.
    whole-Rounded :
        (len_bytes header body rest id_bytes uid_bytes : List ℕ)
        → header ≡ id_bytes ++ uid_bytes
        → length len_bytes ≡ 4
        → length id_bytes ≡ 4
        → length uid_bytes ≡ 4
        → from_bytes len_bytes ≡ length body
        → 1 < length body
        → length body ≤ 2048
        → Holds (len_bytes ++ (header ++ (body ++ rest))) ring
        → (o : Option Package) → Took body rest o
        → Rounded
            (len_bytes ++ (header ++ (body ++ rest)))
            (o >>= λ p. some (finish proto names sfd p))
    unfolding package_of
    whole-Rounded len_bytes header body rest id_bytes uid_bytes eh four four' four'' read two small
          h _ (overruns full plain) =
        faults (
          let pkg =
            package_of len_bytes header body id_bytes uid_bytes eh four four' four'' read two
              small in
          record {
            before = [];
            pkg = len_bytes ++ (header ++ body);
            behind = rest;
            place = sym (joined len_bytes header body rest);
            whole_before = no_more;
            whole = pkg;
            sized = full;
            no_nul = plain;
          })
    whole-Rounded len_bytes header body rest id_bytes uid_bytes eh four four' four'' read two small
          h _ (takes p left full) =
        subst (λ l. Rounded l (some (finish proto names sfd p))) (joined len_bytes header body rest)
          (finish-Rounded p (len_bytes ++ (header ++ body)) rest
            (package_of len_bytes header body id_bytes uid_bytes eh four four' four'' read two
              small)
            left full)

    stopped :
        (bs : List ℕ)
        → Holds bs ring
        → parse_one proto names sfd ring line ≡ some (stop ring line)
        → Rounded bs (parse_one proto names sfd ring line)
    stopped bs h e = subst (Rounded bs) (sym e) (stops ring line [] bs refl no_more h sized)

    module _ (len_bytes more : List ℕ) (four : length len_bytes ≡ 4)
        (h : Holds (len_bytes ++ more) ring) where
      read : from_bytes (read_begin ring 4).1 ≡ from_bytes len_bytes
      read = ap (λ p. from_bytes p.1) (read_begin-append len_bytes more h 4 four)

      held : data_size ring ≡ 4 + length more
      held = omega (arith, data_size-Holds h, length-append len_bytes more)

      is_invalid :
          (from_bytes len_bytes ≤ 1) ⊎ (2048 < from_bytes len_bytes)
          → parse_one proto names sfd ring line ≡ some (stop ring line)
      unfolding parse_one
      is_invalid (inl few) = let t1 = le→leb _ _ few in rw (read, t1) (ground arith)
      is_invalid (inr many) = let t2 = lt→ltb _ _ many in rw (read, t2) (ground arith)

      is_short :
          length more < from_bytes len_bytes + 8
          → parse_one proto names sfd ring line ≡ some (stop ring line)
      unfolding parse_one
      is_short short =
          let t3 : ltb (data_size ring) (from_bytes len_bytes + 4 + 4 + 4) ≡ true =
            lt→ltb _ _ (omega (arith, held)) in
          rw (read, t3) (ground arith)

      is_whole :
          1 < from_bytes len_bytes
          → from_bytes len_bytes ≤ 2048
          → from_bytes len_bytes + 8 ≤ length more
          → 0 < length more
          → parse_one proto names sfd ring line ≡ (
              take_package ring line (from_bytes len_bytes) >>= λ p.
              some (finish proto names sfd p))
      unfolding parse_one
      is_whole two small whole some_more =
          let t0 : leb (data_size ring) 4 ≡ false = lt→leb _ _ (omega (arith, held)) in
          let t1 : leb (from_bytes len_bytes) 1 ≡ false = lt→leb _ _ two in
          let t2 : ltb 2048 (from_bytes len_bytes) ≡ false = le→ltb _ _ small in
          let t3 : ltb (data_size ring) (from_bytes len_bytes + 4 + 4 + 4) ≡ false =
            le→ltb _ _ (omega (arith, held)) in
          rw (t0, read, t1, t2, t3)

    whole-Holds :
        (len_bytes more bs : List ℕ)
        → bs ≡ len_bytes ++ more
        → length len_bytes ≡ 4
        → Holds bs ring
        → 1 < from_bytes len_bytes
        → from_bytes len_bytes ≤ 2048
        → from_bytes len_bytes + 8 ≤ length more
        → Rounded bs (parse_one proto names sfd ring line)
    whole-Holds len_bytes more bs e four h two small whole =
        let (id_bytes, more1, e1, four') = cut 4 more (omega arith) in
        let len1 : length more ≡ 4 + length more1 =
          omega (arith, ap length e1, length-append id_bytes more1) in
        let (uid_bytes, more2, e2, four'') = cut 4 more1 (omega arith) in
        let len2 : length more1 ≡ 4 + length more2 =
          omega (arith, ap length e2, length-append uid_bytes more2) in
        let (body, rest, e3, n) = cut (from_bytes len_bytes) more2 (omega arith) in
        let header = id_bytes ++ uid_bytes in
        let joined : id_bytes ++ (uid_bytes ++ (body ++ rest)) ≡ header ++ (body ++ rest) =
          sym (append_assoc id_bytes uid_bytes (body ++ rest)) in
        let cut_more : more ≡ id_bytes ++ (uid_bytes ++ (body ++ rest)) =
          e1 ∙ ap (λ l. id_bytes ++ l) (e2 ∙ ap (λ l. uid_bytes ++ l) e3) in
        let place : bs ≡ len_bytes ++ (header ++ (body ++ rest)) =
          e ∙ ap (λ l. len_bytes ++ l) (cut_more ∙ joined) in
        let raw : Holds (len_bytes ++ (id_bytes ++ (uid_bytes ++ (body ++ rest)))) ring =
          subst (λ l. Holds l ring) (e ∙ ap (λ l. len_bytes ++ l) cut_more) h in
        let took : Took body rest (take_package ring line (from_bytes len_bytes)) =
          subst (λ k. Took body rest (take_package ring line k)) n
            (take_package-Took ring line len_bytes id_bytes uid_bytes body rest raw four four'
              four'' (omega arith) (omega arith) sized) in
        let whole' =
          is_whole len_bytes more four (subst (λ l. Holds l ring) e h) two small whole
            (omega arith) in
        subst (λ l. Rounded l (parse_one proto names sfd ring line)) (sym place)
          (subst (Rounded (len_bytes ++ (header ++ (body ++ rest)))) (sym whole') (
            whole-Rounded len_bytes header body rest id_bytes uid_bytes refl four four' four''
              (sym n) (omega arith) (omega arith) (subst (λ l. Holds l ring) place h)
              (take_package ring line (from_bytes len_bytes)) took))

    few_bytes :
        (bs : List ℕ)
        → Holds bs ring
        → length bs ≤ 4
        → parse_one proto names sfd ring line ≡ some (stop ring line)
    unfolding parse_one
    few_bytes bs h few =
        let t0 : leb (data_size ring) 4 ≡ true = le→leb _ _ (omega (arith, data_size-Holds h)) in
        rw t0

    pub parse_one-Rounded :
        (bs : List ℕ) → Holds bs ring → Rounded bs (parse_one proto names sfd ring line)
    parse_one-Rounded bs h = elim (dec_le (length bs) 4) [
      | yes few ↦ stopped bs h (few_bytes bs h few)
      | no many ↦
          let (len_bytes, more, e, four) = cut 4 bs (omega arith) in
          let h' = subst (λ l. Holds l ring) e h in
          let n = from_bytes len_bytes in
          elim (dec_le n 1) [
            | yes low ↦ stopped bs h (is_invalid len_bytes more four h' (inl low))
            | no two ↦ elim (dec_lt 2048 n) [
              | yes high ↦ stopped bs h (is_invalid len_bytes more four h' (inr high))
              | no small ↦ elim (dec_lt (length more) (n + 8)) [
                | yes short ↦ stopped bs h (is_short len_bytes more four h' short)
                | no whole ↦
                    whole-Holds len_bytes more bs e four h (omega arith) (omega arith) (omega arith)
              ]
            ]
          ]
    ]
