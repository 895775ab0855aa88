-- ===== src/Msgs/MsgCenter/Packages.antt =====
-- One package at the front of the stream, as `parse_one` takes it.
use rubo.Base.{
  ℕ, ◌+◌, ◌^◌, ◌≤◌, ◌<◌, ◌≡◌, refl, ap, ◌∙◌, ◌⊎◌, inl, inr, le→leb, true, false, List, ◌++◌, some,
  arith, length, replicate, copy_at, leb, ltb, lt→leb, le→ltb, lt→ltb, ℕ_discrete,
}
use rubo.Base.Int.{
  ℤ, IsInt, to_u32, of_u32, le_bytes, from_bytes, from_bytes-le_bytes, of_u32-to_u32, to_u32-lt,
}
use rubo.Base.Fault.{◌>>=◌}
use rubo.Util.RingBuff.{RingBuff, data_size, del_data, read_begin, read_del_begin}
use rubo.Util.RingBuff.Writes.{Holds}
use rubo.Util.RingBuff.Takes.{
  read_begin-append, del_data-append, read_del_begin-append, data_size-Holds,
}
use rubo.Util.LineBuffer.{LineBuffer}
use rubo.Util.LineBuffer.Laws.{
  append_size-clean_data, Doubling, IsDoubled, Doubling-IsDoubled, doubled-le,
}
use rubo.Msgs.UserMsg.{Protobuf}
use rubo.Msgs.MsgCenter.{Names, Package, take_package, finish, parse_one, stop, c_string}
use rubo.Msgs.MsgCenter.Strings.{until_nul, c_string-copy_at}

-- A package as it stands in the stream.
abbrev pub package_bytes : ℤ → ℤ → List ℕ → List ℕ
package_bytes id uid body =
    le_bytes (length body) ++ (le_bytes (to_u32 id) ++ (le_bytes (to_u32 uid) ++ body))

-- What `take_package` returns for a package.
pub record Taken (id uid : ℤ) (body rest : List ℕ) (p : Package) : Type 0 where
  pub id_read : p.msg_id ≡ id
  pub uid_read : p.user_id ≡ uid
  pub text_read : p.text ≡ until_nul body
  pub left : Holds rest p.ring
  pub buffer : IsDoubled p.line.buff_size

IsDoubled-pos : {n : ℕ} → IsDoubled n → 0 < n
IsDoubled-pos (k, e) = omega (arith, doubled-le 256 k)

module _ (ring : RingBuff) (line : LineBuffer) (id uid : ℤ) (body rest : List ℕ) where
  -- The rings between the calls of `take_package`.
  abbrev ring1 : RingBuff
  ring1 = (del_data ring 4).1

  abbrev ring2 : RingBuff
  ring2 = (read_del_begin ring1 4).2

  abbrev ring3 : RingBuff
  ring3 = (read_del_begin ring2 4).2

  abbrev body_read : List ℕ
  body_read = (read_del_begin ring3 (length body)).1

  pub take_package_lem :
      Holds (package_bytes id uid body ++ rest) ring
      → IsInt id
      → IsInt uid
      → 1 < length body
      → length body ≤ 2048
      → (IsDoubled (length body) → ⊥)
      → IsDoubled line.buff_size
      → (p : Package) × (take_package ring line (length body) ≡ some p) × Taken id uid body rest p
  unfolding take_package
  take_package_lem h hi hu two small odd sized =
      let (t, e, d) =
        append_size-clean_data line (length body) (IsDoubled-pos sized) (omega arith)
          (omega arith) in
      let h1 = del_data-append (le_bytes (length body)) _ h 4 refl (omega arith) in
      let (_, e2, h2) = read_del_begin-append (le_bytes (to_u32 id)) _ h1 4 refl (omega arith) in
      let (_, e3, h3) = read_del_begin-append (le_bytes (to_u32 uid)) _ h2 4 refl (omega arith) in
      let (_, e4, h4) = read_del_begin-append body rest h3 (length body) refl (omega arith) in
      let lt : length body < t = fits t d in
      let c : c_string (copy_at (replicate t 0) 0 body_read) ≡ some (until_nul body) =
        ap (λ b. c_string (copy_at (replicate t 0) 0 b)) e4 ∙ c_string-copy_at t body lt in
      (
        record {
          msg_id = of_u32 (from_bytes (read_del_begin ring1 4).1);
          user_id = of_u32 (from_bytes (read_del_begin ring2 4).1);
          text = until_nul body;
          ring = (read_del_begin ring3 (length body)).2;
          line = record { buff_size = t; buff = copy_at (replicate t 0) 0 body_read };
        },
        rw (e, c),
        record {
          id_read =
              ap (λ b. of_u32 (from_bytes b)) e2
              ∙ ap of_u32 (from_bytes-le_bytes (to_u32 id) (to_u32-lt id hi))
              ∙ of_u32-to_u32 id hi;
          uid_read =
              ap (λ b. of_u32 (from_bytes b)) e3
              ∙ ap of_u32 (from_bytes-le_bytes (to_u32 uid) (to_u32-lt uid hu))
              ∙ of_u32-to_u32 uid hu;
          text_read = refl;
          left = h4;
          buffer = Doubling-IsDoubled d sized;
        },
      )
    where
      fits : (t : ℕ) → Doubling line.buff_size (length body) t → length body < t
      fits t d = elim (ℕ_discrete (length body) t) [
        | yes same ↦ let (k, e) = Doubling-IsDoubled d sized in absurd (odd (k, same ∙ e))
        | no other ↦ omega (arith, d.wanted)
      ]

-- The tests of `parse_one` on a stream that starts with a length.
module _ (ring : RingBuff) (n : ℕ) (more : List ℕ) (h : Holds (le_bytes n ++ more) ring) where
  pkg_len-eq : n < 2 ^ 32 → from_bytes (read_begin ring 4).1 ≡ n
  pkg_len-eq small =
      ap (λ p. from_bytes p.1) (read_begin-append (le_bytes n) more h 4 refl)
      ∙ from_bytes-le_bytes n small

  pub parse_one-whole :
      (proto : Protobuf) (names : Names) (sfd : ℤ) (line : LineBuffer)
      → 1 < n
      → n ≤ 2048
      → n + 8 ≤ length more
      → parse_one proto names sfd ring line
        ≡ (take_package ring line n >>= λ p. some (finish proto names sfd p))
  unfolding parse_one
  parse_one-whole proto names sfd line two small whole =
      let d = data_size-Holds h in
      let t0 : leb (data_size ring) 4 ≡ false = lt→leb _ _ (omega arith) in
      let t1 : leb n 1 ≡ false = lt→leb _ _ (omega arith) in
      let t2 : ltb 2048 n ≡ false = le→ltb _ _ (omega arith) in
      let t3 : ltb (data_size ring) (n + 4 + 4 + 4) ≡ false = le→ltb _ _ (omega arith) in
      rw (t0, pkg_len-eq (omega arith), t1, t2, t3)

  pub parse_one-partial :
      (proto : Protobuf) (names : Names) (sfd : ℤ) (line : LineBuffer)
      → n < 2 ^ 32
      → length more < n + 8
      → parse_one proto names sfd ring line ≡ some (stop ring line)
  unfolding parse_one
  parse_one-partial proto names sfd line small short =
      let d = data_size-Holds h in
      let t3 : ltb (data_size ring) (n + 4 + 4 + 4) ≡ true = lt→ltb _ _ (omega arith) in
      rw (pkg_len-eq small, t3) (ground arith)

  -- A length that no package has.
  pub parse_one-invalid :
      (proto : Protobuf) (names : Names) (sfd : ℤ) (line : LineBuffer)
      → n < 2 ^ 32
      → (n ≤ 1) ⊎ (2048 < n)
      → parse_one proto names sfd ring line ≡ some (stop ring line)
  unfolding parse_one
  parse_one-invalid proto names sfd line small (inl few) =
      let t1 : leb n 1 ≡ true = le→leb _ _ few in rw (pkg_len-eq small, t1) (ground arith)
  parse_one-invalid proto names sfd line small (inr many) =
      let t2 : ltb 2048 n ≡ true = lt→ltb _ _ many in rw (pkg_len-eq small, t2) (ground arith)
