-- ===== src/Msgs/MsgCenter/Any/Take.antt =====
-- `take_package` on the bytes of a package, whatever they are.
use mathlib.Core.Path.{subst}
use rubo.Base.{
  ℕ, zero, suc, ◌≤◌, ◌<◌, ◌≡◌, refl, sym, ap, ◌∙◌, ◌⊎◌, inl, inr, true, false, List, [], ◌∷◌, ◌++◌,
  append_assoc, Option, none, some, arith, length, take, drop, replicate, copy_at, ◌==◌, ℕ_discrete,
  length-take, take-append-drop,
}
use rubo.Base.Int.{from_bytes, of_u32}
use rubo.Util.RingBuff.{RingBuff, del_data, read_del_begin}
use rubo.Util.RingBuff.Writes.{Holds}
use rubo.Util.RingBuff.Takes.{del_data-append, read_del_begin-append}
use rubo.Util.LineBuffer.{LineBuffer}
use rubo.Util.LineBuffer.Laws.{append_size-clean_data, IsDoubled, Doubling-IsDoubled, doubled-le}
use rubo.Msgs.MsgCenter.{Package, take_package, c_string}
use rubo.Msgs.MsgCenter.Strings.{HasNoNul, c_string_full}

-- The bytes of a whole package, as `parse_package` takes it: the length, number and user, and the body.
pub record IsPackage (xs : List ℕ) : Type 0 where
  pub len_bytes : List ℕ
  pub header : List ℕ
  pub body : List ℕ
  pub place : xs ≡ len_bytes ++ (header ++ body)
  pub four : length len_bytes ≡ 4
  pub eight : length header ≡ 8
  pub len_read : from_bytes len_bytes ≡ length body
  pub two : 1 < length body
  pub small : length body ≤ 2048

pub data Packages : List ℕ → Type 0 where
  no_more : Packages []
  next : (xs rest : List ℕ) → IsPackage xs → Packages rest → Packages (xs ++ rest)

-- Behind whole packages there is one whose body has the size of a buffer and no zero byte: its C string does not
-- end in the buffer.
pub record Unreadable (bs : List ℕ) : Type 0 where
  pub before : List ℕ
  pub pkg : List ℕ
  pub behind : List ℕ
  pub place : bs ≡ before ++ (pkg ++ behind)
  pub whole_before : Packages before
  pub whole : IsPackage pkg
  pub sized : IsDoubled (length whole.body)
  pub no_nul : HasNoNul whole.body

pub Unreadable-append :
    {bs : List ℕ} (xs : List ℕ) → IsPackage xs → Unreadable bs → Unreadable (xs ++ bs)
Unreadable-append xs whole u = record {
  before = xs ++ u.before;
  pkg = u.pkg;
  behind = u.behind;
  place = ap (λ l. xs ++ l) u.place ∙ sym (append_assoc xs u.before _);
  whole_before = next xs u.before whole u.whole_before;
  whole = u.whole;
  sized = u.sized;
  no_nul = u.no_nul;
}

-- A C string that starts in a zeroed buffer.
c_string_total :
    (t : ℕ) (body : List ℕ)
    → length body ≤ t
    → (HasNoNul body × (length body ≡ t))
      ⊎ ((text : List ℕ) × (c_string (copy_at (replicate t 0) 0 body) ≡ some text))
unfolding c_string copy_at
c_string_total zero [] h = inl (tt, refl)
c_string_total zero (b ∷ bs) h = absurd (omega arith)
c_string_total (suc t) [] h = inr ([], refl)
c_string_total (suc t) (b ∷ bs) h = elim (ℕ_discrete b 0) [
  | yes z ↦ inr ([], (let e : (b == 0) ≡ true = ground (arith, z) in rw (e, c_string)))
  | no nz ↦ elim (c_string_total t bs (omega arith)) [
    | inl (plain, e) ↦ inl ((nz, plain), ap suc e)
    | inr (text, e) ↦
        inr (b ∷ text, (let f : (b == 0) ≡ false = ground (arith, nz) in rw (f, c_string, e)))
  ]
]

pub cut :
    (n : ℕ) (xs : List ℕ)
    → n ≤ length xs
    → (a : List ℕ) × (b : List ℕ) × (xs ≡ a ++ b) × (length a ≡ n)
cut n xs h = (take n xs, drop n xs, sym (take-append-drop n xs), omega (arith, length-take n xs))

-- What `take_package` makes of the bytes of a package.
pub data Took (body rest : List ℕ) : Option Package → Type 0 where
  overruns : IsDoubled (length body) → HasNoNul body → Took body rest none
  takes : (p : Package) → Holds rest p.ring → IsDoubled p.line.buff_size → Took body rest (some p)

module _ (ring : RingBuff) (line : LineBuffer)
    (len_bytes id_bytes uid_bytes body rest : List ℕ) where
  -- The rings between the calls of `take_package`.
  abbrev ring1 : RingBuff
  ring1 = (del_data ring 4).1

  abbrev ring2 : RingBuff
  ring2 = (read_del_begin ring1 4).2

  abbrev ring3 : RingBuff
  ring3 = (read_del_begin ring2 4).2

  abbrev filled : ℕ → List ℕ
  filled t = copy_at (replicate t 0) 0 (read_del_begin ring3 (length body)).1

  pub take_package-Took :
      Holds (len_bytes ++ (id_bytes ++ (uid_bytes ++ (body ++ rest)))) ring
      → length len_bytes ≡ 4
      → length id_bytes ≡ 4
      → length uid_bytes ≡ 4
      → 1 < length body
      → length body ≤ 2048
      → IsDoubled line.buff_size
      → Took body rest (take_package ring line (length body))
  unfolding take_package
  take_package-Took h four four' four'' two small (k, sized) =
      let (t, e, d) =
        append_size-clean_data line (length body) (omega (arith, sized, doubled-le 256 k))
          (omega arith) (omega arith) in
      let h1 = del_data-append len_bytes _ h 4 four (omega arith) in
      let (_, e2, h2) = read_del_begin-append id_bytes _ h1 4 four' (omega arith) in
      let (_, e3, h3) = read_del_begin-append uid_bytes _ h2 4 four'' (omega arith) in
      let (_, e4, h4) = read_del_begin-append body rest h3 (length body) refl (omega arith) in
      let read : c_string (filled t) ≡ c_string (copy_at (replicate t 0) 0 body) =
        ap (λ b. c_string (copy_at (replicate t 0) 0 b)) e4 in
      elim (c_string_total t body d.wanted) [
        | inl (plain, same) ↦
            let c : c_string (filled t) ≡ none =
              read
              ∙ ap (λ n. c_string (copy_at (replicate n 0) 0 body)) (sym same)
              ∙ c_string_full body plain in
            let none_left : take_package ring line (length body) ≡ none = rw (e, c) in
            subst (Took body rest) (sym none_left)
              (overruns (subst IsDoubled (sym same) (Doubling-IsDoubled d (k, sized))) plain)
        | inr (text, c') ↦
            let c : c_string (filled t) ≡ some text = read ∙ c' in
            let p : Package = record {
              msg_id = of_u32 (from_bytes (read_del_begin ring1 4).1);
              user_id = of_u32 (from_bytes (read_del_begin ring2 4).1);
              text = text;
              ring = (read_del_begin ring3 (length body)).2;
              line = record { buff_size = t; buff = filled t };
            } in
            let some_left : take_package ring line (length body) ≡ some p = rw (e, c) in
            subst (Took body rest) (sym some_left) (takes p h4 (Doubling-IsDoubled d (k, sized)))
      ]
