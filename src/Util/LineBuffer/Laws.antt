-- ===== src/Util/LineBuffer/Laws.antt =====
-- `append_size` and `clean_data`.
use rubo.Base.{
  ℕ, zero, suc, ◌+◌, ◌*◌, ◌^◌, ◌≤◌, ◌<◌, ◌≡◌, refl, ap, sym, ◌∙◌, ◌≢◌, true, false, ◌∷◌, some,
  arith, length, replicate, slice, copy_at, leb, ◌==◌, lt→ltb, le→ltb, length-copy_at,
  length-replicate, slice-copy_at_self, dec_lt,
}
use rubo.Base.Int.{add_size, mul_size}
use rubo.Util.LineBuffer.{LineBuffer, double_up, grown_size, append_size, clean_data}

pub record IsValid (l : LineBuffer) : Type 0 where
  pub block : length l.buff ≡ l.buff_size
  pub room : 0 < l.buff_size

-- `f` doublings of `s`.
unfoldable pub doubled : ℕ → ℕ → ℕ
doubled s zero = s
doubled s (suc f) = doubled (s * 2) f

doubled_mono : (a b f : ℕ) → a ≤ b → doubled a f ≤ doubled b f
unfolding doubled
doubled_mono a b zero h = h
doubled_mono a b (suc f) h = doubled_mono (a * 2) (b * 2) f (omega arith)

double_up_step :
    (fuel s need : ℕ)
    → s < need
    → s * 2 < 2 ^ 64
    → double_up (suc fuel) s need ≡ double_up fuel (s * 2) need
unfolding double_up
double_up_step fuel s need more small =
    rw (lt→ltb s need more, double_up) (ap (λ k. double_up fuel k need) (omega arith))

-- A size that the loop may return: large enough, and some doublings of the first one.
pub record Doubling (s need t : ℕ) : Type 0 where
  pub wanted : need ≤ t
  pub larger : s ≤ t
  pub times : (k : ℕ) × (t ≡ doubled s k)

double_up_total :
    (fuel s need : ℕ)
    → 0 < s
    → need ≤ 2 ^ 63
    → need ≤ doubled s fuel
    → (t : ℕ) × (double_up (suc fuel) s need ≡ some t) × Doubling s need t
unfolding double_up doubled
double_up_total zero s need pos small reach = (
  s,
  rw (le→ltb s need reach, double_up),
  record { wanted = reach; larger = omega arith; times = (0, refl) },
)
double_up_total (suc fuel) s need pos small reach = elim (dec_lt s need) [
  | yes more ↦
      let (t, eq, d) = double_up_total fuel (s * 2) need (omega arith) small reach in
      let times = d.times in
      (
        t,
        double_up_step (suc fuel) s need more (omega arith) ∙ eq,
        record {
          wanted = d.wanted;
          larger = omega (arith, d.larger);
          times = (suc times.0, times.1);
        },
      )
  | no done ↦ (
    s,
    rw (le→ltb s need (omega arith), double_up),
    record { wanted = omega arith; larger = omega arith; times = (0, refl) },
  )
]

enough : (s : ℕ) → 0 < s → 2 ^ 63 ≤ doubled s 64
unfolding doubled
enough s h = omega (arith, doubled_mono 1 s 64 h)

-- What `append_size` leaves: a valid block of at least the wanted size that starts with the old one.
pub record Grows (l : LineBuffer) (need : ℕ) (l' : LineBuffer) : Type 0 where
  pub valid : IsValid l'
  pub wanted : need ≤ l'.buff_size
  pub larger : l.buff_size ≤ l'.buff_size
  pub kept : slice l'.buff 0 l.buff_size ≡ l.buff

grown-Grows :
    (l : LineBuffer) (need t : ℕ)
    → IsValid l
    → need ≤ t
    → l.buff_size ≤ t
    → Grows l need (record { buff_size = t; buff = copy_at (replicate t 0) 0 l.buff })
grown-Grows l need t v h h' = record {
  valid = record {
    block = length-copy_at (replicate t 0) 0 l.buff ∙ length-replicate t 0;
    room = omega arith;
  };
  wanted = h;
  larger = h';
  kept =
      slice-copy_at_self (replicate t 0) 0 l.buff_size l.buff (sym v.block)
        (omega (arith, length-replicate {A = ℕ} t 0));
}

append_size-of :
    (l : LineBuffer) (need t : ℕ)
    → grown_size l.buff_size need ≡ some t
    → append_size l need ≡ some (record { buff_size = t; buff = copy_at (replicate t 0) 0 l.buff })
unfolding append_size
append_size-of l need t e = rw (e, append_size)

grown_size_total :
    (s need : ℕ)
    → 0 < s
    → need ≢ 0
    → need ≤ 2 ^ 63
    → (t : ℕ) × (grown_size s need ≡ some t) × Doubling s need t
unfolding grown_size
grown_size_total s need pos nz small =
    let z : (need == 0) ≡ false = ground arith in
    rw z (double_up_total 64 s need pos small (omega (arith, enough s pos)))

-- For a wanted size from 1 to 2^63, `append_size` on a valid block returns a valid block of at
-- least this size that starts with the old bytes.
pub append_size_lem :
    (l : LineBuffer) (need : ℕ)
    → IsValid l
    → need ≢ 0
    → need ≤ 2 ^ 63
    → (l' : LineBuffer) × (append_size l need ≡ some l') × Grows l need l'
append_size_lem l need v nz small =
    let (t, e, d) = grown_size_total l.buff_size need v.room nz small in
    (
      record { buff_size = t; buff = copy_at (replicate t 0) 0 l.buff },
      append_size-of l need t e,
      grown-Grows l need t v d.wanted d.larger,
    )

copy_at-zeros : (t s : ℕ) → copy_at (replicate t 0) 0 (replicate s 0) ≡ replicate {A = ℕ} t 0
unfolding copy_at
copy_at-zeros zero s = refl
copy_at-zeros (suc t) zero = refl
copy_at-zeros (suc t) (suc s) = ap (◌∷◌ 0) (copy_at-zeros t s)

-- A block of zeros.
abbrev pub zero_line : ℕ → LineBuffer
zero_line t = record { buff_size = t; buff = replicate t 0 }

-- Cleaned and enlarged, a block is all zeros.
pub append_size-clean_data :
    (l : LineBuffer) (need : ℕ)
    → 0 < l.buff_size
    → need ≢ 0
    → need ≤ 2 ^ 63
    → (t : ℕ) × (append_size (clean_data l) need ≡ some (zero_line t)) × Doubling l.buff_size need t
unfolding clean_data
append_size-clean_data l need pos nz small =
    let (t, e, d) = grown_size_total l.buff_size need pos nz small in
    (
      t,
      append_size-of (zero_line l.buff_size) need t e
          ∙ ap (λ b. some (record { buff_size = t; buff = b })) (copy_at-zeros t l.buff_size),
      d,
    )

-- The sizes that a new buffer comes to by doubling.
abbrev pub IsDoubled : ℕ → Type 0
IsDoubled n = (k : ℕ) × (n ≡ doubled 256 k)

doubled-doubled : (s a b : ℕ) → (k : ℕ) × (doubled (doubled s a) b ≡ doubled s k)
unfolding doubled
doubled-doubled s zero b = (b, refl)
doubled-doubled s (suc a) b = let (k, e) = doubled-doubled (s * 2) a b in (suc k, e)

pub Doubling-IsDoubled : {s need t : ℕ} → Doubling s need t → IsDoubled s → IsDoubled t
Doubling-IsDoubled d (a, e) =
    let (b, e') = d.times in
    let (k, e'') = doubled-doubled 256 a b in (k, e' ∙ ap (λ x. doubled x b) e ∙ e'')

pub doubled-le : (s k : ℕ) → s ≤ doubled s k
unfolding doubled
doubled-le s zero = omega arith
doubled-le s (suc k) = omega (arith, doubled-le (s * 2) k)

grown_size_default :
    (s : ℕ)
    → s < 2 ^ 62
    → 0 < s
    → (t : ℕ) × (grown_size s 0 ≡ some t) × (s + 1 ≤ t) × (t ≤ s + s + 4096)
unfolding grown_size
grown_size_default s small pos = elim (dec_lt s (1024 * 512)) [
  | yes low ↦
      let e : leb (1024 * 512) s ≡ false = ground arith in
      (mul_size s 2, rw e, omega arith, omega arith)
  | no high ↦
      let e : leb (1024 * 512) s ≡ true = ground arith in
      (add_size s (1024 * 4), rw e, omega arith, omega arith)
]

-- Without an argument it grows a block below 2^62 bytes strictly.
pub append_size_default :
    (l : LineBuffer)
    → IsValid l
    → l.buff_size < 2 ^ 62
    → (l' : LineBuffer) × (append_size l 0 ≡ some l')
      × Grows l (l.buff_size + 1) l'
      × (l'.buff_size ≤ l.buff_size + l.buff_size + 4096)
append_size_default l v small =
    let (t, e, h, h') = grown_size_default l.buff_size small v.room in
    (
      record { buff_size = t; buff = copy_at (replicate t 0) 0 l.buff },
      append_size-of l 0 t e,
      grown-Grows l (l.buff_size + 1) t v h (omega arith),
      h',
    )

pub clean_data-IsValid : {l : LineBuffer} → IsValid l → IsValid (clean_data l)
unfolding clean_data
clean_data-IsValid {l} v = record { block = length-replicate l.buff_size 0; room = v.room }
