-- ===== src/Util/Encrypt/Blocks.antt =====
-- util/Encrypt.cpp: what OpenSSL writes stays inside the blocks.
use rubo.Base.{
  ℕ, ◌+◌, ◌≤◌, ◌≡◌, refl, ap, ◌∙◌, Bool, true, false, List, [], ◌∷◌, Option, none, some, arith,
  length, replicate, le→leb, length-replicate, length-copy_at, slice, copy_at, slice-copy_at_self,
}
use rubo.Msgs.UserMsg.{Text}
use rubo.Util.Encrypt.{
  Direction, Encrypt, KeyAnswers, with_block, init_key, init_pri, init, take_text, convert,
  rsa_encode, rsa_decode,
}

pub data Call : Type 0 where
  encodes decodes : Text → Call

-- The result for an answer of OpenSSL.
abbrev pub or_empty : Option Text → Text
or_empty none = []
or_empty (some out) = out

-- A key is there, and its block has one byte more than its size.
pub record IsReady {Key : Type 0} (rsa_size : Key → ℕ) (key : Key) (d : Direction Key)
    : Type 0 where
  pub key_there : d.key ≡ some key
  pub len_fits : d.len ≡ rsa_size key + 1
  pub buff_fits : length d.buff ≡ rsa_size key + 1

module _ {Key : Type 0} (rsa_size : Key → ℕ) where
  -- What OpenSSL documents: an answer is not longer than the size of the key.
  abbrev pub IsBounded : (Key → Text → Option Text) → Type 0
  IsBounded rsa = (key : Key) (src out : Text) → rsa key src ≡ some out → length out ≤ rsa_size key

  with_block-IsReady : (key : Key) → IsReady rsa_size key (with_block rsa_size key)
  unfolding with_block
  with_block-IsReady key = record {
    key_there = refl;
    len_fits = refl;
    buff_fits = length-replicate _ 0;
  }

  init_key-IsReady :
      (file : Bool) (new_key read_key : Option Key) (d : Direction Key)
      → (init_key rsa_size (record { file = file; new_key = new_key; read_key = read_key }) d).1
        ≡ true
      → (key : Key) × (read_key ≡ some key)
        × IsReady rsa_size key
            (init_key rsa_size (record { file = file; new_key = new_key; read_key = read_key }) d).0
  unfolding init_key
  init_key-IsReady false new_key read_key d e = absurd (cc e)
  init_key-IsReady true none read_key d e = absurd (cc e)
  init_key-IsReady true (some empty_key) none d e = absurd (cc e)
  init_key-IsReady true (some empty_key) (some key) d e = (key, refl, with_block-IsReady key)

  abbrev pub AreReady : Key → Key → Encrypt Key → Type 0
  AreReady public private e = IsReady rsa_size public e.encode × IsReady rsa_size private e.decode

  init_pri-AreReady :
      (a : KeyAnswers Key) (public : Key) (e : Encrypt Key) (r : Direction Key × Bool × ℕ)
      → r.1 ≡ true
      → IsReady rsa_size public r.0
      → (init_pri rsa_size a e r).1 ≡ true
      → (private : Key) × (a.read_key ≡ some private)
        × AreReady public private (init_pri rsa_size a e r).0
  unfolding init_pri
  init_pri-AreReady a public e (d, false, n) t ready ok = absurd (cc t)
  init_pri-AreReady a public e (d, true, n) t ready ok =
      let (private, read, ready') = init_key-IsReady a.file a.new_key a.read_key e.decode ok in
      (private, read, (ready, ready'))

  init_pri-first :
      (a : KeyAnswers Key) (e : Encrypt Key) (r : Direction Key × Bool × ℕ)
      → (init_pri rsa_size a e r).1 ≡ true
      → r.1 ≡ true
  unfolding init_pri
  init_pri-first a e (d, false, n) ok = ok
  init_pri-first a e (d, true, n) ok = refl

  init-AreReady :
      (a b : KeyAnswers Key) (e : Encrypt Key)
      → (init rsa_size a b e).1 ≡ true
      → (public : Key) × (private : Key) × (a.read_key ≡ some public)
        × (b.read_key ≡ some private)
        × AreReady public private (init rsa_size a b e).0
  unfolding init
  init-AreReady a b e ok =
      let first = init_pri-first b e (init_key rsa_size a e.encode) ok in
      let (public, read, ready) = init_key-IsReady a.file a.new_key a.read_key e.encode first in
      let (private, read', both) = init_pri-AreReady b public e _ first ready ok in
      (public, private, read, read', both)

  -- A direction after a call, and the text.
  abbrev Converted : Key → Text → Option (Direction Key × Text) → Type 0
  Converted key dest o = (d : Direction Key) × (o ≡ some (d, dest)) × IsReady rsa_size key d

  take_text-Converted :
      (key : Key) (d : Direction Key) (o : Option Text)
      → IsReady rsa_size key d
      → ((out : Text) → o ≡ some out → length out ≤ rsa_size key)
      → Converted key (or_empty o) (take_text rsa_size d o)
  unfolding take_text
  take_text-Converted key d none ready bounded = (d, refl, ready)
  take_text-Converted key d (some out) ready bounded =
      let fits : length out ≤ length d.buff = omega (arith, bounded out refl, ready.buff_fits) in
      let filled = copy_at d.buff 0 out in
      (
        record d { buff = filled },
        ap
              (λ b. elim b [
                | false ↦ none
                | true ↦ some (record d { buff = filled }, slice filled 0 (length out))
              ])
              (le→leb (length out) (length d.buff) fits)
            ∙ ap (λ dest. some (record d { buff = filled }, dest))
                (slice-copy_at_self d.buff 0 (length out) out refl (omega arith)),
        record {
          key_there = ready.key_there;
          len_fits = ready.len_fits;
          buff_fits = length-copy_at d.buff 0 out ∙ ready.buff_fits;
        },
      )

  zeroed-IsReady :
      (key : Key) (d : Direction Key)
      → IsReady rsa_size key d
      → IsReady rsa_size key (record d { buff = replicate d.len 0 })
  zeroed-IsReady key d ready = record {
    key_there = ready.key_there;
    len_fits = ready.len_fits;
    buff_fits = length-replicate d.len 0 ∙ ready.len_fits;
  }

  convert-Converted :
      (rsa : Key → Text → Option Text) (src : Text) (key : Key) (d : Direction Key)
      → IsBounded rsa
      → IsReady rsa_size key d
      → Converted key (or_empty (rsa key src)) (convert rsa_size rsa src d)
  unfolding convert
  convert-Converted rsa src key d bounded ready =
      let zeroed = record d { buff = replicate d.len 0 } in
      let (d', e, ready') =
        take_text-Converted key zeroed (rsa key src) (zeroed-IsReady key d ready)
          (bounded key src) in
      (
        d',
        ap (λ k. elim k [ none ↦ none | some key ↦ take_text rsa_size zeroed (rsa key src) ])
              ready.key_there
            ∙ e,
        ready',
      )

  module _ (public_encrypt private_decrypt : Key → Text → Option Text) where
    unfoldable pub run_call : Call → Encrypt Key → Option (Encrypt Key × Text)
    run_call (encodes src) e = rsa_encode rsa_size public_encrypt private_decrypt src e
    run_call (decodes src) e = rsa_decode rsa_size public_encrypt private_decrypt src e

    unfoldable pub run_calls : List Call → Encrypt Key → Option (Encrypt Key × List Text)
    run_calls [] e = some (e, [])
    run_calls (c ∷ calls) e = elim (run_call c e) [
      | none ↦ none
      | some (e', dest) ↦ elim (run_calls calls e') [
        | none ↦ none
        | some (e'', dests) ↦ some (e'', dest ∷ dests)
      ]
    ]

    -- What OpenSSL gives for a call, and nothing where it fails.
    abbrev pub given : Key → Key → Call → Text
    given public private (encodes src) = or_empty (public_encrypt public src)
    given public private (decodes src) = or_empty (private_decrypt private src)

    abbrev pub all_given : Key → Key → List Call → List Text
    all_given public private [] = []
    all_given public private (c ∷ calls) = given public private c ∷ all_given public private calls

    module _ (public private : Key) (small : IsBounded public_encrypt)
        (small' : IsBounded private_decrypt) where
      run_call-AreReady :
          (c : Call) (e : Encrypt Key)
          → AreReady public private e
          → (e' : Encrypt Key) × (run_call c e ≡ some (e', given public private c))
            × AreReady public private e'
      unfolding run_call rsa_encode rsa_decode
      run_call-AreReady (encodes src) e (ready, ready') =
          let (d, eq, done) = convert-Converted public_encrypt src public e.encode small ready in
          (
            record e { encode = d },
            ap (λ o. elim o [ none ↦ none | some (d, dest) ↦ some (record e { encode = d }, dest) ])
                eq,
            (done, ready'),
          )
      run_call-AreReady (decodes src) e (ready, ready') =
          let (d, eq, done) =
            convert-Converted private_decrypt src private e.decode small' ready' in
          (
            record e { decode = d },
            ap (λ o. elim o [ none ↦ none | some (d, dest) ↦ some (record e { decode = d }, dest) ])
                eq,
            (ready, done),
          )

      run_calls-AreReady :
          (calls : List Call) (e : Encrypt Key)
          → AreReady public private e
          → (e' : Encrypt Key) × (run_calls calls e ≡ some (e', all_given public private calls))
            × AreReady public private e'
      unfolding run_calls
      run_calls-AreReady [] e ready = (e, refl, ready)
      run_calls-AreReady (c ∷ calls) e ready =
          let (e', eq, ready') = run_call-AreReady c e ready in
          let (e'', eqs, ready'') = run_calls-AreReady calls e' ready' in
          (
            e'',
            ap
                  (λ o. elim o [
                    | none ↦ none
                    | some (e', dest) ↦ elim (run_calls calls e') [
                      | none ↦ none
                      | some (e'', dests) ↦ some (e'', dest ∷ dests)
                    ]
                  ])
                  eq
                ∙ ap
                    (λ o. elim o [
                      | none ↦ none
                      | some (e'', dests) ↦ some (e'', given public private c ∷ dests)
                    ])
                    eqs,
            ready'',
          )

    -- After an `init` that succeeds, if OpenSSL gives at most as many bytes as the key has, any
    -- sequence of `rsa_encode` and `rsa_decode` returns, nothing is written past the end of a
    -- block, each call gives exactly the text that OpenSSL gave with the key that was read, or the
    -- empty one after a failure, and the keys and the sizes of the blocks stay.
    pub init-run_calls :
        (pub_key pri_key : KeyAnswers Key) (e : Encrypt Key) (calls : List Call)
        → IsBounded public_encrypt
        → IsBounded private_decrypt
        → (init rsa_size pub_key pri_key e).1 ≡ true
        → (public : Key) × (private : Key) × (pub_key.read_key ≡ some public)
          × (pri_key.read_key ≡ some private)
          × ((e' : Encrypt Key) × (run_calls calls (init rsa_size pub_key pri_key e).0
                ≡ some (e', all_given public private calls))
              × AreReady public private e')
    init-run_calls pub_key pri_key e calls small small' ok =
        let (public, private, read, read', ready) = init-AreReady pub_key pri_key e ok in
        (public, private, read, read', run_calls-AreReady public private small small' calls _ ready)
