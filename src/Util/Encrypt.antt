-- ===== src/Util/Encrypt.antt =====
-- util/Encrypt.hpp, util/Encrypt.cpp: encryption with RSA. The keys and the calls of OpenSSL are parameters. The
-- fields for the two directions are alike, so they are a record of their own. `none` is a null key that is
-- used, or a write past the end of a block. That a constructor of a key or `new` fails by an exception is left
-- out.
pub mod Blocks
use rubo.Base.{
  ℕ, zero, suc, ◌+◌, Bool, true, false, List, [], Option, none, some, leb, length, replicate, slice,
  copy_at,
}
use rubo.Msgs.UserMsg.{Text}

-- The key, and the block with its length, which is empty before `init`.
pub record Direction (Key : Type 0) : Type 0 where
  pub key : Option Key
  pub len : ℕ
  pub buff : List ℕ

-- `open_files` are those that `fopen` gave and `fclose` did not take.
pub record Encrypt (Key : Type 0) : Type 0 where
  pub encode : Direction Key
  pub decode : Direction Key
  pub open_files : ℕ

-- What `fopen`, `RSA_new` and the reading of the file answer.
pub record KeyAnswers (Key : Type 0) : Type 0 where
  pub file : Bool
  pub new_key : Option Key
  pub read_key : Option Key

unfoldable pub new_encrypt : {Key : Type 0} → Encrypt Key
new_encrypt = record {
  encode = record { key = none; len = 0; buff = [] };
  decode = record { key = none; len = 0; buff = [] };
  open_files = 0;
}

module _ {Key : Type 0} (rsa_size : Key → ℕ) where
  -- The block for a key.
  unfoldable pub with_block : Key → Direction Key
  with_block key = record {
    key = some key;
    len = rsa_size key + 1;
    buff = replicate (rsa_size key + 1) 0;
  }

  -- One half of `init`, with the number of files that it leaves open.
  unfoldable pub init_key : KeyAnswers Key → Direction Key → Direction Key × Bool × ℕ
  init_key a d = elim a.file [
    | false ↦ (d, false, 0)
    | true ↦ elim a.new_key [
      | none ↦ (record d { key = none }, false, 0)
      | some empty_key ↦ elim a.read_key [
        | none ↦ (record d { key = some empty_key }, false, 0)
        | some key ↦ (with_block key, true, 1)
      ]
    ]
  ]

  -- The other half, after the result of the first.
  unfoldable pub init_pri :
      KeyAnswers Key → Encrypt Key → Direction Key × Bool × ℕ → Encrypt Key × Bool
  init_pri a e (d, false, n) = (record e { encode = d; open_files = e.open_files + n }, false)
  init_pri a e (d, true, n) =
      let (d', ok, m) = init_key a e.decode in
      (record { encode = d; decode = d'; open_files = e.open_files + n + m }, ok)

  unfoldable pub init : KeyAnswers Key → KeyAnswers Key → Encrypt Key → Encrypt Key × Bool
  init pub_key pri_key e = init_pri pri_key e (init_key pub_key e.encode)

  -- `string(_encode_buff, ret)`, after OpenSSL has put its bytes into the zeroed block.
  unfoldable pub take_text : Direction Key → Option Text → Option (Direction Key × Text)
  take_text d none = some (d, [])
  take_text d (some out) = elim (leb (length out) (length d.buff)) [
    | false ↦ none
    | true ↦
        let filled = copy_at d.buff 0 out in
        some (record d { buff = filled }, slice filled 0 (length out))
  ]

  -- `rsa_encode` and `rsa_decode`, on their own fields. The answer of OpenSSL is `none` for a negative one.
  unfoldable pub convert :
      (Key → Text → Option Text) → Text → Direction Key → Option (Direction Key × Text)
  convert rsa src d = elim d.key [
    | none ↦ none
    | some key ↦ take_text (record d { buff = replicate d.len 0 }) (rsa key src)
  ]

  module _ (public_encrypt private_decrypt : Key → Text → Option Text) where
    unfoldable pub rsa_encode : Text → Encrypt Key → Option (Encrypt Key × Text)
    rsa_encode src e = elim (convert public_encrypt src e.encode) [
      | none ↦ none
      | some (d, dest) ↦ some (record e { encode = d }, dest)
    ]

    unfoldable pub rsa_decode : Text → Encrypt Key → Option (Encrypt Key × Text)
    rsa_decode src e = elim (convert private_decrypt src e.decode) [
      | none ↦ none
      | some (d, dest) ↦ some (record e { decode = d }, dest)
    ]
