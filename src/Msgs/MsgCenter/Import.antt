-- ===== src/Msgs/MsgCenter/Import.antt =====
-- msgs/MsgCenter.cpp, `init` and what it calls: the .proto files under a directory are imported. The file
-- system and the importer of protobuf are the record `Files`; the calls of `opendir`, `closedir` and the
-- importer are a trace. `none` is that the fuel, one for each directory inside another, ran out.
pub mod Closed
pub mod Flat
use rubo.Base.{
  ℕ, zero, suc, ◌-◌, Bool, true, false, ◌&&◌, ◌||◌, List, [], ◌∷◌, ◌++◌, Option, none, some, ltb,
  ◌==◌, length, drop,
}
use rubo.Msgs.UserMsg.{Text}
use rubo.Msgs.MsgCenter.{MsgCenter}

-- `opendir` gives the names in the order of `readdir`, and `lstat` whether a path is a directory; both are
-- `none` where the call fails.
pub record Files : Type 0 where
  pub opendir : Text → Option (List Text)
  pub lstat : Text → Option Bool
  pub import_file : Text → Text → Bool

pub data FileCall : Type 0 where
  opened : Text → FileCall
  closed : Text → FileCall
  imported : (path file_name : Text) → FileCall

-- `strcmp`, and `strncmp` on a text that is as long as the other.
unfoldable pub is_same : Text → Text → Bool
is_same [] [] = true
is_same (c ∷ s) (d ∷ t) = c == d && is_same s t
is_same [] (d ∷ t) = false
is_same (c ∷ s) [] = false

abbrev pub dot_proto : Text
dot_proto = b'.' ∷ b'p' ∷ b'r' ∷ b'o' ∷ b't' ∷ b'o' ∷ []

unfoldable pub is_dots : Text → Bool
is_dots name = is_same name (b'.' ∷ []) || is_same name (b'.' ∷ b'.' ∷ [])

unfoldable pub is_proto : Text → Bool
is_proto name = ltb 6 (length name) && is_same (drop (length name - 6) name) dot_proto

-- The calls of a part of the loop, before those that follow.
unfoldable pub and_then :
    List FileCall → Option (List FileCall × Bool) → Option (List FileCall × Bool)
and_then calls none = none
and_then calls (some (rest, ok)) = some (calls ++ rest, ok)

-- After a call for a directory inside: a failure ends the loop.
unfoldable pub after_dir :
    Text
    → Option (List FileCall × Bool)
    → Option (List FileCall × Bool)
    → Option (List FileCall × Bool)
after_dir dir_path none rest = none
after_dir dir_path (some (calls, false)) rest = some (calls ++ (closed dir_path ∷ []), false)
after_dir dir_path (some (calls, true)) rest = and_then calls rest

module _ (files : Files) where
  -- The path of an entry: its name is put behind that of the directory, with nothing between them.
  unfoldable pub enter_dir :
      (Text → Option (List FileCall × Bool))
      → Text
      → Text
      → Option (List FileCall × Bool)
      → Option (List FileCall × Bool)
  enter_dir sub dir_path name rest = elim (files.lstat (dir_path ++ name)) [
    | none ↦ rest
    | some false ↦ rest
    | some true ↦ after_dir dir_path (sub (dir_path ++ name)) rest
  ]

  unfoldable pub import_entry :
      (Text → Option (List FileCall × Bool))
      → Text
      → Text
      → Option (List FileCall × Bool)
      → Option (List FileCall × Bool)
  import_entry sub dir_path name rest = elim (is_proto name) [
    | false ↦ enter_dir sub dir_path name rest
    | true ↦ elim (files.import_file dir_path name) [
      | false ↦ some (imported dir_path name ∷ (closed dir_path ∷ []), false)
      | true ↦ and_then (imported dir_path name ∷ []) (enter_dir sub dir_path name rest)
    ]
  ]

  -- The loop over the entries, and the end of the function.
  unfoldable pub read_entries :
      (Text → Option (List FileCall × Bool)) → Text → List Text → Option (List FileCall × Bool)
  read_entries sub dir_path [] = some (closed dir_path ∷ [], true)
  read_entries sub dir_path (name ∷ names) =
      let rest = read_entries sub dir_path names in
      elim (is_dots name) [ true ↦ rest | false ↦ import_entry sub dir_path name rest ]

  unfoldable pub init_google_protos : ℕ → Text → Option (List FileCall × Bool)
  init_google_protos zero dir_path = none
  init_google_protos (suc fuel) dir_path =
      let sub = init_google_protos fuel in
      elim (files.opendir dir_path) [
        | none ↦ some ([], false)
        | some names ↦ and_then (opened dir_path ∷ []) (read_entries sub dir_path names)
      ]

  -- The directory of the constructor.
  unfoldable pub init : ℕ → Option (List FileCall × Bool)
  init fuel = init_google_protos fuel (
      b'm' ∷ b's' ∷ b'g' ∷ b's' ∷ b'/' ∷ b'p' ∷ b'r' ∷ b'o' ∷ b't' ∷ b'o' ∷ b'c' ∷ b'o' ∷ b'l'
      ∷ b's' ∷ [])

unfoldable pub uinit : MsgCenter → MsgCenter × Bool
uinit center = (record center { names = [] }, true)
