-- ===== src/Msgs/MsgCenter/Import/Flat.antt =====
-- msgs/MsgCenter.cpp: what the import reads if no directory has a path that continues the one of its directory
-- without a slash.
use rubo.Base.{
  ℕ, suc, ◌≡◌, ◌≢◌, refl, ap, ◌∙◌, Bool, true, false, List, [], ◌∷◌, ◌++◌, Option, none, some,
  arith,
}
use rubo.Msgs.UserMsg.{Text}
use rubo.Msgs.MsgCenter.Import.{
  Files, FileCall, opened, closed, imported, is_same, is_dots, is_proto, and_then, after_dir,
  enter_dir, import_entry, read_entries, init_google_protos,
}

pub with_call : FileCall → List FileCall × Bool → List FileCall × Bool
with_call call (calls, ok) = (call ∷ calls, ok)

is_dots-is_proto : (name : Text) → is_dots name ≡ true → is_proto name ≡ false
unfolding is_dots is_proto is_same
is_dots-is_proto [] e = absurd (cc e)
is_dots-is_proto (c ∷ []) e = refl
is_dots-is_proto (c ∷ (d ∷ [])) e = refl
is_dots-is_proto (c ∷ (d ∷ (f ∷ name))) e = absurd (ground (arith, e))

module _ (files : Files) where
  -- The files with the right names, up to the first that can not be imported.
  unfoldable pub import_all : Text → List Text → List FileCall × Bool
  import_all dir_path [] = ([], true)
  import_all dir_path (name ∷ names) = elim (is_proto name) [
    | false ↦ import_all dir_path names
    | true ↦ elim (files.import_file dir_path name) [
      | false ↦ (imported dir_path name ∷ [], false)
      | true ↦ with_call (imported dir_path name) (import_all dir_path names)
    ]
  ]

  -- No directory has the path of this one with one of the names behind it and no slash between. The
  -- directories inside, which have the slash, may be there.
  abbrev pub NoneBehind : Text → List Text → Type 0
  NoneBehind dir_path [] = Unit
  NoneBehind dir_path (name ∷ names) =
      (files.lstat (dir_path ++ name) ≢ some true) × NoneBehind dir_path names

  -- The result, with the end of the directory behind.
  abbrev pub then_closed : Text → List FileCall × Bool → Option (List FileCall × Bool)
  then_closed dir_path (calls, ok) = some (calls ++ (closed dir_path ∷ []), ok)

  module _ (sub : Text → Option (List FileCall × Bool)) (dir_path : Text) where
    enter_dir-rest :
        (name : Text) (rest : Option (List FileCall × Bool))
        → files.lstat (dir_path ++ name) ≢ some true
        → enter_dir files sub dir_path name rest ≡ rest
    unfolding enter_dir
    enter_dir-rest name rest no_dir = go (files.lstat (dir_path ++ name)) refl
      where
        go :
            (o : Option Bool)
            → files.lstat (dir_path ++ name) ≡ o
            → elim o [
              | none ↦ rest
              | some false ↦ rest
              | some true ↦ after_dir dir_path (sub (dir_path ++ name)) rest
            ]
              ≡ rest
        go none e = refl
        go (some false) e = refl
        go (some true) e = absurd (no_dir e)

    and_then-then_closed :
        (call : FileCall) (r : List FileCall × Bool)
        → and_then (call ∷ []) (then_closed dir_path r) ≡ then_closed dir_path (with_call call r)
    unfolding and_then with_call
    and_then-then_closed call (calls, ok) = refl

    read_entries-import_all :
        (names : List Text)
        → NoneBehind dir_path names
        → read_entries files sub dir_path names ≡ then_closed dir_path (import_all dir_path names)
    unfolding read_entries import_all import_entry
    read_entries-import_all [] none_behind = refl
    read_entries-import_all (name ∷ names) none_behind =
        go (is_dots name) (is_proto name) (files.import_file dir_path name) (is_dots-is_proto name)
          (enter_dir-rest name _ none_behind.0 ∙ read_entries-import_all names none_behind.1)
          (read_entries-import_all names none_behind.1)
      where
        go :
            (dots proto ok : Bool)
            → (dots ≡ true → proto ≡ false)
            → enter_dir files sub dir_path name (read_entries files sub dir_path names)
              ≡ then_closed dir_path (import_all dir_path names)
            → read_entries files sub dir_path names
              ≡ then_closed dir_path (import_all dir_path names)
            → elim dots [
              | true ↦ read_entries files sub dir_path names
              | false ↦ elim proto [
                | false ↦ enter_dir files sub dir_path name (read_entries files sub dir_path names)
                | true ↦ elim ok [
                  | false ↦ some (imported dir_path name ∷ (closed dir_path ∷ []), false)
                  | true ↦
                      and_then
                        (imported dir_path name ∷ [])
                        (enter_dir files sub dir_path name (read_entries files sub dir_path names))
                ]
              ]
            ]
              ≡ then_closed dir_path (elim proto [
                | false ↦ import_all dir_path names
                | true ↦ elim ok [
                  | false ↦ (imported dir_path name ∷ [], false)
                  | true ↦ with_call (imported dir_path name) (import_all dir_path names)
                ]
              ])
        go true true ok d e r = absurd (cc (d refl))
        go true false ok d e r = r
        go false false ok d e r = e
        go false true false d e r = refl
        go false true true d e r =
            ap (and_then (imported dir_path name ∷ [])) e ∙ and_then-then_closed _ _

  -- If no directory has a path that is the one of an openable directory with the name of one of its
  -- entries behind it and no slash between, then, whatever directories are inside,
  -- `init_google_protos` reads none of them: it opens only its own, imports the files there that
  -- end in ".proto" and have a longer name, up to the first that fails, closes it, and returns
  -- whether none failed.
  pub init_google_protos-flat :
      (fuel : ℕ) (dir_path : Text) (names : List Text)
      → files.opendir dir_path ≡ some names
      → NoneBehind dir_path names
      → init_google_protos files (suc fuel) dir_path
        ≡ some (
          opened dir_path ∷ ((import_all dir_path names).0 ++ (closed dir_path ∷ [])),
          (import_all dir_path names).1,
        )
  unfolding init_google_protos and_then
  init_google_protos-flat fuel dir_path names e none_behind =
      let sub = init_google_protos files fuel in
      ap
        (λ o. elim o [
          | none ↦ some ([], false)
          | some names ↦ and_then (opened dir_path ∷ []) (read_entries files sub dir_path names)
        ])
        e
      ∙ ap (and_then (opened dir_path ∷ []))
          (read_entries-import_all sub dir_path names none_behind)
