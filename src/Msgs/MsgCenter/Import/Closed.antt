-- ===== src/Msgs/MsgCenter/Import/Closed.antt =====
-- msgs/MsgCenter.cpp: each directory that is opened for the import is closed, the inner ones first.
use mathlib.Core.Path.{subst}
use rubo.Base.{
  ℕ, zero, suc, ◌≡◌, refl, sym, ap, ◌∙◌, Bool, true, false, List, [], ◌∷◌, ◌++◌, append_assoc,
  Option, none, some,
}
use rubo.Msgs.UserMsg.{Text}
use rubo.Msgs.MsgCenter.Import.{
  Files, FileCall, opened, closed, imported, is_dots, is_proto, and_then, after_dir, enter_dir,
  import_entry, read_entries, init_google_protos,
}

-- The calls while a directory is open: files of it are imported, and directories are opened and closed.
pub data Inside : Text → List FileCall → Type 0 where
  no_call : {dir_path : Text} → Inside dir_path []
  one_file :
      {dir_path : Text} {calls : List FileCall} (name : Text)
      → Inside dir_path calls
      → Inside dir_path (imported dir_path name ∷ calls)
  one_dir :
      {dir_path : Text} (path : Text) {inner calls : List FileCall}
      → Inside path inner
      → Inside dir_path calls
      → Inside dir_path (opened path ∷ (inner ++ (closed path ∷ calls)))

Inside-append :
    {dir_path : Text} {a b : List FileCall}
    → Inside dir_path a
    → Inside dir_path b
    → Inside dir_path (a ++ b)
Inside-append no_call q = q
Inside-append (one_file name p) q = one_file name (Inside-append p q)
Inside-append {dir_path} {b = b} (one_dir path {inner} {calls} i p) q =
    subst (λ l. Inside dir_path (opened path ∷ l))
      (sym (append_assoc inner (closed path ∷ calls) b)) (one_dir path i (Inside-append p q))

-- A result, with its calls inside a directory.
abbrev pub Ends : Text → Option (List FileCall × Bool) → Type 0
Ends dir_path o =
    (calls : List FileCall) × (ok : Bool) × (o ≡ some (calls, ok)) × Inside dir_path calls

-- The same, with the end of the directory behind.
abbrev EndsClosed : Text → Option (List FileCall × Bool) → Type 0
EndsClosed dir_path o =
    (calls : List FileCall) × (ok : Bool) × (o ≡ some (calls ++ (closed dir_path ∷ []), ok))
    × Inside dir_path calls

and_then-EndsClosed :
    {dir_path : Text} (calls : List FileCall) (o : Option (List FileCall × Bool))
    → Inside dir_path calls
    → EndsClosed dir_path o
    → EndsClosed dir_path (and_then calls o)
unfolding and_then
and_then-EndsClosed {dir_path} calls o p (body, ok, e, q) = (
  calls ++ body,
  ok,
  ap (and_then calls) e
      ∙ ap (λ l. some (l, ok)) (sym (append_assoc calls body (closed dir_path ∷ []))),
  Inside-append p q,
)

after_dir-EndsClosed :
    {dir_path : Text} (o rest : Option (List FileCall × Bool))
    → Ends dir_path o
    → EndsClosed dir_path rest
    → EndsClosed dir_path (after_dir dir_path o rest)
unfolding after_dir
after_dir-EndsClosed {dir_path} o rest (calls, false, e, p) r =
    (calls, false, ap (λ o. after_dir dir_path o rest) e, p)
after_dir-EndsClosed {dir_path} o rest (calls, true, e, p) r =
    subst (EndsClosed dir_path) (sym (ap (λ o. after_dir dir_path o rest) e))
      (and_then-EndsClosed calls rest p r)

module _ (files : Files) where
  -- A property of each directory that stands in a directory.
  abbrev pub AllDirs : (Text → Type 0) → Text → List Text → Type 0
  AllDirs P dir_path [] = Unit
  AllDirs P dir_path (name ∷ names) =
      (is_dots name ≡ false → files.lstat (dir_path ++ name) ≡ some true → P (dir_path ++ name))
      × AllDirs P dir_path names

  -- At most so many directories are inside each other.
  abbrev pub HasDepth : ℕ → Text → Type 0
  HasDepth zero dir_path = ⊥
  HasDepth (suc n) dir_path =
      (names : List Text)
      → files.opendir dir_path ≡ some names
      → AllDirs (HasDepth n) dir_path names

  AllDirs-map :
      {P Q : Text → Type 0} (dir_path : Text) (names : List Text)
      → ((path : Text) → P path → Q path)
      → AllDirs P dir_path names
      → AllDirs Q dir_path names
  AllDirs-map dir_path [] f all = tt
  AllDirs-map dir_path (name ∷ names) f (first, all) =
      ((λ d i. f _ (first d i)), AllDirs-map dir_path names f all)

  module _ (sub : Text → Option (List FileCall × Bool)) (dir_path : Text) where
    enter_dir-EndsClosed :
        (name : Text) (rest : Option (List FileCall × Bool))
        → (files.lstat (dir_path ++ name) ≡ some true → Ends dir_path (sub (dir_path ++ name)))
        → EndsClosed dir_path rest
        → EndsClosed dir_path (enter_dir files sub dir_path name rest)
    unfolding enter_dir
    enter_dir-EndsClosed name rest inner r = go (files.lstat (dir_path ++ name)) refl
      where
        go :
            (o : Option Bool)
            → files.lstat (dir_path ++ name) ≡ o
            → EndsClosed dir_path (elim o [
              | none ↦ rest
              | some false ↦ rest
              | some true ↦ after_dir dir_path (sub (dir_path ++ name)) rest
            ])
        go none e = r
        go (some false) e = r
        go (some true) e = after_dir-EndsClosed (sub (dir_path ++ name)) rest (inner e) r

    import_entry-EndsClosed :
        (name : Text) (rest : Option (List FileCall × Bool))
        → EndsClosed dir_path (enter_dir files sub dir_path name rest)
        → EndsClosed dir_path (import_entry files sub dir_path name rest)
    unfolding import_entry
    import_entry-EndsClosed name rest r = go (is_proto name) (files.import_file dir_path name)
      where
        go :
            (proto ok : Bool)
            → EndsClosed dir_path (elim proto [
              | false ↦ enter_dir files sub dir_path name rest
              | true ↦ elim ok [
                | false ↦ some (imported dir_path name ∷ (closed dir_path ∷ []), false)
                | true ↦
                    and_then (imported dir_path name ∷ []) (enter_dir files sub dir_path name rest)
              ]
            ])
        go false ok = r
        go true false = (imported dir_path name ∷ [], false, refl, one_file name no_call)
        go true true = and_then-EndsClosed (imported dir_path name ∷ []) _ (one_file name no_call) r

    read_entries-EndsClosed :
        (names : List Text)
        → AllDirs (λ path. Ends dir_path (sub path)) dir_path names
        → EndsClosed dir_path (read_entries files sub dir_path names)
    unfolding read_entries
    read_entries-EndsClosed [] all = ([], true, refl, no_call)
    read_entries-EndsClosed (name ∷ names) (first, all) =
        let r = read_entries-EndsClosed names all in go (is_dots name) refl r
      where
        go :
            (dots : Bool)
            → is_dots name ≡ dots
            → EndsClosed dir_path (read_entries files sub dir_path names)
            → EndsClosed dir_path (elim dots [
              | true ↦ read_entries files sub dir_path names
              | false ↦ import_entry files sub dir_path name (read_entries files sub dir_path names)
            ])
        go true e r = r
        go false e r = import_entry-EndsClosed name _ (enter_dir-EndsClosed name _ (first e) r)

  opened-Ends :
      (dir_path path : Text) (o : Option (List FileCall × Bool))
      → EndsClosed path o
      → Ends dir_path (and_then (opened path ∷ []) o)
  unfolding and_then
  opened-Ends dir_path path o (calls, ok, e, p) = (
    opened path ∷ (calls ++ (closed path ∷ [])),
    ok,
    ap (and_then (opened path ∷ [])) e,
    one_dir path p no_call,
  )

  -- If the directories are inside each other at most as deep as the fuel, `init_google_protos` ends
  -- for every file system and every answer of the importer, and every directory that it opened is
  -- closed, the inner ones first, also after a file that can not be imported; each file is imported
  -- while its directory is open.
  pub init_google_protos-Ends :
      (fuel : ℕ) (path dir_path : Text)
      → HasDepth fuel path
      → Ends dir_path (init_google_protos files fuel path)
  unfolding init_google_protos
  init_google_protos-Ends zero path dir_path deep = absurd deep
  init_google_protos-Ends (suc fuel) path dir_path deep =
      go (files.opendir path) refl (λ p. init_google_protos-Ends fuel p path)
    where
      go :
          (o : Option (List Text))
          → files.opendir path ≡ o
          → ((p : Text) → HasDepth fuel p → Ends path (init_google_protos files fuel p))
          → Ends dir_path (elim o [
            | none ↦ some ([], false)
            | some names ↦
                and_then
                  (opened path ∷ [])
                  (read_entries files (init_google_protos files fuel) path names)
          ])
      go none e ih = ([], false, refl, no_call)
      go (some names) e ih = opened-Ends dir_path path _ (
          read_entries-EndsClosed (init_google_protos files fuel) path names
            (AllDirs-map path names ih (deep names e)))
