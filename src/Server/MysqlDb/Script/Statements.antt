-- ===== src/Server/MysqlDb/Script/Statements.antt =====
-- A script that is written as statements, each with a semicolon and the end of a line behind it.
use rubo.Base.{
  ℕ, ◌^◌, ◌≤◌, ◌<◌, ◌≡◌, refl, ap, ◌∙◌, ◌≢◌, Bool, true, false, List, [], ◌∷◌, ◌++◌, some, arith,
  length, ◌==◌, le→ltb,
}
use rubo.Msgs.UserMsg.{Text}
use rubo.Util.Utils.{contains, trim_left}
use rubo.Util.Utils.Split.{pieces, prepend, split-pieces}
use rubo.Util.Utils.Trim.{trim_left_self, trim_left-other}
use rubo.Server.MysqlDb.Script.{execute_sql, unless_failed, execute_sqls, init_sql}

unfoldable pub script : List Text → Text
script [] = []
script (s ∷ ss) = s ++ (b';' ∷ (b'\n' ∷ script ss))

abbrev pub Lacks : ℕ → Text → Type 0
Lacks c [] = Unit
Lacks c (d ∷ s) = (d ≢ c) × Lacks c s

-- At least five bytes, the first of them not the end of a line, and no semicolon.
abbrev pub IsStatement : Text → Type 0
IsStatement [] = ⊥
IsStatement (c ∷ s) = (c ≢ b'\n') × (4 ≤ length s) × Lacks b';' (c ∷ s)

abbrev pub AreStatements : List Text → Type 0
AreStatements [] = Unit
AreStatements (s ∷ ss) = IsStatement s × AreStatements ss

module _ {State : Type 0} (execute : State → Text → State × Bool) where
  -- The statements in order, each on the state that the one before left, up to the first that fails.
  unfoldable pub run_all : State → List Text → State × Bool
  run_all db [] = (db, true)
  run_all db (s ∷ ss) =
      let (db', ok) = execute db s in elim ok [ true ↦ run_all db' ss | false ↦ (db', false) ]

  unless_failed-elim :
      (f g : State → State × Bool)
      → ((db : State) → f db ≡ g db)
      → (r : State × Bool)
      → unless_failed execute f r
        ≡ (let (db', ok) = r in elim ok [ true ↦ g db' | false ↦ (db', false) ])
  unfolding unless_failed
  unless_failed-elim f g h (db, false) = refl
  unless_failed-elim f g h (db, true) = h db

  pieces-append :
      (s rest : Text)
      → Lacks b';' s
      → pieces (b';' ∷ []) (s ++ (b';' ∷ rest)) ≡ s ∷ pieces (b';' ∷ []) rest
  unfolding pieces contains prepend
  pieces-append [] rest l = refl
  pieces-append (c ∷ s) rest l =
      let other : (c == b';') ≡ false = ground (arith, l.0) in
      rw (other, pieces-append s rest l.1, prepend)

  execute_sqls-first :
      (db : State) (piece s : Text) (ps ss : List Text)
      → 5 ≤ length piece
      → trim_left piece b'\n' ≡ s
      → ((db' : State) → execute_sqls execute db' ps ≡ run_all db' ss)
      → execute_sqls execute db (piece ∷ ps) ≡ run_all db (s ∷ ss)
  unfolding execute_sqls run_all execute_sql
  execute_sqls-first db piece s ps ss long e ih =
      rw (le→ltb (length piece) 5 long, execute_sqls, e)
        (unless_failed-elim (λ db'. execute_sqls execute db' ps) (λ db'. run_all db' ss) ih
          (execute db s))

  pieces_at_end :
      (ss : List Text)
      → pieces (b';' ∷ []) (b'\n' ∷ script ss) ≡ prepend b'\n' (pieces (b';' ∷ []) (script ss))
  unfolding pieces contains
  pieces_at_end ss = refl

  -- The pieces of the rest of a script have the end of a line before them.
  execute_sqls-rest :
      (db : State) (ss : List Text)
      → AreStatements ss
      → execute_sqls execute db (prepend b'\n' (pieces (b';' ∷ []) (script ss))) ≡ run_all db ss
  unfolding script prepend
  execute_sqls-rest db [] st = unfold execute_sqls pieces prepend run_all in refl
  execute_sqls-rest db ([] ∷ ss) st = absurd st.0
  execute_sqls-rest db ((c ∷ s) ∷ ss) st =
      rw (pieces-append (c ∷ s) (b'\n' ∷ script ss) st.0.2, prepend)
        (execute_sqls-first db (b'\n' ∷ (c ∷ s)) (c ∷ s) _ ss (omega (arith, st.0.1))
          (trim_left_self b'\n' (c ∷ s) ∙ trim_left-other b'\n' c s st.0.0)
          (λ db'. ap (execute_sqls execute db') (pieces_at_end ss) ∙ execute_sqls-rest db' ss st.1))

  execute_sqls-script :
      (db : State) (ss : List Text)
      → AreStatements ss
      → execute_sqls execute db (pieces (b';' ∷ []) (script ss)) ≡ run_all db ss
  unfolding script
  execute_sqls-script db [] st = unfold execute_sqls pieces run_all in refl
  execute_sqls-script db ([] ∷ ss) st = absurd st.0
  execute_sqls-script db ((c ∷ s) ∷ ss) st = rw (pieces-append (c ∷ s) (b'\n' ∷ script ss) st.0.2) (
      execute_sqls-first db (c ∷ s) (c ∷ s) _ ss (omega (arith, st.0.1))
        (trim_left-other b'\n' c s st.0.0)
        (λ db'. ap (execute_sqls execute db') (pieces_at_end ss) ∙ execute_sqls-rest db' ss st.1))

  -- For a script of less than 2^63 bytes that is written as statements of at least five bytes, none
  -- of them with a semicolon or an end of line at its start, each with a semicolon and an end of
  -- line behind it, `init_sql` executes exactly these statements, in order, each on the state that
  -- the one before left, up to and with the first that fails, and returns the last state and
  -- whether none failed.
  pub init_sql-script :
      (db : State) (ss : List Text)
      → AreStatements ss
      → length (script ss) < 2 ^ 63
      → init_sql execute db (some (script ss)) ≡ some (run_all db ss)
  unfolding init_sql
  init_sql-script db ss st short =
      rw (init_sql, split-pieces (script ss) (b';' ∷ []) [] short)
        (ap some (execute_sqls-script db ss st))
