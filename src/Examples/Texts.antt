-- ===== src/Examples/Texts.antt =====
-- The utilities and the script of tables at concrete inputs.
use rubo.Base.{ltb, ◌+◌, ℕ, ◌≡◌, refl, Bool, List, [], ◌∷◌, some, arith}
use rubo.Util.Utils.{
  contains, index_of, find_first_of, substr, push_piece, push_last, split_loop, split,
  find_first_not_of, find_last_not_of, trim_left, trim_right,
}
use rubo.Util.Utils.Split.{pieces, split-pieces}
use rubo.Msgs.UserMsg.{Text}
use rubo.Server.MysqlDb.{bytes}
use rubo.Server.MysqlDb.Script.{init_sql}
use rubo.Server.MysqlDb.Script.Statements.{script, run_all, init_sql-script}

-- Two delimiters, an empty piece between them and one at the end.
splits : split 6 (bytes "a;b,;") (bytes ";,") [] ≡ some (bytes "a" ∷ bytes "b" ∷ [] ∷ [] ∷ [])
unfolding split split_loop find_first_of index_of contains push_piece push_last substr bytes
splits = refl

trims_left : trim_left (bytes "  a ") b' ' ≡ bytes "a "
unfolding trim_left find_first_not_of bytes
trims_left = refl

trims_right : trim_right (bytes " a  ") b' ' ≡ bytes " a"
unfolding trim_right find_last_not_of bytes
trims_right = refl

trims_all : trim_right (bytes "  ") b' ' ≡ []
unfolding trim_right find_last_not_of bytes
trims_all = refl

abbrev two_fields : Text
two_fields = 97 ∷ 59 ∷ 98 ∷ []

split-pieces_example : split 4 two_fields (59 ∷ []) [] ≡ some (pieces (59 ∷ []) two_fields)
split-pieces_example = split-pieces two_fields (59 ∷ []) [] (omega arith)

-- A database that counts what it was asked, and refuses the second statement.
abbrev refuses_second : ℕ → Text → ℕ × Bool
refuses_second db sql = (db + 1, ltb db 1)

abbrev statements : List Text
statements = (98 ∷ 101 ∷ 103 ∷ 105 ∷ 110 ∷ []) ∷ (99 ∷ 111 ∷ 109 ∷ 105 ∷ 116 ∷ []) ∷ []

init_sql-script_example :
    init_sql refuses_second 0 (some (script statements))
    ≡ some (run_all refuses_second 0 statements)
unfolding script
init_sql-script_example = init_sql-script refuses_second 0 statements (omega arith) (omega arith)
