-- ===== src/Server/ServerMain.antt =====
-- server/ServerMain.hpp, server/ServerMain.cpp: which servers a process runs, and the order of what is asked
-- of them. What `setrlimit` answers and whether `init` of the two servers succeeds are arguments; the
-- calls of the servers are a trace.
pub mod Chosen
pub mod Order
use rubo.Base.{
  ℕ, zero, suc, Bool, true, false, ◌&&◌, ◌||◌, List, [], ◌∷◌, ◌++◌, Option, none, some, ◌==◌,
  if◌then◌else◌,
}
use rubo.Base.Int.{ℤ, pos, ◌==ℤ◌}
use rubo.Msgs.UserMsg.{Text}
use rubo.Server.MysqlDb.{bytes}

pub data ServerCall : Type 0 where
  gate_init gate_run gate_stop logic_init logic_run logic_stop : ServerCall

-- `gate` and `logic` are whether the pointers are set.
pub record ServerMain : Type 0 where
  pub run_gate : Bool
  pub run_logic : Bool
  pub gate : Bool
  pub logic : Bool
  pub calls : List ServerCall

unfoldable pub new_server_main : ServerMain
new_server_main = record {
  run_gate = false;
  run_logic = false;
  gate = false;
  logic = false;
  calls = [];
}

-- `std::string::find`: the first place where a word stands, and `none` for `npos`.
unfoldable pub starts_with : Text → Text → Bool
starts_with [] s = true
starts_with (c ∷ w) [] = false
starts_with (c ∷ w) (d ∷ s) = c == d && starts_with w s

unfoldable pub find : Text → Text → Option ℕ
find w [] = if starts_with w [] then some 0 else none
find w (c ∷ s) =
    let rest = find w s in
    if starts_with w (c ∷ s) then some 0 else elim rest [ none ↦ none | some k ↦ some (suc k) ]

abbrev pub is_found : Option ℕ → Bool
is_found none = false
is_found (some k) = true

abbrev pub is_at_start : Option ℕ → Bool
is_at_start none = false
is_at_start (some k) = k == 0

abbrev pub gate_word : Text
gate_word = b'g' ∷ b'a' ∷ b't' ∷ b'e' ∷ []

abbrev pub logic_word : Text
logic_word = b'l' ∷ b'o' ∷ b'g' ∷ b'i' ∷ b'c' ∷ []

abbrev pub dashes : Text
dashes = b'-' ∷ b'-' ∷ []

-- The two flags, which stay `false` where `init` returns at once.
unfoldable pub choose : Text → Bool × Bool
choose [] = (true, true)
choose (c ∷ param) =
    if is_at_start (find dashes (c ∷ param))
    then (is_found (find gate_word (c ∷ param)), is_found (find logic_word (c ∷ param)))
    else (false, false)

pub record InitResults : Type 0 where
  pub core_limit : ℤ
  pub file_limit : ℤ
  pub gate_ok : Bool
  pub logic_ok : Bool

-- `setrlimit` answers 0 if it succeeds.
unfoldable pub set_res_limit : InitResults → Bool
set_res_limit a = if a.core_limit ==ℤ pos 0 then a.file_limit ==ℤ pos 0 else false

-- What `basic_init` asks of the system can not fail.
unfoldable pub init_system : InitResults → Bool
init_system a = set_res_limit a

unfoldable pub call : ServerCall → ServerMain → ServerMain
call c m = record m { calls = m.calls ++ (c ∷ []) }

unfoldable pub init_gate : Bool → ServerMain → ServerMain × Bool
init_gate ok m = if m.run_gate then (call gate_init (record m { gate = true }), ok) else (m, true)

unfoldable pub init_logic : Bool → ServerMain → ServerMain × Bool
init_logic ok m =
    if m.run_logic then (call logic_init (record m { logic = true }), ok) else (m, true)

unfoldable pub init_servers : InitResults → ServerMain → ServerMain × Bool
init_servers a m =
    let (m', ok) = init_gate a.gate_ok m in if ok then init_logic a.logic_ok m' else (m', false)

-- `init`, with the two flags.
unfoldable pub init_chosen : InitResults → Bool × Bool → ServerMain → ServerMain × Bool
init_chosen a (run_gate, run_logic) m =
    let m' : ServerMain = record m { run_gate = run_gate; run_logic = run_logic } in
    if run_gate || run_logic
    then (if init_system a then init_servers a m' else (m', false))
    else (m', false)

unfoldable pub init : InitResults → Text → ServerMain → ServerMain × Bool
init a param m = init_chosen a (choose param) m

unfoldable pub run : ServerMain → ServerMain
run m =
    let m' : ServerMain = if m.gate then call gate_run m else m in
    if m'.logic then call logic_run m' else m'

unfoldable pub stop_gate : ServerMain → ServerMain
stop_gate m = if m.gate then record (call gate_stop m) { gate = false } else m

unfoldable pub stop_logic : ServerMain → ServerMain
stop_logic m = if m.logic then record (call logic_stop m) { logic = false } else m

unfoldable pub stop : ServerMain → ServerMain
stop m =
    let m' : ServerMain = if m.logic then call logic_stop m else m in
    if m'.gate then call gate_stop m' else m'
