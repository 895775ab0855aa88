-- ===== src/Server/ServerMain/Order.antt =====
-- server/ServerMain.cpp: from the argument of the process to the calls of its servers.
use rubo.Base.{
  ℕ, ◌≡◌, refl, sym, ◌∙◌, ◌⊎◌, ◌↔◌, inl, inr, Bool, true, false, ◌||◌, List, [], ◌∷◌, ◌++◌,
  if◌then◌else◌, if_true,
}
use rubo.Base.Int.{pos}
use rubo.Msgs.UserMsg.{Text}
use rubo.Server.ServerMain.{
  ServerCall, gate_init, gate_run, gate_stop, logic_init, logic_run, logic_stop, new_server_main,
  find, is_found, is_at_start, gate_word, logic_word, dashes, choose, InitResults, call, init_gate,
  init_logic, init_servers, init_chosen, init_system, set_res_limit, init, run, stop,
}
use rubo.Server.ServerMain.Chosen.{
  Occurs, Starts, find-Occurs, Occurs-find, find-Starts, Starts-find,
}

-- What the argument says about a server.
abbrev pub Asks : Text → Text → Type 0
Asks word param = (param ≡ []) ⊎ (Starts dashes param × Occurs word param)

abbrev pub all_ok : InitResults
all_ok = record { core_limit = pos 0; file_limit = pos 0; gate_ok = true; logic_ok = true }

abbrev pub when : Bool → ServerCall → List ServerCall
when b c = if b then c ∷ [] else []

-- The servers are asked to stop in the other order.
abbrev pub in_order : Bool → Bool → List ServerCall
in_order g l =
    when g gate_init
    ++ (when l logic_init
        ++ (when g gate_run ++ (when l logic_run ++ (when l logic_stop ++ when g gate_stop))))

served :
    (g l : Bool)
    → let (m, ok) = init_chosen all_ok (g, l) new_server_main in
      (ok ≡ (g || l)) × ((stop (run m)).calls ≡ in_order g l)
unfolding init_chosen init_system set_res_limit init_servers init_gate init_logic run stop call
    new_server_main
served true true = (refl, refl)
served true false = (refl, refl)
served false true = (refl, refl)
served false false = (refl, refl)

first_if :
    (b x y : Bool)
    → (if◌then◌else◌ {A = Bool × Bool} b (x, y) (false, false)).0 ≡ (if b then x else false)
first_if true x y = refl
first_if false x y = refl

second_if :
    (b x y : Bool)
    → (if◌then◌else◌ {A = Bool × Bool} b (x, y) (false, false)).1 ≡ (if b then y else false)
second_if true x y = refl
second_if false x y = refl

both_true : (b x : Bool) → (if b then x else false) ≡ true → (b ≡ true) × (x ≡ true)
both_true true x e = (refl, e)
both_true false x e = absurd (cc e)

module _ (word param : Text) (c : ℕ) where
  asked :
      (if is_at_start (find dashes (c ∷ param)) then is_found (find word (c ∷ param)) else false)
        ≡ true
      → Asks word (c ∷ param)
  asked e =
      let (start, found) = both_true _ _ e in
      inr (find-Starts dashes param c start, find-Occurs word (c ∷ param) found)

  asking :
      Asks word (c ∷ param)
      → (if is_at_start (find dashes (c ∷ param)) then is_found (find word (c ∷ param)) else false)
        ≡ true
  asking (inl none_given) = absurd (cc none_given)
  asking (inr (start, occurs)) =
      if_true _ _ false (Starts-find dashes (c ∷ param) start) ∙ Occurs-find word (c ∷ param) occurs

choose-Asks :
    (param : Text)
    → (((choose param).0 ≡ true) ↔ Asks gate_word param)
      × (((choose param).1 ≡ true) ↔ Asks logic_word param)
unfolding choose
choose-Asks [] = (((λ e. inl refl), (λ a. refl)), ((λ e. inl refl), (λ a. refl)))
choose-Asks (c ∷ param) =
    let dashed = is_at_start (find dashes (c ∷ param)) in
    let gate = is_found (find gate_word (c ∷ param)) in
    let logic = is_found (find logic_word (c ∷ param)) in
    let e0 = first_if dashed gate logic in
    let e1 = second_if dashed gate logic in
    (
      ((λ e. asked gate_word param c (sym e0 ∙ e)), (λ a. e0 ∙ asking gate_word param c a)),
      ((λ e. asked logic_word param c (sym e1 ∙ e)), (λ a. e1 ∙ asking logic_word param c a)),
    )

-- For every argument, if the limits can be set and `init` of both servers succeeds: the gate (the
-- logic server) is run exactly if the argument is empty, or starts with "--" and has the word
-- "gate" ("logic") in it; `init` succeeds exactly if one of them is run; and `init`, `run` and
-- `stop` call exactly these servers, the gate first in `init` and `run` and last in `stop`.
pub init-stop-run :
    (param : Text)
    → (g : Bool) × (l : Bool) × ((g ≡ true) ↔ Asks gate_word param)
      × ((l ≡ true) ↔ Asks logic_word param)
      × ((init all_ok param new_server_main).1 ≡ (g || l))
      × ((stop (run (init all_ok param new_server_main).0)).calls ≡ in_order g l)
unfolding init
init-stop-run param =
    let (gate_asked, logic_asked) = choose-Asks param in
    let (result, calls) = served (choose param).0 (choose param).1 in
    ((choose param).0, (choose param).1, gate_asked, logic_asked, result, calls)
