-- ===== src/Server/ServerMain/Chosen.antt =====
-- server/ServerMain.cpp: `std::string::find` against concatenation.
use rubo.Base.{
  ℕ, ◌≡◌, refl, sym, ap, ap₂, ◌∙◌, inl, inr, true, false, [], ◌∷◌, ◌++◌, none, some, arith, ◌==◌,
  Bool-cases, Option-cases,
}
use rubo.Msgs.UserMsg.{Text}
use rubo.Server.ServerMain.{starts_with, find, is_found, is_at_start}

-- A word stands somewhere in a text.
abbrev pub Occurs : Text → Text → Type 0
Occurs w s = (a : Text) × (b : Text) × (s ≡ a ++ (w ++ b))

-- A text starts with a word.
abbrev pub Starts : Text → Text → Type 0
Starts w s = (b : Text) × (s ≡ w ++ b)

starts_with-Starts : (w s : Text) → starts_with w s ≡ true → Starts w s
unfolding starts_with
starts_with-Starts [] s e = (s, refl)
starts_with-Starts (c ∷ w) [] e = absurd (cc e)
starts_with-Starts (c ∷ w) (d ∷ s) e =
    let same : d ≡ c = ground arith in
    let (b, eq) = starts_with-Starts w s (ground arith) in (b, ap₂ (λ k l. k ∷ l) same eq)

starts_with-append : (w b : Text) → starts_with w (w ++ b) ≡ true
unfolding starts_with
starts_with-append [] b = refl
starts_with-append (c ∷ w) b =
    let self : (c == c) ≡ true = ground arith in rw (self, starts_with-append w b)

find_here : (w s : Text) → starts_with w s ≡ true → find w s ≡ some 0
unfolding find
find_here w [] e = rw (find, e)
find_here w (c ∷ s) e = rw (find, e)

find_later :
    (w s : Text) (c : ℕ)
    → starts_with w (c ∷ s) ≡ false
    → is_found (find w (c ∷ s)) ≡ is_found (find w s)
unfolding find
find_later w s c e = elim (Option-cases (find w s)) [
  | inl n ↦ rw (find, e, n)
  | inr (k, n) ↦ rw (find, e, n)
]

find-none : (w : Text) → starts_with w [] ≡ false → find w [] ≡ none
unfolding find
find-none w e = rw (find, e)

pub find-Occurs : (w s : Text) → is_found (find w s) ≡ true → Occurs w s
find-Occurs w [] e = elim (Bool-cases (starts_with w [])) [
  | inl here ↦ let (b, eq) = starts_with-Starts w [] here in ([], b, eq)
  | inr nowhere ↦ absurd (cc (e, find-none w nowhere))
]
find-Occurs w (c ∷ s) e = elim (Bool-cases (starts_with w (c ∷ s))) [
  | inl here ↦ let (b, eq) = starts_with-Starts w (c ∷ s) here in ([], b, eq)
  | inr later ↦
      let (a, b, eq) = find-Occurs w s (sym (find_later w s c later) ∙ e) in
      (c ∷ a, b, ap (◌∷◌ c) eq)
]

find-append : (a w b : Text) → is_found (find w (a ++ (w ++ b))) ≡ true
find-append [] w b = ap is_found (find_here w (w ++ b) (starts_with-append w b))
find-append (c ∷ a) w b = elim (Bool-cases (starts_with w (c ∷ (a ++ (w ++ b))))) [
  | inl here ↦ ap is_found (find_here w (c ∷ (a ++ (w ++ b))) here)
  | inr later ↦ find_later w (a ++ (w ++ b)) c later ∙ find-append a w b
]

pub Occurs-find : (w s : Text) → Occurs w s → is_found (find w s) ≡ true
Occurs-find w s (a, b, e) = ap (λ t. is_found (find w t)) e ∙ find-append a w b

-- A place other than the start.
not_at_start :
    (w s : Text) (c : ℕ) → starts_with w (c ∷ s) ≡ false → is_at_start (find w (c ∷ s)) ≡ false
unfolding find
not_at_start w s c e = elim (Option-cases (find w s)) [
  | inl n ↦ rw (find, e, n)
  | inr (k, n) ↦ rw (find, e, n) (ground arith)
]

pub find-Starts : (w s : Text) (c : ℕ) → is_at_start (find w (c ∷ s)) ≡ true → Starts w (c ∷ s)
find-Starts w s c e = elim (Bool-cases (starts_with w (c ∷ s))) [
  | inl here ↦ starts_with-Starts w (c ∷ s) here
  | inr other ↦ absurd (cc (e, not_at_start w s c other))
]

pub Starts-find : (w s : Text) → Starts w s → is_at_start (find w s) ≡ true
Starts-find w s (b, e) =
    ap (λ t. is_at_start (find w t)) e
    ∙ ap is_at_start (find_here w (w ++ b) (starts_with-append w b))
