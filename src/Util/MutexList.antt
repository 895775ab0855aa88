-- ===== src/Util/MutexList.antt =====
-- util/MutexList.hpp: a list behind a mutex. Every operation holds the lock from its start to its
-- end, so a concurrent run is a sequence of whole operations.
use rubo.Base.{◌≡◌, refl, sym, ap, ◌∙◌, List, [], ◌∷◌, ◌++◌, append-nil, append_assoc}

module _ {ℓ} {T : Type ℓ} where
  unfoldable pub add_one : T → List T → List T
  add_one one datas = datas ++ (one ∷ [])

  unfoldable pub add_more : List T → List T → List T
  add_more more datas = datas ++ more

  -- With the value of `T()`, which an empty list gives.
  unfoldable pub get_one : T → List T → T × List T
  get_one null [] = (null, [])
  get_one null (one ∷ datas) = (one, datas)

  unfoldable pub get_more : List T → List T × List T
  get_more datas = (datas, [])

  -- One call by one of the threads, with the list before and after it.
  pub data Call : List T → List T → Type ℓ where
    adds_one : (one : T) (datas : List T) → Call datas (add_one one datas)
    adds_more : (more datas : List T) → Call datas (add_more more datas)
    gets_one : (null : T) (datas : List T) → Call datas (get_one null datas).1
    gets_more : (datas : List T) → Call datas (get_more datas).1

  -- What a call puts into the list, and what it takes out of it: a `T()` for an empty list is not
  -- an element that was taken.
  unfoldable pub added : {a b : List T} → Call a b → List T
  added (adds_one one _) = one ∷ []
  added (adds_more more _) = more
  added (gets_one _ _) = []
  added (gets_more _) = []

  unfoldable pub taken : {a b : List T} → Call a b → List T
  taken (adds_one _ _) = []
  taken (adds_more _ _) = []
  taken (gets_one null []) = []
  taken (gets_one null (one ∷ datas)) = (get_one null (one ∷ datas)).0 ∷ []
  taken (gets_more datas) = (get_more datas).0

  -- The calls of all threads, in the order in which they get the lock.
  pub data Calls : List T → List T → Type ℓ where
    done : (a : List T) → Calls a a
    call : {a b c : List T} → Call a b → Calls b c → Calls a c

  unfoldable pub all_added : {a b : List T} → Calls a b → List T
  all_added (done _) = []
  all_added (call c cs) = added c ++ all_added cs

  unfoldable pub all_taken : {a b : List T} → Calls a b → List T
  all_taken (done _) = []
  all_taken (call c cs) = taken c ++ all_taken cs

  Call-fifo : {a b : List T} (c : Call a b) → a ++ added c ≡ taken c ++ b
  unfolding added taken add_one add_more get_one get_more
  Call-fifo (adds_one one datas) = refl
  Call-fifo (adds_more more datas) = refl
  Call-fifo (gets_one null []) = refl
  Call-fifo (gets_one null (one ∷ datas)) = append-nil (one ∷ datas)
  Call-fifo (gets_more datas) = append-nil datas ∙ sym (append-nil datas)

  -- However the calls of several threads on a shared list interleave, elements come out in the
  -- order in which they went in, each exactly once: those taken and those left are those at the
  -- start and those added.
  pub Calls-fifo : {a b : List T} (cs : Calls a b) → a ++ all_added cs ≡ all_taken cs ++ b
  unfolding all_added all_taken
  Calls-fifo (done a) = append-nil a
  Calls-fifo (call {a} {b} c cs) =
      sym (append_assoc a (added c) (all_added cs))
      ∙ ap (λ l. l ++ all_added cs) (Call-fifo c)
      ∙ append_assoc (taken c) b (all_added cs)
      ∙ ap (λ l. taken c ++ l) (Calls-fifo cs)
      ∙ sym (append_assoc (taken c) (all_taken cs) _)
