-- ===== src/Server/Logic/Io/Dispatch.antt =====
-- server/Logic/LogicIO.cpp: which worker gets which message of the gate.
use mathlib.Core.Path.{subst}
use rubo.Base.{
  ◌⊎◌, ℕ, zero, suc, ◌<◌, ◌≡◌, refl, sym, ap, ap₂, ◌∙◌, inl, inr, Bool, true, false, List, [], ◌∷◌,
  ◌++◌, append-nil, append_assoc, Option, none, some, arith, ◌==◌, ltb, if◌then◌else◌, Bool-cases,
  if_true, if_false,
}
use rubo.Base.Int.{ℤ, ◌==ℤ◌, ==ℤ→eq}
use rubo.Msgs.UserMsg.{UserMsg, verify_rsp, system_verify_rsp}
use rubo.Server.Balance.{first_with, fewest, get_worker, get_elem?, uint_max, get_worker-found}
use rubo.Server.LogicWorker.{LogicWorker, is_uid_in, user_num}
use rubo.Server.Logic.Io.{LogicIo, on_verify_ret, push_io, worker_of, to_worker, route, route_all}

-- A worker with messages put behind those that wait to be handed over.
abbrev pub add_io : List UserMsg → LogicWorker → LogicWorker
add_io msgs w = record w { io_msgs = w.io_msgs ++ msgs }

add_io-none : (w : LogicWorker) → w ≡ add_io [] w
add_io-none w = ap (λ l. record w { io_msgs = l }) (sym (append-nil w.io_msgs))

add_io-more : (a b : List UserMsg) (w : LogicWorker) → add_io b (add_io a w) ≡ add_io (a ++ b) w
add_io-more a b w = ap (λ l. record w { io_msgs = l }) (append_assoc w.io_msgs a b)

-- The choice does not depend on the messages that wait.
module _ (uid : ℤ) (msg : UserMsg) where
  first_with-push_io :
      (start i : ℕ) (ws : List LogicWorker)
      → first_with (is_uid_in uid) start (push_io i msg ws) ≡ first_with (is_uid_in uid) start ws
  unfolding first_with push_io is_uid_in
  first_with-push_io start i [] = refl
  first_with-push_io start zero (w ∷ ws) = refl
  first_with-push_io start (suc i) (w ∷ ws) =
      ap (λ r. elim (is_uid_in uid w) [ true ↦ some start | false ↦ r ])
        (first_with-push_io (suc start) i ws)

  fewest-push_io :
      (min_num : ℕ) (ret : Option ℕ) (start i : ℕ) (ws : List LogicWorker)
      → fewest user_num min_num ret start (push_io i msg ws) ≡ fewest user_num min_num ret start ws
  unfolding fewest push_io user_num
  fewest-push_io min_num ret start i [] = refl
  fewest-push_io min_num ret start zero (w ∷ ws) = refl
  fewest-push_io min_num ret start (suc i) (w ∷ ws) =
      ap₂ (λ r s. elim (ltb (user_num w) min_num) [ true ↦ r | false ↦ s ])
        (fewest-push_io (user_num w) (some start) (suc start) i ws)
        (fewest-push_io min_num ret (suc start) i ws)

worker_of-push_io :
    (m msg : UserMsg) (i : ℕ) (ws : List LogicWorker)
    → worker_of m (push_io i msg ws) ≡ worker_of m ws
unfolding worker_of get_worker
worker_of-push_io m msg i ws =
    ap₂ (λ f g. elim f [ some j ↦ some j | none ↦ g ]) (first_with-push_io m.uid msg 0 i ws)
      (fewest-push_io m.uid msg uint_max none 0 i ws)

get_elem?-push_io :
    (j i : ℕ) (msg : UserMsg) (ws : List LogicWorker) (w : LogicWorker)
    → get_elem? ws i ≡ some w
    → get_elem? (push_io j msg ws) i ≡ some (add_io (if j == i then msg ∷ [] else []) w)
unfolding push_io
get_elem?-push_io j i msg [] w e = absurd (cc e)
get_elem?-push_io zero zero msg (v ∷ ws) w e =
    ap (λ o. elim o [ none ↦ none | some u ↦ some (add_io (msg ∷ []) u) ]) e
get_elem?-push_io zero (suc i) msg (v ∷ ws) w e =
    let other : (0 == suc i) ≡ false = ground arith in rw other (e ∙ ap some (add_io-none w))
get_elem?-push_io (suc j) zero msg (v ∷ ws) w e =
    let other : (suc j == 0) ≡ false = ground arith in rw other (e ∙ ap some (add_io-none w))
get_elem?-push_io (suc j) (suc i) msg (v ∷ ws) w e =
    let same : (suc j == suc i) ≡ (j == i) = ground arith in
    rw same (get_elem?-push_io j i msg ws w e)

-- Whether a message goes to the worker at a place.
abbrev at_place : ℕ → Option ℕ → Bool
at_place i none = false
at_place i (some j) = j == i

unfoldable pub goes_to : ℕ → List LogicWorker → UserMsg → Bool
goes_to i ws m = if m.msg_id ==ℤ system_verify_rsp then false else at_place i (worker_of m ws)

-- The messages for the worker at a place, in order.
unfoldable pub sent_to : ℕ → List LogicWorker → List UserMsg → List UserMsg
sent_to i ws [] = []
sent_to i ws (m ∷ ms) = (if goes_to i ws m then m ∷ [] else []) ++ sent_to i ws ms

-- There is a worker, and the first has less than UINT_MAX users.
abbrev pub HasRoom : List LogicWorker → Type 0
HasRoom [] = ⊥
HasRoom (w ∷ ws) = user_num w < uint_max

-- A message with the number of the answer to a verification is one.
abbrev pub IsCast : UserMsg → Type 0
IsCast m = m.msg_id ≡ system_verify_rsp → (ok : Bool) × (m.msg ≡ verify_rsp ok)

abbrev pub AreCast : List UserMsg → Type 0
AreCast [] = Unit
AreCast (m ∷ ms) = IsCast m × AreCast ms

-- The answer to a verification, or a message for which there is a worker.
abbrev pub HasWorker : List LogicWorker → UserMsg → Type 0
HasWorker ws m =
    (m.msg_id ≡ system_verify_rsp)
    ⊎ ((i : ℕ) × (w : LogicWorker) × (goes_to i ws m ≡ true) × (get_elem? ws i ≡ some w))

abbrev pub AllHaveWorkers : List LogicWorker → List UserMsg → Type 0
AllHaveWorkers ws [] = Unit
AllHaveWorkers ws (m ∷ ms) = HasWorker ws m × AllHaveWorkers ws ms

-- What the workers have after some messages were given to them.
abbrev pub Given : List LogicWorker → (ℕ → List UserMsg) → List LogicWorker → Type 0
Given ws msgs ws' =
    (i : ℕ) (w : LogicWorker) → get_elem? ws i ≡ some w → get_elem? ws' i ≡ some (add_io (msgs i) w)

HasRoom-push_io :
    (i : ℕ) (m : UserMsg) (ws : List LogicWorker) → HasRoom ws → HasRoom (push_io i m ws)
unfolding push_io user_num
HasRoom-push_io i m [] h = absurd h
HasRoom-push_io zero m (w ∷ ws) h = h
HasRoom-push_io (suc i) m (w ∷ ws) h = h

pub worker_of-found :
    (m : UserMsg) (ws : List LogicWorker)
    → HasRoom ws
    → (i : ℕ) × (w : LogicWorker) × (worker_of m ws ≡ some i) × (get_elem? ws i ≡ some w)
unfolding worker_of
worker_of-found m [] room = absurd room
worker_of-found m (v ∷ ws) room = get_worker-found (is_uid_in m.uid) user_num v ws room

has_worker : (m : UserMsg) (ws : List LogicWorker) → HasRoom ws → HasWorker ws m
unfolding goes_to
has_worker m ws room = elim (Bool-cases (m.msg_id ==ℤ system_verify_rsp)) [
  | inl v ↦ inl (==ℤ→eq m.msg_id system_verify_rsp v)
  | inr v ↦
      let (i, w, e, at) = worker_of-found m ws room in
      let self : (i == i) ≡ true = ground arith in
      inr (i, w, if_false _ false (at_place i (worker_of m ws)) v ∙ ap (at_place i) e ∙ self, at)
]

all_have_workers : (ms : List UserMsg) (ws : List LogicWorker) → HasRoom ws → AllHaveWorkers ws ms
all_have_workers [] ws room = tt
all_have_workers (m ∷ ms) ws room = (has_worker m ws room, all_have_workers ms ws room)

-- One message.
Step : UserMsg → LogicIo → Type 0
Step m io =
    (io' : LogicIo) × (route m io ≡ some io')
    × Given io.workers (λ i. if goes_to i io.workers m then m ∷ [] else []) io'.workers
    × HasRoom io'.workers
    × ((k : UserMsg) → worker_of k io'.workers ≡ worker_of k io.workers)

route-verify :
    (m : UserMsg) (io : LogicIo)
    → (m.msg_id ==ℤ system_verify_rsp) ≡ true
    → IsCast m
    → HasRoom io.workers
    → Step m io
unfolding Step route on_verify_ret goes_to
route-verify m io v cast room =
    let is : m.msg_id ≡ system_verify_rsp = ==ℤ→eq m.msg_id system_verify_rsp v in
    let (ok, e) = cast is in
    (
      io,
      ap (λ b. elim b [ true ↦ on_verify_ret m io | false ↦ to_worker m io ]) v
          ∙ ap (λ b. elim b [ verify_rsp _ ↦ some io | _ ↦ none ]) e,
      (λ i w at. given i w at),
      room,
      (λ k. refl),
    )
  where
    given :
        (i : ℕ) (w : LogicWorker)
        → get_elem? io.workers i ≡ some w
        → get_elem? io.workers i ≡ some (add_io (if goes_to i io.workers m then m ∷ [] else []) w)
    given i w at =
        let no_one : goes_to i io.workers m ≡ false = if_true _ _ _ v in
        rw no_one (at ∙ ap some (add_io-none w))

route-other :
    (m : UserMsg) (io : LogicIo)
    → (m.msg_id ==ℤ system_verify_rsp) ≡ false
    → HasRoom io.workers
    → Step m io
unfolding Step route to_worker goes_to
route-other m io v room =
    let (i, w, e, at) = worker_of-found m io.workers room in
    let goes =
      λ (j : ℕ). if_false _ false (at_place j (worker_of m io.workers)) v ∙ ap (at_place j) e in
    (
      record io { workers = push_io i m io.workers },
      ap (λ b. elim b [ true ↦ on_verify_ret m io | false ↦ to_worker m io ]) v
          ∙ ap
              (λ o. elim o [
                | none ↦ none
                | some i ↦ some (record io { workers = push_io i m io.workers })
              ])
              e,
      (λ j u at'.
          subst
            (λ b. get_elem? (push_io i m io.workers) j ≡ some (add_io (if b then m ∷ [] else []) u))
            (sym (goes j)) (get_elem?-push_io i j m io.workers u at')),
      HasRoom-push_io i m io.workers room,
      (λ k. worker_of-push_io k m i io.workers),
    )

route_Step : (m : UserMsg) (io : LogicIo) → IsCast m → HasRoom io.workers → Step m io
route_Step m io cast room = elim (Bool-cases (m.msg_id ==ℤ system_verify_rsp)) [
  | inl v ↦ route-verify m io v cast room
  | inr v ↦ route-other m io v room
]

sent_to-same :
    (ws ws' : List LogicWorker)
    → ((k : UserMsg) → worker_of k ws' ≡ worker_of k ws)
    → (i : ℕ) (ms : List UserMsg) → sent_to i ws' ms ≡ sent_to i ws ms
unfolding sent_to goes_to
sent_to-same ws ws' same i [] = refl
sent_to-same ws ws' same i (m ∷ ms) =
    ap₂
      (λ o rest.
        (if (if m.msg_id ==ℤ system_verify_rsp then false else at_place i o) then m ∷ [] else [])
        ++ rest)
      (same m) (sent_to-same ws ws' same i ms)

-- If there is a worker, the first has less than UINT_MAX users, and a message with the number of
-- the answer to a verification is one, the messages of the gate are all handled: each of the others
-- has a worker, the one that `get_worker` chooses for its user, and each worker gets exactly its
-- messages, in order, behind those that it had.
pub route_all-Given :
    (ms : List UserMsg) (io : LogicIo)
    → AreCast ms
    → HasRoom io.workers
    → (io' : LogicIo) × (route_all ms io ≡ some io')
      × Given io.workers (λ i. sent_to i io.workers ms) io'.workers
      × AllHaveWorkers io.workers ms
unfolding route_all sent_to Step
route_all-Given [] io cast room = (io, refl, (λ i w at. at ∙ ap some (add_io-none w)), tt)
route_all-Given (m ∷ ms) io cast room =
    let (io1, e, given, room1, same) = route_Step m io cast.0 room in
    let (io2, e', given', _) = route_all-Given ms io1 cast.1 room1 in
    (
      io2,
      ap (λ o. elim o [ none ↦ none | some io' ↦ route_all ms io' ]) e ∙ e',
      (λ i w at.
          given' i _ (given i w at)
          ∙ ap some (
              add_io-more _ _ w
              ∙ ap (λ r. add_io ((if goes_to i io.workers m then m ∷ [] else []) ++ r) w)
                  (sent_to-same io.workers io1.workers same i ms))),
      all_have_workers (m ∷ ms) io.workers room,
    )
