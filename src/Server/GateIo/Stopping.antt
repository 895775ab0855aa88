-- ===== src/Server/GateIo/Stopping.antt =====
-- server/Gate/GateIO.cpp, `stop`: one wait for all the workers, in which each takes a turn in every round.
use rubo.Base.{
  ℕ, suc, ◌≤◌, ◌≡◌, refl, sym, ap, ◌∙◌, Bool, true, false, ◌&&◌, List, [], ◌∷◌, Option, none, some,
  map, arith, length, Bool-cases, inl, inr,
}
use mathlib.Core.Path.{subst}
use rubo.Util.IThread.{Now, Running, thread_func, join}
use rubo.Util.IThread.Stopping.{
  turns_left, turns_left-le, IsStopping, working-IsStopping, AllWork, AllJoined, join_over,
  not_over, still-IsStopping, over-IsStopping,
}
use rubo.Server.GateIo.Startup.{ask_to_stop, stop_all, all_over, join_all, wait_all, stop_workers}

-- Workers that were asked to stop, each with at most so many turns left.
AllStop : ℕ → List Running → Type 0
AllStop n [] = Unit
AllStop n (w ∷ ws) = IsStopping w × (turns_left w.place ≤ n) × AllStop n ws

both : (a b : Bool) → (a && b) ≡ true → (a ≡ true) × (b ≡ true)
both a b e = ground arith

-- A turn brings a worker that was asked to stop nearer to its end.
turn-nearer :
    (now : Now) (w : Running) (n : ℕ)
    → IsStopping w
    → turns_left w.place ≤ suc n
    → IsStopping (thread_func now w) × (turns_left (thread_func now w).place ≤ n)
turn-nearer now w n s le = elim (Bool-cases w.thread.over) [
  | inl o ↦ let (s', none_left) = over-IsStopping now w s o in (s', omega (arith, none_left))
  | inr o ↦ let (s', fewer) = still-IsStopping now w s o in (s', omega arith)
]

turns-AllStop :
    (now : Now) (ws : List Running) (n : ℕ)
    → AllStop (suc n) ws
    → AllStop n (map (thread_func now) ws)
unfolding AllStop
turns-AllStop now [] n all = tt
turns-AllStop now (w ∷ ws) n (s, le, all) =
    let (s', le') = turn-nearer now w n s le in (s', le', turns-AllStop now ws n all)

none_left-over : (ws : List Running) → AllStop 0 ws → all_over ws ≡ true
unfolding AllStop all_over
none_left-over [] all = refl
none_left-over (w ∷ ws) (s, le, all) = elim (Bool-cases w.thread.over) [
  | inl o ↦ ap (λ b. b && all_over ws) o ∙ none_left-over ws all
  | inr o ↦ absurd (omega (arith, not_over w.thread w.hooks w.place o s))
]

-- The threads joined, if the wait ends.
Ends : List Running → Option (List Running) → Type 0
Ends ws o = (ws' : List Running) × (o ≡ some ws') × AllJoined ws ws'

join_eq :
    (w w' : Running) (ws ws' : List Running)
    → join w ≡ some w'
    → join_all ws ≡ some ws'
    → join_all (w ∷ ws) ≡ some (w' ∷ ws')
unfolding join_all
join_eq w w' ws ws' e rest = rw (join_all, e, rest)

join_all-Ends :
    (n : ℕ) (ws : List Running) → AllStop n ws → all_over ws ≡ true → Ends ws (join_all ws)
unfolding Ends AllStop all_over join_all
join_all-Ends n [] all over = ([], refl, tt)
join_all-Ends n (w ∷ ws) (s, le, all) over =
    let (o, os) = both _ _ over in
    let (w', e, joined) = join_over w.thread w.hooks w.place o s in
    let (ws', es, all_joined) = join_all-Ends n ws all os in
    (w' ∷ ws', join_eq w w' ws ws' e es, (joined, all_joined))

map-AllJoined :
    (f : Running → Running) (ws ws' : List Running) → AllJoined (map f ws) ws' → AllJoined ws ws'
map-AllJoined f [] [] all = tt
map-AllJoined f [] (w' ∷ ws') all = elim all [ ]
map-AllJoined f (w ∷ ws) [] all = elim all [ ]
map-AllJoined f (w ∷ ws) (w' ∷ ws') (joined, all) = (joined, map-AllJoined f ws ws' all)

map-Ends :
    (f : Running → Running) (ws : List Running) (o : Option (List Running))
    → Ends (map f ws) o
    → Ends ws o
unfolding Ends
map-Ends f ws o (ws', e, all) = (ws', e, map-AllJoined f ws ws' all)

over_now :
    (nows : List Now) (ws : List Running) → all_over ws ≡ true → wait_all nows ws ≡ join_all ws
unfolding wait_all
over_now [] ws over = ap (λ b. elim b [ true ↦ join_all ws | false ↦ none ]) over
over_now (now ∷ nows) ws over =
    ap (λ b. elim b [ true ↦ join_all ws | false ↦ wait_all nows (map (thread_func now) ws) ]) over

not_yet :
    (now : Now) (nows : List Now) (ws : List Running)
    → all_over ws ≡ false
    → wait_all (now ∷ nows) ws ≡ wait_all nows (map (thread_func now) ws)
unfolding wait_all
not_yet now nows ws over =
    ap (λ b. elim b [ true ↦ join_all ws | false ↦ wait_all nows (map (thread_func now) ws) ]) over

wait_all-Ends :
    (nows : List Now) (ws : List Running) → AllStop (length nows) ws → Ends ws (wait_all nows ws)
wait_all-Ends [] ws all =
    let over = none_left-over ws all in
    subst (Ends ws) (sym (over_now [] ws over)) (join_all-Ends 0 ws all over)
wait_all-Ends (now ∷ nows) ws all = elim (Bool-cases (all_over ws)) [
  | inl over ↦
      subst (Ends ws) (sym (over_now (now ∷ nows) ws over))
        (join_all-Ends (length (now ∷ nows)) ws all over)
  | inr waits ↦ subst (Ends ws) (sym (not_yet now nows ws waits)) (
      map-Ends (thread_func now) ws _
        (wait_all-Ends nows (map (thread_func now) ws) (turns-AllStop now ws (length nows) all)))
]

asked-AllStop : (n : ℕ) (ws : List Running) → AllWork ws → 5 ≤ n → AllStop n (stop_all ws)
unfolding AllStop stop_all ask_to_stop
asked-AllStop n [] all enough = tt
asked-AllStop n (w ∷ ws) (working, all) enough = (
  working-IsStopping w working,
  omega (arith, turns_left-le w.place),
  asked-AllStop n ws all enough,
)

pub stop_workers-AllJoined :
    (nows : List Now) (ws : List Running)
    → AllWork ws
    → 5 ≤ length nows
    → (ws' : List Running) × (stop_workers nows ws ≡ some ws') × AllJoined ws ws'
unfolding stop_workers stop_all Ends
stop_workers-AllJoined nows ws all enough =
    map-Ends ask_to_stop ws _
      (wait_all-Ends nows (stop_all ws) (asked-AllStop (length nows) ws all enough))
