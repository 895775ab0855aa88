-- ===== src/Util/UserManager/Keys.antt =====
-- The keys of both maps of the manager, over any calls.
use rubo.Base.{
  if_true, if_false, inl, inr, ◌≡◌, refl, sym, ap, ◌∙◌, true, ◌∷◌, Option, none, some, Bool-cases,
  Option-cases,
}
use mathlib.Core.Path.{subst}
use rubo.Base.Int.{ℤ, ◌==ℤ◌, ==ℤ→eq, is_positive}
use rubo.Util.IdMap.{IdMap, lookup, erase, add_new, lookup-erase, lookup-erase_other, add_new_taken}
use rubo.Util.SocketNode.{SocketNode}
use rubo.Util.User.{UserPtr, Users}
use rubo.Util.UserManager.{
  UserManager, new_manager, add_user, add_conn, del_conn, forget_sock, del_user,
}

-- A map whose entries are under the keys that the entered values have, all of them positive.
abbrev pub Keyed : (UserPtr → Option ℤ) → IdMap UserPtr → Type 0
Keyed key m =
    (k : ℤ) (p : UserPtr) → lookup k m ≡ some p → (is_positive k ≡ true) × (key p ≡ some k)

some_injective : {p q : UserPtr} → some p ≡ some q → p ≡ q
some_injective {p} {q} e = ap (λ o. elim o [ none ↦ p | some a ↦ a ]) e

module _ (key : UserPtr → Option ℤ) where
  Keyed-cons :
      (k : ℤ) (p : UserPtr) (m : IdMap UserPtr)
      → is_positive k ≡ true
      → key p ≡ some k
      → Keyed key m
      → Keyed key ((k, p) ∷ m)
  unfolding lookup
  Keyed-cons k p m positive e h j q found = elim (Bool-cases (k ==ℤ j)) [
    | inl t ↦
        let same : k ≡ j = ==ℤ→eq k j t in
        let r : p ≡ q = some_injective (sym (if_true (k ==ℤ j) (some p) (lookup j m) t) ∙ found) in
        (sym (ap is_positive same) ∙ positive, ap key (sym r) ∙ e ∙ ap some same)
    | inr t ↦ h j q (sym (if_false (k ==ℤ j) (some p) (lookup j m) t) ∙ found)
  ]

  Keyed-add_new :
      (k : ℤ) (p : UserPtr) (m : IdMap UserPtr)
      → key p ≡ some k
      → Keyed key m
      → Keyed key (add_new k p m)
  unfolding add_new lookup
  Keyed-add_new k p m e h = elim (Option-cases (lookup k m)) [
    | inr (q, taken) ↦ rw (add_new_taken k p q m taken) h
    | inl free ↦ elim (Bool-cases (is_positive k)) [
      | inl positive ↦ rw (add_new, free, positive) (Keyed-cons k p m positive e h)
      | inr other ↦ rw (add_new, free, other) h
    ]
  ]

  Keyed-erase : (k : ℤ) (m : IdMap UserPtr) → Keyed key m → Keyed key (erase k m)
  Keyed-erase k m h j q found = elim (Bool-cases (k ==ℤ j)) [
    | inl t ↦ let no : none ≡ some q = sym (gone j (==ℤ→eq k j t)) ∙ found in absurd (cc no)
    | inr t ↦ h j q (sym (lookup-erase_other k j m t) ∙ found)
  ]
    where
      gone : (j : ℤ) → k ≡ j → lookup j (erase k m) ≡ none
      gone j e = ap (λ i. lookup i (erase k m)) (sym e) ∙ lookup-erase k m

-- The descriptor of a user that has a connection.
abbrev pub sfd_of : Users → UserPtr → Option ℤ
sfd_of h p = elim (h.at p).sock [ none ↦ none | some sock ↦ some sock.sfd ]

pub record IsValid (h : Users) (m : UserManager) : Type 0 where
  pub uids : Keyed (λ p. some (h.at p).uid) m.uid_users
  pub socks : Keyed (sfd_of h) m.sock_users

-- What others do to the users in between: those that are entered keep the number and the descriptor.
pub record Keeps (h h' : Users) (m : UserManager) : Type 0 where
  pub uid_kept :
      (k : ℤ) (p : UserPtr) → lookup k m.uid_users ≡ some p → (h'.at p).uid ≡ (h.at p).uid
  pub sfd_kept : (k : ℤ) (p : UserPtr) → lookup k m.sock_users ≡ some p → sfd_of h' p ≡ sfd_of h p

-- The calls of a client of the manager, and changes of the users. `add_conn` has no result for a user without
-- a connection.
pub data Step : Users → UserManager → Users → UserManager → Type 0 where
  adds_user : (h : Users) (user : UserPtr) (m : UserManager) → Step h m h (add_user h user m).0
  adds_conn :
      (h : Users) (user : UserPtr) (m m' : UserManager)
      → add_conn h user m ≡ some (m', true)
      → Step h m h m'
  dels_conn : (h : Users) (sfd : ℤ) (m : UserManager) → Step h m h (del_conn h sfd m)
  dels_user : (h : Users) (uid : ℤ) (m : UserManager) → Step h m h (del_user h uid m).0
  changes : (h h' : Users) (m : UserManager) → Keeps h h' m → Step h m h' m

pub data Reachable : Users → UserManager → Type 0 where
  start : (h : Users) → Reachable h new_manager
  step : {h h' : Users} {m m' : UserManager} → Reachable h m → Step h m h' m' → Reachable h' m'

uids_entered :
    (h : Users) (user : UserPtr) (m : UserManager)
    → IsValid h m
    → Keyed (λ p. some (h.at p).uid) (add_new (h.at user).uid user m.uid_users)
uids_entered h user m v =
    Keyed-add_new (λ p. some (h.at p).uid) (h.at user).uid user m.uid_users refl v.uids

socks_entered :
    (h : Users) (user : UserPtr) (m : UserManager)
    → IsValid h m
    → (sock : SocketNode) → (h.at user).sock ≡ some sock
    → Keyed (sfd_of h) (add_new sock.sfd user m.sock_users)
socks_entered h user m v sock e =
    Keyed-add_new (sfd_of h) sock.sfd user m.sock_users
      (ap (λ o. elim o [ none ↦ none | some sock ↦ some sock.sfd ]) e) v.socks

add_user-IsValid :
    (h : Users) (user : UserPtr) (m : UserManager) → IsValid h m → IsValid h (add_user h user m).0
unfolding add_user
add_user-IsValid h user m v = elim (Option-cases (h.at user).sock) [
  | inl e ↦ rw (add_user, e) (record { uids = uids_entered h user m v; socks = v.socks })
  | inr (sock, e) ↦
      rw (add_user, e)
        (record { uids = uids_entered h user m v; socks = socks_entered h user m v sock e })
]

-- `add_conn` for a user with a connection.
unfoldable pub conn_entered : Users → UserPtr → SocketNode → UserManager → UserManager
conn_entered h user sock m = record {
  sock_users = add_new sock.sfd user m.sock_users;
  uid_users = add_new (h.at user).uid user m.uid_users;
}

pub add_conn-some :
    (h : Users) (user : UserPtr) (m : UserManager) (sock : SocketNode)
    → (h.at user).sock ≡ some sock
    → add_conn h user m ≡ some (conn_entered h user sock m, true)
unfolding add_conn conn_entered
add_conn-some h user m sock e = rw (add_conn, e) refl

add_conn-none :
    (h : Users) (user : UserPtr) (m : UserManager)
    → (h.at user).sock ≡ none
    → add_conn h user m ≡ none
unfolding add_conn
add_conn-none h user m e = rw (add_conn, e) refl

add_conn-IsValid :
    (h : Users) (user : UserPtr) (m m' : UserManager)
    → add_conn h user m ≡ some (m', true)
    → IsValid h m
    → IsValid h m'
unfolding conn_entered
add_conn-IsValid h user m m' e v = elim (Option-cases (h.at user).sock) [
  | inl n ↦ let no : none ≡ some (m', true) = sym (add_conn-none h user m n) ∙ e in absurd (cc no)
  | inr (sock, s) ↦
      let q : conn_entered h user sock m ≡ m' =
        ap (λ o. elim o [ none ↦ m | some r ↦ r.0 ]) (sym (add_conn-some h user m sock s) ∙ e) in
      subst (IsValid h) q
        (record { uids = uids_entered h user m v; socks = socks_entered h user m v sock s })
]

del_conn-IsValid :
    (h : Users) (sfd : ℤ) (m : UserManager) → IsValid h m → IsValid h (del_conn h sfd m)
unfolding del_conn
del_conn-IsValid h sfd m v = elim (Option-cases (lookup sfd m.sock_users)) [
  | inl e ↦ rw (del_conn, e) v
  | inr (user, e) ↦
      rw (del_conn, e)
        (record {
          socks = Keyed-erase (sfd_of h) sfd m.sock_users v.socks;
          uids = elim (Option-cases (lookup (h.at user).uid m.uid_users)) [
            | inl e' ↦ rw e' v.uids
            | inr (_, e') ↦
                rw e' (Keyed-erase (λ p. some (h.at p).uid) (h.at user).uid m.uid_users v.uids)
          ];
        })
]

forget_sock-Keyed :
    (key : UserPtr → Option ℤ) (sock : Option SocketNode) (socks : IdMap UserPtr)
    → Keyed key socks
    → Keyed key (forget_sock sock socks)
unfolding forget_sock
forget_sock-Keyed key none socks h = h
forget_sock-Keyed key (some sock) socks h = elim (Option-cases (lookup sock.sfd socks)) [
  | inl e ↦ rw (forget_sock, e) h
  | inr (_, e) ↦ rw (forget_sock, e) (Keyed-erase key sock.sfd socks h)
]

del_user-IsValid :
    (h : Users) (uid : ℤ) (m : UserManager) → IsValid h m → IsValid h (del_user h uid m).0
unfolding del_user
del_user-IsValid h uid m v = elim (Option-cases (lookup uid m.uid_users)) [
  | inl e ↦ rw (del_user, e) v
  | inr (user, e) ↦
      rw (del_user, e)
        (record {
          uids = Keyed-erase (λ p. some (h.at p).uid) uid m.uid_users v.uids;
          socks = forget_sock-Keyed (sfd_of h) (h.at user).sock m.sock_users v.socks;
        })
]

new_manager-IsValid : (h : Users) → IsValid h new_manager
unfolding new_manager lookup
new_manager-IsValid h = record { uids = λ k p e. absurd (cc e); socks = λ k p e. absurd (cc e) }

changes-IsValid : (h h' : Users) (m : UserManager) → Keeps h h' m → IsValid h m → IsValid h' m
changes-IsValid h h' m keeps v = record {
  uids = λ k p e.
      let (positive, same) = v.uids k p e in (positive, ap some (keeps.uid_kept k p e) ∙ same);
  socks = λ k p e. let (positive, same) = v.socks k p e in (positive, keeps.sfd_kept k p e ∙ same);
}

-- After any sequence of calls on a new manager, and of changes of the users in between that leave
-- the numbers and the descriptors of those that are entered, the user under a number has this
-- number, the user under a descriptor has a connection with this descriptor, and numbers and
-- descriptors are positive.
pub Reachable-IsValid : (h : Users) (m : UserManager) → Reachable h m → IsValid h m
Reachable-IsValid _ _ (start h) = new_manager-IsValid h
Reachable-IsValid _ _ (step r (adds_user h user m0)) =
    add_user-IsValid h user m0 (Reachable-IsValid h m0 r)
Reachable-IsValid _ _ (step r (adds_conn h user m0 m' e)) =
    add_conn-IsValid h user m0 m' e (Reachable-IsValid h m0 r)
Reachable-IsValid _ _ (step r (dels_conn h sfd m0)) =
    del_conn-IsValid h sfd m0 (Reachable-IsValid h m0 r)
Reachable-IsValid _ _ (step r (dels_user h uid m0)) =
    del_user-IsValid h uid m0 (Reachable-IsValid h m0 r)
Reachable-IsValid _ _ (step r (changes h0 h m0 keeps)) =
    changes-IsValid h0 h m0 keeps (Reachable-IsValid h0 m0 r)
