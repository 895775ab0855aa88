-- ===== src/Server/GateWorker/Routing.antt =====
-- Where the messages go.
use mathlib.Core.Path.{subst}
use rubo.Base.{
  ℕ, ◌≡◌, refl, sym, ap, ◌∙◌, inl, inr, true, false, List, [], ◌∷◌, ◌++◌, Option, none, some,
  Bool-cases, Option-cases, if◌then◌else◌, append_assoc, append-nil, ◌==◌,
}
use rubo.Base.Int.{ℤ, ◌==ℤ◌, ==ℤ→eq}
use rubo.Util.IdMap.{lookup}
use rubo.Util.SocketNode.{SocketNode, client_user}
use rubo.Util.SocketOp.{WriteRet, write_msg}
use rubo.Util.User.{UserPtr}
use rubo.Util.UserManager.{get_user_by_uid}
use rubo.Util.UserManager.Keys.{IsValid}
use rubo.Msgs.UserMsg.{UserMsg, Protobuf}
use rubo.Server.GateWorker.{GateWorker, sock_of, set_node}
use rubo.Server.GateWorker.Messages.{sort_msg, sort_msgs, write_to, deliver_to, deliver}

-- The messages whose header names the user.
abbrev pub with_uid : ℤ → List UserMsg → List UserMsg
with_uid uid [] = []
with_uid uid (m ∷ ms) = let rest = with_uid uid ms in if uid ==ℤ m.uid then m ∷ rest else rest

abbrev pub AllFrom : ℤ → List UserMsg → Type 0
AllFrom uid [] = Unit
AllFrom uid (m ∷ ms) = (m.uid ≡ uid) × AllFrom uid ms

with_uid-AllFrom : (uid : ℤ) (ms : List UserMsg) → AllFrom uid (with_uid uid ms)
with_uid-AllFrom uid [] = tt
with_uid-AllFrom uid (m ∷ ms) = elim (Bool-cases (uid ==ℤ m.uid)) [
  | inl e ↦ rw e (sym (==ℤ→eq uid m.uid e), with_uid-AllFrom uid ms)
  | inr e ↦ rw e (with_uid-AllFrom uid ms)
]

sort_msg-mine :
    (uid : ℤ) (m : UserMsg) (w : GateWorker)
    → (uid ==ℤ m.uid) ≡ true
    → sort_msg client_user uid m w ≡ record w { user_msgs_in = w.user_msgs_in ++ (m ∷ []) }
unfolding sort_msg
sort_msg-mine uid m w e = rw (e, sort_msg) refl

sort_msg-other :
    (uid : ℤ) (m : UserMsg) (w : GateWorker)
    → (uid ==ℤ m.uid) ≡ false
    → sort_msg client_user uid m w ≡ w
unfolding sort_msg
sort_msg-other uid m w e = rw (e, sort_msg) refl

sort_msgs-with_uid :
    (uid : ℤ) (ms : List UserMsg) (w : GateWorker)
    → sort_msgs client_user uid ms w ≡ record w { user_msgs_in = w.user_msgs_in ++ with_uid uid ms }
unfolding sort_msgs
sort_msgs-with_uid uid [] w =
    ap (λ l. record w { user_msgs_in = l }) (sym (append-nil w.user_msgs_in))
sort_msgs-with_uid uid (m ∷ ms) w = elim (Bool-cases (uid ==ℤ m.uid)) [
  | inl e ↦
      rw (sort_msg-mine uid m w e, e)
        (sort_msgs-with_uid uid ms (record w { user_msgs_in = w.user_msgs_in ++ (m ∷ []) })
          ∙ ap (λ l. record w { user_msgs_in = l })
              (append_assoc w.user_msgs_in (m ∷ []) (with_uid uid ms)))
  | inr e ↦ rw (sort_msg-other uid m w e, e) (sort_msgs-with_uid uid ms w)
]

-- Of the messages that were parsed from the connection of a user, exactly those whose header names
-- this user are passed on to the logic server, in order.
pub sort_msgs-own_uid :
    (uid : ℤ) (ms : List UserMsg) (w : GateWorker)
    → (sort_msgs client_user uid ms w
        ≡ record w { user_msgs_in = w.user_msgs_in ++ with_uid uid ms })
      × AllFrom uid (with_uid uid ms)
sort_msgs-own_uid uid ms w = (sort_msgs-with_uid uid ms w, with_uid-AllFrom uid ms)

-- What a delivery does: nothing, or a write to the connection of the user that the message names.
pub data Delivered (msg : UserMsg) (w w' : GateWorker) : Type 0 where
  skipped : w' ≡ w → Delivered msg w w'
  sent_to :
      (user : UserPtr) (sock : SocketNode) (bytes : List ℕ)
      → (w.heap.at user).uid ≡ msg.uid
      → sock_of user w ≡ some sock
      → w'.wire ≡ w.wire ++ ((sock.sfd, bytes) ∷ [])
      → Delivered msg w w'

abbrev MayDeliver : UserMsg → GateWorker → Option GateWorker → Type 0
MayDeliver msg w none = Unit
MayDeliver msg w (some w') = Delivered msg w w'

some_injective : {a b : ℤ} → some a ≡ some b → a ≡ b
some_injective {a} e = ap (λ o. elim o [ none ↦ a | some x ↦ x ]) e

module _ (proto : Protobuf) (writes : ℤ → List WriteRet) (msg : UserMsg) (w : GateWorker)
    (v : IsValid w.heap w.users) where
  write_to-MayDeliver :
      (user : UserPtr) (sock : SocketNode)
      → (w.heap.at user).uid ≡ msg.uid
      → sock_of user w ≡ some sock
      → MayDeliver msg w (write_to proto writes user sock msg w)
  unfolding write_to set_node
  write_to-MayDeliver user sock u s =
      elim (Option-cases (write_msg proto (writes sock.sfd) w.tcp.sock sock msg)) [
        | inl e ↦ rw (write_to, e) tt
        | inr ((op, sent), e) ↦ rw (write_to, e) (sent_to user sock sent.wire u s refl)
      ]

  deliver_to-MayDeliver :
      (user : UserPtr)
      → (w.heap.at user).uid ≡ msg.uid
      → MayDeliver msg w (deliver_to proto writes user msg w)
  unfolding deliver_to
  deliver_to-MayDeliver user u = elim (Bool-cases (user == 0)) [
    | inl z ↦ rw (deliver_to, z) (skipped refl)
    | inr nz ↦ elim (Option-cases (sock_of user w)) [
      | inl s ↦ rw (deliver_to, nz, s) (skipped refl)
      | inr (sock, s) ↦ rw (deliver_to, nz, s) (write_to-MayDeliver user sock u s)
    ]
  ]

  deliver-MayDeliver : MayDeliver msg w (deliver proto writes msg w)
  unfolding get_user_by_uid deliver deliver_to
  deliver-MayDeliver = elim (Option-cases (lookup msg.uid w.users.uid_users)) [
    | inl e ↦ rw (deliver, get_user_by_uid, e) (skipped refl)
    | inr (user, e) ↦
        let found : get_user_by_uid msg.uid w.users ≡ user =
          ap (λ o. elim o [ none ↦ 0 | some p ↦ p ]) e in
        subst (λ p. MayDeliver msg w (deliver_to proto writes p msg w)) (sym found)
          (deliver_to-MayDeliver user (some_injective (v.uids msg.uid user e).1))
  ]

  -- If every user of a worker is entered under its own number, a message of the logic server is
  -- written to no connection, or to that of a user whose number it names.
  pub deliver-Delivered :
      (w' : GateWorker) → deliver proto writes msg w ≡ some w' → Delivered msg w w'
  deliver-Delivered w' e = subst (MayDeliver msg w) e deliver-MayDeliver
