-- ===== src/Server/Logic/Wakeup.antt =====
-- server/Logic/LogicWorker.cpp, `handler_msgs`, `notify_msg_in` and `just_notify`: the wait of a worker for
-- messages. It waits without a test, and wakes only by a notification (a spurious wakeup aside). The two
-- threads take turns in any order.
use rubo.Base.{ℕ, zero, suc, ◌<◌, ◌≡◌, refl, ap, ◌∙◌, true, List, [], ◌∷◌, ◌++◌, Option, none, some}
use rubo.Base.Fault.{◌>>=◌}
use rubo.Base.Int.{ℤ, pos, is_positive}
use rubo.Util.IdMap.{lookup}
use rubo.Util.MutexList.{add_more}
use rubo.Msgs.UserMsg.{Text, UserMsg, Protobuf, do_sth_rsp, user_dosth_rsp}
use rubo.Msgs.MsgCenter.{gen_msg}
use rubo.Server.MysqlDb.{bytes}
use rubo.Server.LogicWorker.{
  LogicWorker, register_handlers, handle_all, handler_msgs, handler_reply, notify_msg_in,
}
use rubo.Server.LogicWorker.Sessions.{online_of, dosth_of, online-dosth}

-- Where the thread is: on its way to the wait, in it, or woken and on its way to the messages.
pub data WorkerPlace : Type 0 where
  on_its_way waiting woken : WorkerPlace

-- With the queue of replies.
pub record WorkerThread : Type 0 where
  pub worker : LogicWorker
  pub place : WorkerPlace
  pub out_msgs : List UserMsg

-- `notify_all`: only a thread that waits is woken.
unfoldable pub wake : WorkerPlace → WorkerPlace
wake on_its_way = on_its_way
wake waiting = woken
wake woken = woken

unfoldable pub just_notify : WorkerThread → WorkerThread
just_notify s = record s { place = wake s.place }

-- `notify_msg_in`, with the notification at its end.
unfoldable pub notify_worker : WorkerThread → WorkerThread
notify_worker s = just_notify (record s { worker = notify_msg_in s.worker })

-- A turn of the thread: to the wait, or from the wait through `handler_msgs` and `handler_reply`.
unfoldable pub worker_turn : Protobuf → WorkerThread → Option WorkerThread
worker_turn proto s = elim s.place [
  | on_its_way ↦ some (record s { place = waiting })
  | waiting ↦ some s
  | woken ↦ elim (handler_msgs proto s.worker) [
    | none ↦ none
    | some w ↦
        let (out_msgs, w') = handler_reply s.out_msgs w in
        some (record { worker = w'; place = on_its_way; out_msgs = out_msgs })
  ]
]

unfoldable pub worker_turns : ℕ → Protobuf → WorkerThread → Option WorkerThread
worker_turns zero proto s = some s
worker_turns (suc n) proto s = worker_turn proto s >>= worker_turns n proto

waits_on :
    (n : ℕ) (proto : Protobuf) (w : LogicWorker) (out : List UserMsg)
    → let s : WorkerThread = record { worker = w; place = waiting; out_msgs = out } in
      worker_turns n proto s ≡ some s
unfolding worker_turns worker_turn
waits_on zero proto w out = refl
waits_on (suc n) proto w out = waits_on n proto w out

-- A notification is lost if the worker is on its way to the wait: after any number of its turns it
-- waits, with all the messages in its list and nothing handled.
pub lost_wakeup :
    (n : ℕ) (proto : Protobuf) (w : LogicWorker) (out : List UserMsg)
    → (s : WorkerThread) × (worker_turns
          (suc n)
          proto
          (notify_worker (record { worker = w; place = on_its_way; out_msgs = out }))
        ≡ some s)
      × (s.place ≡ waiting)
      × (s.worker.msgs_in ≡ w.msgs_in ++ w.io_msgs)
      × (s.worker.io_msgs ≡ [])
      × (s.out_msgs ≡ out)
unfolding worker_turns worker_turn notify_worker just_notify wake notify_msg_in
lost_wakeup n proto w out = (
  record { worker = notify_msg_in w; place = waiting; out_msgs = out },
  waits_on n proto (notify_msg_in w) out,
  refl,
  refl,
  refl,
  refl,
)

module _ (proto : Protobuf) (uid : ℤ) (w : LogicWorker) (out : List UserMsg) where
  turn-handled :
      (w' : LogicWorker)
      → handler_msgs proto (notify_msg_in w) ≡ some w'
      → worker_turn proto (notify_worker (record { worker = w; place = waiting; out_msgs = out }))
        ≡ some (record {
          worker = record w' { out_msgs = [] };
          place = on_its_way;
          out_msgs = out ++ w'.out_msgs;
        })
  unfolding worker_turn notify_worker just_notify wake handler_reply add_more
  turn-handled w' e = rw (worker_turn, e)

  -- If a worker waits and is notified when its messages are that a user comes online and then a
  -- request of this user, one turn of its thread puts the answer behind the replies for the IO
  -- thread, with the registered handlers, a positive number that is not entered, and a reply type
  -- that protobuf knows; the thread is then on its way to the next wait.
  pub woken-answers :
      (m : UserMsg) (sfd r : ℤ) (t sth : Text)
      → w.msgs_in ++ w.io_msgs ≡ online_of sfd uid ∷ (dosth_of sfd uid sth ∷ [])
      → w.handlers ≡ register_handlers
      → is_positive uid ≡ true
      → lookup uid w.users.uid_users ≡ none
      → 0 < w.heap.next
      → gen_msg proto w.names user_dosth_rsp ≡ some (record m { msg = do_sth_rsp r t })
      → (s : WorkerThread) × (worker_turn proto
            (notify_worker (record { worker = w; place = waiting; out_msgs = out }))
          ≡ some s)
        × (s.place ≡ on_its_way)
        × (s.worker.out_msgs ≡ [])
        × (s.out_msgs
            ≡ out
              ++ (w.out_msgs
                  ++ (record m {
                    uid = uid;
                    msg = do_sth_rsp (pos w.dosth_id) (bytes "DoSthRsp From " ++ (w.name ++ sth));
                  }
                      ∷ [])))
  unfolding handler_msgs notify_msg_in
  woken-answers m sfd r t sth arrived table positive free some_next known =
      let w0 = record (notify_msg_in w) { msgs_in = [] } in
      let (w2, e, replies, _, _) =
        online-dosth proto sfd uid w0 m r t sth table positive free some_next known in
      let handled : handler_msgs proto (notify_msg_in w) ≡ some w2 =
        ap (λ ms. handle_all proto ms w0) arrived ∙ e in
      (
        record {
          worker = record w2 { out_msgs = [] };
          place = on_its_way;
          out_msgs = out ++ w2.out_msgs;
        },
        turn-handled w2 handled,
        refl,
        refl,
        ap (λ l. out ++ l) replies,
      )
