-- ===== src/Examples/Answers.antt =====
-- A request and its answer at concrete inputs.
use Prim.Native.String.{String}
use text.Mathlib.Text.{◌==◌}
use rubo.Base.{
  ℕ, zero, suc, ◌≡◌, refl, ◌++◌, inr, map, length, List, [], ◌∷◌, Option, none, some, if◌then◌else◌,
  arith, take, drop,
}
use rubo.Base.Int.{ℤ, pos}
use rubo.Util.RingBuff.Refine.{new_ring-Holds}
use rubo.Util.LineBuffer.{clean_data, new_line}
use rubo.Util.LineBuffer.Laws.{IsDoubled, doubled-le}
use rubo.Util.SocketNode.{new_node}
use rubo.Util.SocketOp.{
  WriteRet, wrote, got, one_len, new_socket_op, read_size, asked_size, store_read,
}
use rubo.Util.SocketOp.Receive.{received, Conforms}
use rubo.Util.TcpOp.{new_tcp_op}
use rubo.Msgs.UserMsg.{Message, UserMsg, Protobuf, user_online_req, do_sth_req, do_sth_rsp}
use rubo.Msgs.MsgCenter.{new_center, gen_msg, gen_msg_by_name, find_name}
use rubo.Msgs.MsgCenter.Stream.{IsSendable, frames, received_on}
use rubo.Server.MysqlDb.{bytes}
use rubo.Server.LogicWorker.{LogicWorker, user_num}
use rubo.Server.LogicWorker.Sessions.{online_of, dosth_of}
use rubo.Server.GateIo.{fd_event}
use rubo.Server.GateWorker.{GateWorker, sock_of}
use rubo.Server.GateWorker.Messages.{to_logic}
use rubo.Server.Logic.Io.{LogicIo, Event, receive}
use rubo.Server.Logic.Io.Dispatch.{Given, AllHaveWorkers, AreCast, sent_to}
use rubo.Server.Chain.Requests.{CanWrite, AllFit, IsReady, written, requests_arrive}
use rubo.Server.Chain.Answers.{asked}
use rubo.Examples.Wire.{new_op-IsValid, new_op-size, new_wt-IsValid, line_of}
use rubo.Examples.Sessions.{worker}
use rubo.Examples.Parser.{two-odd, new_center-IsDoubled}
use rubo.Examples.Chains.{gate, from_logic, io}
use rubo.Examples.Requests.{event}

-- A protobuf for the two messages, in its encoding for small numbers and short texts: each field with a tag
-- before it, and a text with its length.
abbrev two_serialize : Message → List ℕ
two_serialize (user_online_req (pos n)) = 8 ∷ (n ∷ [])
two_serialize (do_sth_req (pos n) sth) = 8 ∷ (n ∷ (18 ∷ (length sth ∷ sth)))
two_serialize _ = []

abbrev two_parse : Message → List ℕ → Message
two_parse (user_online_req u) (t ∷ (n ∷ [])) = user_online_req (pos n)
two_parse (do_sth_req u old) (t ∷ (n ∷ (v ∷ (k ∷ sth)))) = do_sth_req (pos n) (take k sth)
two_parse m _ = m

abbrev two_types : String → Option Message
two_types name =
    if name == "UserOnlineReq"
    then some (user_online_req (pos 0))
    else (if name == "DoSthReq"
        then some (do_sth_req (pos 0) [])
        else (if name == "DoSthRsp" then some (do_sth_rsp (pos 0) []) else none))

abbrev two_proto : Protobuf
two_proto = record { find_type = two_types; serialize = two_serialize; parse_from = two_parse }

-- User 9 comes online, and asks.
abbrev asks : List UserMsg
asks = asked (pos 4) (pos 9) (bytes "hi")

online-IsSendable : IsSendable two_proto new_center.names (online_of (pos 4) (pos 9))
unfolding new_center gen_msg gen_msg_by_name find_name
online-IsSendable = record {
  id_in = omega arith;
  uid_in = omega arith;
  two = omega arith;
  small = omega arith;
  odd = two-odd;
  no_nul = (λ e. absurd (omega (arith, e)), (λ e. absurd (omega (arith, e)), tt));
  known = (
    record { uid = pos 0; sfd = pos 0; msg_id = pos 7; msg = user_online_req (pos 0) },
    refl,
    refl,
  );
}

six-odd : IsDoubled 6 → ⊥
six-odd (k, e) = omega (arith, doubled-le 256 k)

dosth-IsSendable : IsSendable two_proto new_center.names (dosth_of (pos 4) (pos 9) (bytes "hi"))
unfolding new_center gen_msg gen_msg_by_name find_name bytes
dosth-IsSendable = record {
  id_in = omega arith;
  uid_in = omega arith;
  two = omega arith;
  small = omega arith;
  odd = six-odd;
  no_nul = (
    λ e. absurd (omega (arith, e)),
    (
      λ e. absurd (omega (arith, e)),
      (
        λ e. absurd (omega (arith, e)),
        (
          λ e. absurd (omega (arith, e)),
          (λ e. absurd (omega (arith, e)), (λ e. absurd (omega (arith, e)), tt)),
        ),
      ),
    ),
  );
  known = (
    record { uid = pos 0; sfd = pos 0; msg_id = pos 9; msg = do_sth_req (pos 0) [] },
    refl,
    refl,
  );
}

-- Each frame is taken whole.
abbrev sizes : ℕ → ℤ → List WriteRet
sizes zero fd = wrote 14 ∷ []
sizes (suc k) fd = wrote 18 ∷ []

abbrev asking : GateWorker
asking = record gate { user_msgs_in = asks }

asking-CanWrite : CanWrite two_proto from_logic asking
unfolding sock_of new_tcp_op new_node
asking-CanWrite = record { there = refl; writable = refl; block = new_wt-IsValid }

-- The frames in two answers of `read`.
abbrev arriving : Event
arriving = record event {
  reads = got (take 20 (frames two_proto asks)) ∷ (got (drop 20 (frames two_proto asks)) ∷ []);
}

abbrev serving : LogicIo
serving = record io { workers = worker [] ∷ [] }

arriving-Conforms : Conforms (clean_data serving.tcp.sock.rd_buff) 0 arriving.reads
unfolding Conforms clean_data new_tcp_op new_socket_op new_line read_size asked_size store_read
    frames bytes
arriving-Conforms =
    (omega arith, omega arith, λ line e. rw (← line_of e) (omega arith, omega arith, λ l e'. tt))

serving-IsReady : IsReady arriving serving
unfolding new_tcp_op new_node user_num received frames bytes
serving-IsReady = record {
  readable = unfold fd_event in refl;
  idle = new_ring-Holds;
  bytes = new_ring-Holds;
  block = new_op-IsValid;
  small = new_op-size;
  parse_block = new_center-IsDoubled;
  conforms = arriving-Conforms;
  few = omega arith;
  room = omega arith;
}

fits : AllFit two_proto from_logic sizes asks
unfolding one_len new_node bytes
fits = (omega arith, inr (refl, omega arith), (omega arith, inr (refl, omega arith), tt))

asks-AreCast : AreCast (map (received_on two_proto (pos 5)) asks)
asks-AreCast = ((λ e. absurd (ground (arith, e))), ((λ e. absurd (ground (arith, e))), tt))

requests_arrive_example :
    (w' : GateWorker) × (io' : LogicIo) × (to_logic two_proto sizes asks asking ≡ some w')
    × (w'.wire ≡ [] ++ written two_proto from_logic asks)
    × (w'.user_msgs_in ≡ [])
    × (receive two_proto arriving serving ≡ some io')
    × Given serving.workers
        (λ i. sent_to i serving.workers (map (received_on two_proto (pos 5)) asks))
        io'.workers
    × AllHaveWorkers serving.workers (map (received_on two_proto (pos 5)) asks)
unfolding received frames new_node bytes
requests_arrive_example =
    requests_arrive two_proto sizes asking from_logic arriving serving asking-CanWrite fits
      serving-IsReady refl (online-IsSendable, (dosth-IsSendable, tt)) asks-AreCast
