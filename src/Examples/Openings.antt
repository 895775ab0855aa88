-- ===== src/Examples/Openings.antt =====
-- The opening of sockets at concrete inputs.
use rubo.Base.{◌+◌, ◌≡◌, refl, inr, true, false, [], ◌∷◌, if◌then◌else◌}
use rubo.Base.Int.{pos, negsuc}
use rubo.Util.TcpOp.{TcpOp, new_tcp_op, set_addr, tcp_type_client, tcp_type_server}
use rubo.Util.TcpOp.Setup.{InitAnswers, init}
use rubo.Util.TcpOp.Descriptors.{held, times_opened, times_closed}
use rubo.Util.TcpOp.Opening.{init-descriptors}

-- The set of epoll is 4; the first attempt is refused on descriptor 5, the second connects on 6; no socket
-- can be made for a server.
abbrev pub kernel_answers : InitAnswers
kernel_answers = record {
  created = pos 4;
  listens = record {
    socket = negsuc 0;
    flags = pos 2;
    set_flags = pos 0;
    bind = pos 0;
    listen = pos 0;
  };
  attempts =
      record { rv = pos 0; addresses = record { socket = pos 5; connect = negsuc 0 } ∷ [] }
      ∷ (record { rv = pos 0; addresses = record { socket = pos 6; connect = pos 0 } ∷ [] } ∷ []);
  flags = pos 2;
  set_flags = pos 0;
  nodelay = pos 0;
  added_ok = λ fd. elim fd [ pos _ ↦ true | negsuc _ ↦ false ];
}

abbrev client : TcpOp
client = set_addr (49 ∷ []) (pos 8881) (new_tcp_op tcp_type_client)

abbrev server : TcpOp
server = set_addr (49 ∷ []) (pos 8881) (new_tcp_op tcp_type_server)

init-descriptors_example :
    times_opened (pos 5) (init kernel_answers client).0.calls + times_closed (pos 5) client.calls
    ≡ times_closed (pos 5) (init kernel_answers client).0.calls
      + times_opened (pos 5) client.calls
      + (if (init kernel_answers client).1
          then held (pos 5) (init kernel_answers client).0.sock_fd
            + held (pos 5) (init kernel_answers client).0.epoll_fd
          else 0)
unfolding set_addr new_tcp_op
init-descriptors_example =
    init-descriptors (pos 5) kernel_answers client refl (inr refl)
      ((inr refl, tt), ((inr refl, tt), tt)) refl
