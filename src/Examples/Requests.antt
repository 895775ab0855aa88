-- ===== src/Examples/Requests.antt =====
-- An event of the connection between the servers.
use rubo.Base.{true, false, []}
use rubo.Base.Int.{pos}
use rubo.Server.Logic.Io.{Event}
use rubo.Examples.Chains.{reads}

abbrev pub event : Event
event = record {
  polled = record {
    fd = pos 5;
    epollin = true;
    epollpri = false;
    epollout = false;
    epollerr = false;
    epollhup = false;
  };
  reads = reads (pos 5);
  writes = [];
}
