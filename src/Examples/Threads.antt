-- ===== src/Examples/Threads.antt =====
-- Threads at concrete inputs.
use rubo.Base.{
  ◌*◌, ◌+◌, ◌≤◌, length, zero, suc, ℕ, ◌≡◌, refl, true, false, none, List, [], ◌∷◌, ◌++◌, some,
  arith,
}
use rubo.Util.IThread.{
  Now, Running, at_test, returned, unit, not_started, new_thread, init_time, start, turn, starts,
}
use rubo.Util.IThread
use rubo.Util.IThread.Lifecycle.{
  units, Reachable, created, then_turn, Consistent, Reachable-Consistent,
}
use rubo.Util.IThread.Stopping.{IsJoined, IsWorking, AllJoined}
use rubo.Server.Gate.Threads.{stop, IsStopped, stop-unit_once}
use rubo.Base.Int.{pos}
use rubo.Util.EpollOp.{closes}
use rubo.Util.TcpOp.{new_tcp_op, tcp_type_server}
use rubo.Msgs.MsgCenter.{new_center}
use rubo.Util.User.{connect_null}
use rubo.Server.GateMngr.{GateMngr}
use rubo.Server.GateMngr
use rubo.Server.GateMngr.Stopping.{unit-AllJoined}
use rubo.Server.Logic.Threads
use rubo.Server.Logic.Threads.{Turns}
use rubo.Server.Logic.Stopping.{stop-AllJoined}
use rubo.Util.IThread.Timer.{
  rounds, total, changes, is_second, is_minute, is_hour, rounds-init_time,
}

abbrev at : ℕ → ℕ → Now
at min sec = record {
  cur_ms = (min * 60 + sec) * 1000;
  cur_s = min * 60 + sec;
  cur_tm = record { tm_sec = sec; tm_min = min; tm_hour = 7 };
}

-- A thread that was started.
abbrev active : Running
active = record {
  thread = record (init_time (at 1 2) (new_thread [])) { over = false };
  place = at_test;
  hooks = [];
}

active-Reachable : Reachable [] active
active-Reachable =
    let e : turn (starts (at 1 2)) (not_started []) ≡ some active =
      unfold turn start not_started new_thread in refl in
    then_turn (starts (at 1 2)) created e

Reachable-Consistent_example : Consistent active
Reachable-Consistent_example = Reachable-Consistent active-Reachable

active-IsWorking : IsWorking active
active-IsWorking = record { name = []; reach = active-Reachable; active = refl }

not_started-units : units (not_started []).hooks ≡ 0
unfolding not_started
not_started-units = refl

abbrev five : List Now
five = at 1 2 ∷ at 1 3 ∷ at 1 3 ∷ at 1 4 ∷ at 2 0 ∷ []

-- The first worker is waited for; the last ends before the first test.
abbrev turns : ℕ → Turns
turns zero = record { between = []; waited = five }
turns (suc k) = record { between = five; waited = five }

five_waited : (k : ℕ) → 5 ≤ length (turns k).waited
five_waited zero = omega arith
five_waited (suc k) = omega arith

stop-AllJoined_example :
    (r' : Running) × (ws' : List Running) × (Threads.stop five turns
        (record { io = some active; workers = active ∷ (active ∷ []) })
      ≡ some (record { io = some r'; workers = ws' }))
    × IsJoined r'
    × AllJoined (active ∷ (active ∷ [])) ws'
stop-AllJoined_example =
    stop-AllJoined five turns active (active ∷ (active ∷ [])) active-IsWorking
      (active-IsWorking, (active-IsWorking, tt)) (refl, tt) (omega arith) five_waited

-- The gate with its socket and its set of epoll, and two workers.
abbrev open_gate : GateMngr ℕ
open_gate = record {
  io_mngr = record {
    gate = record {
      db = 0;
      users = record {
        at = λ p. record { uid = pos 0; conn_status = connect_null; sock = none };
        next = 1;
      };
      rsp_msgs = [];
    };
    center = new_center;
    handlers = [];
    tcp = record (new_tcp_op tcp_type_server) { sock_fd = pos 3; epoll_fd = pos 4 };
    unlogin_users = [];
    unlogin_events = [];
    unlogin_reads = [];
    workers = [];
    wire = [];
  };
  threads = active ∷ (active ∷ []);
}

unit-AllJoined_example :
    (g' : GateMngr ℕ) × (GateMngr.unit five open_gate ≡ some g')
    × AllJoined open_gate.threads g'.threads
    × (g'.io_mngr.tcp.calls
        ≡ (open_gate.io_mngr.tcp.calls ++ (closes (pos 3) ∷ [])) ++ (closes (pos 4) ∷ []))
unit-AllJoined_example =
    unit-AllJoined five open_gate 2 3 (active-IsWorking, (active-IsWorking, tt)) (omega arith) refl
      refl

abbrev finished : Running
finished = record {
  thread = record (new_thread []) { quit = true };
  place = returned;
  hooks = unit ∷ [];
}

-- A worker that is over already ends the loop of `stop`, and the next one is never joined.
over_worker :
    Threads.stop_threads (λ k. record { between = []; waited = five }) (finished ∷ (active ∷ []))
    ≡ none
unfolding Threads.stop_threads Threads.stop_workers Threads.join_workers Threads.join_worker
    Threads.take_turns IThread.stop new_thread IThread.join
over_worker = refl

-- The same for a worker that ends between `stop` and the first test.
ends_between :
    Threads.stop_threads (λ k. record { between = five; waited = five }) (active ∷ (active ∷ []))
    ≡ none
unfolding Threads.stop_threads Threads.stop_workers Threads.join_workers Threads.join_worker
    Threads.take_turns IThread.stop IThread.thread_func IThread.test_running IThread.tover
    new_thread init_time IThread.join
ends_between = refl

-- A server that was not run.
stop-unit_once_example :
    (r' : Running) × (stop five (some (not_started [])) ≡ some (some r')) × IsStopped r'
stop-unit_once_example =
    stop-unit_once five (not_started []) created not_started-units (omega arith)

rounds-init_time_example :
    (total is_second (rounds five (init_time (at 1 2) (new_thread [])))
      ≡ changes (λ tm. tm.tm_sec) (at 1 2).cur_tm five)
    × (total is_minute (rounds five (init_time (at 1 2) (new_thread [])))
        ≡ changes (λ tm. tm.tm_min) (at 1 2).cur_tm five)
    × (total is_hour (rounds five (init_time (at 1 2) (new_thread [])))
        ≡ changes (λ tm. tm.tm_hour) (at 1 2).cur_tm five)
rounds-init_time_example = rounds-init_time (at 1 2) five (new_thread [])
