-- ===== src/Server/Gate/Startup.antt =====
-- server/Gate/Gate.cpp, `init`: the database, the thread of the connections, and the handlers. The driver and
-- the kernel answer by arguments; `none` is an exception that is not caught.
use rubo.Base.{◌≡◌, ◌≢◌, refl, arith, ◌⊎◌, inl, inr, Bool, true, false, [], Option, none, some}
use rubo.Util.TcpOp.{new_tcp_op, tcp_type_server}
use rubo.Util.TcpOp.Setup.{InitAnswers}
use rubo.Msgs.UserMsg.{Text}
use rubo.Msgs.MsgCenter.{MsgCenter}
use rubo.Server.Gate.{GateState, register_handlers}
use rubo.Server.MysqlDb.Connection.{MysqlDb, ConnectAnswers, opened, base_init}
use rubo.Server.MysqlDb.Connection.Released.{IsReleased, base_init-IsReleased}
use rubo.Server.GateIo.{GateIo}
use rubo.Server.GateIo.Startup.{init_mngr}
use rubo.Server.GateIo.Startup as GateIoStartup

-- `io` is absent until GateMngr is made.
pub record GateServer (State : Type 0) : Type 0 where
  pub conn : MysqlDb
  pub gate : GateState State
  pub center : MsgCenter
  pub io : Option (GateIo State)

module _ {State : Type 0} where
  unfoldable pub new_gate_io : GateState State → MsgCenter → GateIo State
  new_gate_io gate center = record {
    gate = gate;
    center = center;
    handlers = [];
    tcp = new_tcp_op tcp_type_server;
    unlogin_users = [];
    unlogin_events = [];
    unlogin_reads = [];
    workers = [];
    wire = [];
  }

  -- After GateMngr: the handlers are registered if it succeeded.
  unfoldable pub after_mngr : GateIo State × Bool → GateServer State → GateServer State × Bool
  after_mngr (io, false) g = (record g { io = some io }, false)
  after_mngr (io, true) g =
      (record g { io = some (record io { handlers = register_handlers }) }, true)

  -- After `ServerBase::init`. `unit` does nothing.
  unfoldable pub after_base :
      InitAnswers → MysqlDb × State × Bool → GateServer State → GateServer State × Bool
  after_base a (conn, db, false) g =
      (record g { conn = conn; gate = record (g.gate) { db = db } }, false)
  after_base a (conn, db, true) g =
      let gate : GateState State = record (g.gate) { db = db } in
      after_mngr (init_mngr a (new_gate_io gate g.center)) (record g { conn = conn; gate = gate })

  -- With the result of `init` of the message center.
  unfoldable pub init :
      (State → Text → State × Bool)
      → ConnectAnswers
      → Bool
      → Option Text
      → InitAnswers
      → GateServer State
      → Option (GateServer State × Bool)
  init execute db_answers center_ok file a g =
      elim (base_init execute db_answers center_ok g.gate.db file g.conn) [
        | none ↦ none
        | some r ↦ some (after_base a r g)
      ]

  -- What `init` leaves: all is there after a success; after a failure, the connection to the database is open
  -- only if GateMngr was made and failed, and no handler is there.
  abbrev pub HasStarted : Option (GateServer State × Bool) → Type 0
  HasStarted none = Unit
  HasStarted (some (g, true)) =
      (g.conn.conn ≡ opened)
      × ((io : GateIo State) × (g.io ≡ some io) × (io.handlers ≡ register_handlers))
  HasStarted (some (g, false)) =
      ((g.conn.conn ≢ opened) × (g.io ≡ none))
      ⊎ ((g.conn.conn ≡ opened) × ((io : GateIo State) × (g.io ≡ some io) × (io.handlers ≡ [])))

  after_mngr-HasStarted :
      (r : GateIo State × Bool) (g : GateServer State)
      → g.conn.conn ≡ opened
      → r.0.handlers ≡ []
      → HasStarted (some (after_mngr r g))
  unfolding after_mngr
  after_mngr-HasStarted (io, false) g e n = inr (e, (io, refl, n))
  after_mngr-HasStarted (io, true) g e n =
      (e, (record io { handlers = register_handlers }, refl, refl))

  init_mngr-handlers :
      (a : InitAnswers) (io : GateIo State) → (init_mngr a io).0.handlers ≡ io.handlers
  unfolding init_mngr GateIoStartup.init GateIoStartup.unit
  init_mngr-handlers a io = ground arith

  after_base-HasStarted :
      (a : InitAnswers) (r : MysqlDb × State × Bool) (g : GateServer State)
      → g.io ≡ none
      → IsReleased (some r)
      → HasStarted (some (after_base a r g))
  unfolding after_base new_gate_io
  after_base-HasStarted a (conn, db, false) g none_yet released = inl (released, none_yet)
  after_base-HasStarted a (conn, db, true) g none_yet released =
      let gate : GateState State = record (g.gate) { db = db } in
      after_mngr-HasStarted (init_mngr a (new_gate_io gate g.center))
        (record g { conn = conn; gate = gate }) released
        (init_mngr-handlers a (new_gate_io gate g.center))

  step-HasStarted :
      (a : InitAnswers) (o : Option (MysqlDb × State × Bool)) (g : GateServer State)
      → g.io ≡ none
      → IsReleased o
      → HasStarted (elim o [ none ↦ none | some r ↦ some (after_base a r g) ])
  step-HasStarted a none g none_yet released = tt
  step-HasStarted a (some r) g none_yet released = after_base-HasStarted a r g none_yet released

  -- If the connection to the database is not open and there is no GateMngr before, `Gate::init`
  -- leaves, whatever the driver and the kernel answer, of an uncaught exception aside: after a
  -- success the connection open and a GateMngr with the handlers registered; after a failure either
  -- no GateMngr and no open connection, or an open connection and a GateMngr that failed, with no
  -- handler registered.
  pub init-HasStarted :
      (execute : State → Text → State × Bool) (db_answers : ConnectAnswers) (center_ok : Bool)
      (file : Option Text) (a : InitAnswers) (g : GateServer State)
      → g.conn.conn ≢ opened
      → g.io ≡ none
      → HasStarted (init execute db_answers center_ok file a g)
  unfolding init
  init-HasStarted execute db_answers center_ok file a g closed_yet none_yet =
      step-HasStarted a (base_init execute db_answers center_ok g.gate.db file g.conn) g none_yet
        (base_init-IsReleased execute db_answers center_ok g.gate.db file g.conn closed_yet)
