-- ===== src/Acptest/System.antt =====
-- A driver with any number of callers and its read loop, interleaved by a schedule. The server is
-- whatever writes the lines.
use go_acp_server.Base.{
  ℕ, zero, suc, String, ◌&&◌, List, [], ◌∷◌, Option, none, some, if◌then◌else◌, ◌==◌, nat_eq,
}
use go_acp_server.Acptest.Calls.{Act, ret, step, write, wait, Stopped, Done, do_request, read_line}
use go_acp_server.Acptest.Driver.{
  ClientReply, Env, Chan, Driver, new_driver, queue_client_reply, set_current_session, mark_closed,
}
use go_acp_server.Acptest.Payload.{Message}
use go_acp_server.Json.{Json}

-- What is on a channel.
unfoldable pub received_on : Chan → List (Chan × Message) → Option Message
received_on ch [] = none
received_on ch ((at, msg) ∷ rest) =
    if at.key == ch.key && nat_eq at.start_seq ch.start_seq then some msg else received_on ch rest

-- What the world answers to one action: the error of a write, and which case of a `select` is taken.
pub record Answer : Type 0 where
  pub fault : Option String
  pub stopped : Option Stopped

-- The `select` of `Do`; with neither case it waits.
unfoldable pub select :
    {A : Type 0} → Option Stopped → Chan → (Message → Act A) → (Stopped → Act A) → Driver → Act A
select (some r) ch k x d = x r
select none ch k x d = elim (received_on ch d.channels) [ none ↦ wait ch k x | some msg ↦ k msg ]

unfoldable pub advance : {A : Type 0} → Answer → Driver → Act A → Driver × Act A
unfolding select received_on
advance a d (ret x) = (d, ret x)
advance a d (step f k) = (f d, k d)
advance a d (write v k) = (d, k a.fault)
advance a d (wait ch k x) = (d, select a.stopped ch k x d)

pub record System : Type 0 where
  pub driver : Driver
  pub reader : Act (Unit {0})
  pub callers : List (Act Done)

pub data Event : Type 0 where
  -- A test calls `Do`.
  calls : String → Json → Event
  -- The read loop has a line.
  line : String → Event
  reads : Answer → Event
  runs : ℕ → Answer → Event
  queues : String → ClientReply → Event
  selects : String → Event
  closes : Event

-- The next line is taken when the loop is done with the one before.
unfoldable pub next_line : Env → String → System → Act (Unit {0}) → System
next_line env text sys (ret x) = record sys { reader = read_line env text }
next_line env text sys _ = sys

unfoldable pub run_caller : Answer → Driver → ℕ → List (Act Done) → Driver × List (Act Done)
run_caller a d n [] = (d, [])
run_caller a d zero (p ∷ ps) = let (d', p') = advance a d p in (d', p' ∷ ps)
run_caller a d (suc n) (p ∷ ps) = let (d', ps') = run_caller a d n ps in (d', p ∷ ps')

unfoldable pub happen : Env → System → Event → System
happen env sys (calls method params) = record sys {
  callers = do_request env method params ∷ sys.callers;
}
happen env sys (line text) = next_line env text sys sys.reader
happen env sys (reads a) =
    let (driver, reader) = advance a sys.driver sys.reader in
    record sys { driver = driver; reader = reader }
happen env sys (runs n a) =
    let (driver, callers) = run_caller a sys.driver n sys.callers in
    record sys { driver = driver; callers = callers }
happen env sys (queues method reply) = record sys {
  driver = queue_client_reply method reply sys.driver;
}
happen env sys (selects session_id) = record sys {
  driver = set_current_session session_id sys.driver;
}
happen env sys closes = record sys { driver = mark_closed sys.driver }

unfoldable pub run : Env → System → List Event → System
run env sys [] = sys
run env sys (e ∷ es) = run env (happen env sys e) es

abbrev pub start : System
start = record { driver = new_driver; reader = ret tt; callers = [] }
