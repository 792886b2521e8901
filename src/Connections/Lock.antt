-- ===== src/Connections/Lock.antt =====
-- Calls of `Endpoint.Serve` (connections/endpoint.go) that run at the same time: the mutex, and the
-- fields of the server that they share, with the writer that `Serve` of server.go puts into one of them.
use go_acp_server.Base.{
  ℕ, String, Bool, true, false, List, [], ◌∷◌, Option, if◌then◌else◌, nat_eq, ◌&&◌,
}
use go_acp_server.Config.{Config}
use go_acp_server.Connections.Endpoint.{
  new_call, max_line, serve_next, is_reading, all_idle, serving,
}
use go_acp_server.Go.Fault.{Fault}
use go_acp_server.Go.Scan.{Source, scan}
use go_acp_server.Protocol.{Message}
use go_acp_server.Serve.{System, Event}
use go_acp_server.Server.{Server, Wire, new_wire}
use go_acp_server.Server.Proc.{Proc}

-- A call inside `Serve`: its goroutines, and what is left of its input.
pub record Task : Type 0 where
  pub reader : Proc (Option Message)
  pub threads : List (Proc (Unit {0}))
  pub inputs : List String
  pub left : List String
  pub fault : Option Fault

pub data Stage : Type 0 where
  -- Not called, or waiting for the mutex.
  outside : Stage
  inside : Task → Stage
  back_with : Option Fault → Stage

-- Calls have numbers; `wires` are the outputs that they were given.
pub record Lock : Type 0 where
  pub server : Server
  pub writer : ℕ
  pub locked : Bool
  pub stages : ℕ → Stage
  pub wires : ℕ → Wire

abbrev pub update : {A : Type 0} → ℕ → A → (ℕ → A) → ℕ → A
update i a f j = if nat_eq i j then a else f j

-- The goroutines of a call use the server's fields, the writer included.
abbrev pub system_of : Lock → Task → System
system_of l t = record {
  shared = record { server = l.server; wire = l.wires l.writer };
  reader = t.reader;
  threads = t.threads;
  inputs = t.inputs;
}

abbrev pub task_of : System → List String → Option Fault → Task
task_of sys left fault = record {
  reader = sys.reader;
  threads = sys.threads;
  inputs = sys.inputs;
  left = left;
  fault = fault;
}

pub data Step : Type 0 where
  -- `e.mu.Lock()` and the start of `Serve`.
  enters : ℕ → Step
  acts : ℕ → Event → Step
  -- The end of `Serve` and `e.mu.Unlock()`.
  leaves : ℕ → Step

abbrev pub enter : ℕ → Source → Lock → Lock
enter i src l = record {
  server = new_call l.server;
  writer = i;
  locked = true;
  stages =
      update i
        (inside (task_of (serving l.server) (scan max_line src).tokens (scan max_line src).fault))
        l.stages;
  wires = update i new_wire l.wires;
}

abbrev pub act_in : Config → ℕ → Event → Task → Lock → Lock
act_in c i e t l =
    let (sys, left) = serve_next c (system_of l t) e t.left in
    record {
      server = sys.shared.server;
      writer = l.writer;
      locked = l.locked;
      stages = update i (inside (task_of sys left t.fault)) l.stages;
      wires = update l.writer sys.shared.wire l.wires;
    }

abbrev pub leave : ℕ → Option Fault → Lock → Lock
leave i fault l = record {
  server = l.server;
  writer = l.writer;
  locked = false;
  stages = update i (back_with fault) l.stages;
  wires = l.wires;
}

abbrev pub no_more : List String → Bool
no_more [] = true
no_more _ = false

-- Whether `Serve` is at its end: the input is read, and `wg.Wait()` is over.
abbrev pub is_over : Task → Bool
is_over t = no_more t.left && (is_reading t.reader && all_idle t.threads)

-- A step that is not possible does nothing. Each call has its input.
unfoldable pub enter_if : Stage → Bool → ℕ → Source → Lock → Lock
enter_if outside false i src l = enter i src l
enter_if _ _ i src l = l

unfoldable pub act_if : Stage → Config → ℕ → Event → Lock → Lock
act_if (inside t) c i e l = act_in c i e t l
act_if _ c i e l = l

unfoldable pub leave_if : Stage → ℕ → Lock → Lock
leave_if (inside t) i l = if is_over t then leave i t.fault l else l
leave_if _ i l = l

unfoldable pub take_step : Config → (ℕ → Source) → Lock → Step → Lock
unfolding enter_if act_if leave_if
take_step c sources l (enters i) = enter_if (l.stages i) l.locked i (sources i) l
take_step c sources l (acts i e) = act_if (l.stages i) c i e l
take_step c sources l (leaves i) = leave_if (l.stages i) i l

unfoldable pub take_steps : Config → (ℕ → Source) → Lock → List Step → Lock
unfolding take_step
take_steps c sources l [] = l
take_steps c sources l (x ∷ xs) = take_steps c sources (take_step c sources l x) xs

abbrev pub unlocked : Server → Lock
unlocked s = record {
  server = s;
  writer = 0;
  locked = false;
  stages = λ i. outside;
  wires = λ i. new_wire;
}
