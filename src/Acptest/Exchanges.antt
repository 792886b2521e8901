-- ===== src/Acptest/Exchanges.antt =====
-- The exchanges that `Do` of acptest/driver.go returns, under every schedule.
pub mod Covers
pub mod Sections
pub mod Goroutines
pub mod Actions
use go_acp_server.Base.{◌-◌, String, List, [], ◌∷◌, ◌≡◌, refl, All}
use go_acp_server.Acptest.Calls.{Act, ret, step, write, wait, Done}
use go_acp_server.Acptest.Driver.{
  Env, Driver, new_driver, queue_client_reply, set_current_session, mark_closed, numbered,
}
use go_acp_server.Acptest.Rely.{Sound, Grows-same, All-map}
use go_acp_server.Acptest.Exchanges.Covers.{DoneCovers}
use go_acp_server.Acptest.Exchanges.Sections.{Sound-fields}
use go_acp_server.Acptest.Exchanges.Goroutines.{GoodCall, do_request-GoodCall, read_line-GoodLoop}
use go_acp_server.Acptest.System.{
  System, Event, calls, line, reads, runs, queues, selects, closes, next_line, happen, run, start,
}
use go_acp_server.Acptest.Exchanges.Actions.{
  Invariant, GoodCall-Grows, GoodLoop-Grows, advance-Good, run_caller-Good,
}

happen-same :
    (env : Env) (sys : System) (d : Driver)
    → d.messages ≡ sys.driver.messages
    → Sound env d
    → Invariant env sys
    → Invariant env (record sys { driver = d })
happen-same env sys d e s i =
    let g = Grows-same sys.driver d e in
    record {
      sound = s;
      reads_on = GoodLoop-Grows env sys.driver d sys.reader g i.reads_on;
      calls_on = All-map _ _ sys.callers (λ q k. GoodCall-Grows env sys.driver d q g k) i.calls_on;
    }

next_line-Invariant :
    (env : Env) (text : String) (sys : System) (p : Act (Unit {0}))
    → Invariant env sys
    → Invariant env (next_line env text sys p)
unfolding next_line
next_line-Invariant env text sys (ret x) i = record {
  sound = i.sound;
  reads_on = read_line-GoodLoop env text sys.driver;
  calls_on = i.calls_on;
}
next_line-Invariant env text sys (step f k) i = i
next_line-Invariant env text sys (write v k) i = i
next_line-Invariant env text sys (wait ch k x) i = i

happen-Invariant :
    (env : Env) (sys : System) (e : Event) → Invariant env sys → Invariant env (happen env sys e)
unfolding happen queue_client_reply set_current_session mark_closed
happen-Invariant env sys (calls method params) i = record {
  sound = i.sound;
  reads_on = i.reads_on;
  calls_on = (do_request-GoodCall env method params sys.driver, i.calls_on);
}
happen-Invariant env sys (line text) i = next_line-Invariant env text sys sys.reader i
happen-Invariant env sys (reads a) i =
    let (s, g, h) = advance-Good env (λ d u. Unit) a sys.driver sys.reader i.sound i.reads_on in
    record {
      sound = s;
      reads_on = h;
      calls_on = All-map _ _ sys.callers (λ q k. GoodCall-Grows env sys.driver _ q g k) i.calls_on;
    }
happen-Invariant env sys (runs n a) i =
    let (s, g, hs) = run_caller-Good env a sys.driver n sys.callers i.sound i.calls_on in
    record {
      sound = s;
      reads_on = GoodLoop-Grows env sys.driver _ sys.reader g i.reads_on;
      calls_on = hs;
    }
happen-Invariant env sys (queues method reply) i =
    happen-same env sys (queue_client_reply method reply sys.driver) refl
      (Sound-fields env _ _ refl refl refl refl i.sound) i
happen-Invariant env sys (selects session_id) i =
    happen-same env sys (set_current_session session_id sys.driver) refl
      (Sound-fields env _ _ refl refl refl refl i.sound) i
happen-Invariant env sys closes i =
    happen-same env sys (mark_closed sys.driver) refl
      (Sound-fields env _ _ refl refl refl refl i.sound) i

run-Invariant :
    (env : Env) (sys : System) (es : List Event)
    → Invariant env sys
    → Invariant env (run env sys es)
unfolding run
run-Invariant env sys [] i = i
run-Invariant env sys (e ∷ es) i =
    run-Invariant env (happen env sys e) es (happen-Invariant env sys e i)

start-Invariant : (env : Env) → Invariant env start
unfolding new_driver
start-Invariant env = record {
  sound = record { numbered = tt; counted = refl; known = tt; answers = tt };
  reads_on = tt;
  calls_on = tt;
}

-- The state of a driver that has been run.
pub run-Sound : (env : Env) (es : List Event) → Sound env (run env start es).driver
run-Sound env es = (run-Invariant env start es (start-Invariant env)).sound

-- What a call has come to.
abbrev pub CallCovers : Env → Driver → Act Done → Type 0
CallCovers env d (ret r) = DoneCovers env d r
CallCovers env d _ = Unit

GoodCall-result : (env : Env) (d : Driver) (p : Act Done) → GoodCall env d p → CallCovers env d p
GoodCall-result env d (ret r) h = h
GoodCall-result env d (step f k) h = tt
GoodCall-result env d (write v k) h = tt
GoodCall-result env d (wait ch k x) h = tt

-- Under every schedule of calls of `Do`, of lines from the server and of the goroutines' actions, each
-- call that has returned an exchange (with an error of the server or not) has a consecutive part of
-- the lines read, whose last line is the response; the response has an id and no method, and its id
-- has the same key as the id of the request.
pub run-CallCovers :
    (env : Env) (es : List Event)
    → All (CallCovers env (run env start es).driver) (run env start es).callers
run-CallCovers env es =
    All-map _ _ (run env start es).callers (GoodCall-result env (run env start es).driver)
      (run-Invariant env start es (start-Invariant env)).calls_on
