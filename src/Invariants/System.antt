-- ===== src/Invariants/System.antt =====
-- `Serve` and its schedules under an invariant.
use go_acp_server.Base.{
  ℕ, zero, suc, String, Bool, not, List, [], ◌∷◌, All, Option, none, some, ◌==◌, lookup, Bool-cases,
  Option-cases, inl, inr,
}
use go_acp_server.Config.{Config}
use go_acp_server.Go.Text.{trim_space, is_blank}
use go_acp_server.Invariants.Handlers.{handle_request-Keeps, handle_notification-Keeps}
use go_acp_server.Invariants.Rules.{Keeps, Keeps-bind, Keeps-if}
use go_acp_server.Invariants.Sections.{Preserved, write_error-Keeps, handle_client_response-Keeps}
use go_acp_server.Protocol.{Message, has_id, no_message, decode_message}
use go_acp_server.Serve.{
  Choice, Shared, System, Event, line, reads, runs, ends, advance, select, take_line, run_reader,
  run_thread, happen, run, start, serve_message, serve_line,
}
use go_acp_server.Server.{Server, Ctx, CtxError, new_server}
use go_acp_server.Server.Cancel.{ctx_err}
use go_acp_server.Server.Proc.{Proc, ret, step, emit, await, random, now}

module _ (I : Server → Type 0) (P : Preserved I) where
  serve_message-Keeps : (c : Config) (msg : Message) → Keeps I (serve_message c msg)
  unfolding serve_message
  serve_message-Keeps c msg =
      Keeps-if I (not (msg.jsonrpc == "2.0")) _ _
        (Keeps-if I (has_id msg) _ _ (Keeps-bind I _ _ (write_error-Keeps I P msg.id _ _) (λ _. tt))
          tt)
        (Keeps-if I (is_blank msg.method) _ _
          (Keeps-if I (has_id msg) _ _
            (Keeps-bind I _ _ (handle_client_response-Keeps I P c.host msg) (λ _. tt)) tt)
          (Keeps-if I (has_id msg) _ _ tt
            (Keeps-bind I _ _ (handle_notification-Keeps I P c msg) (λ _. tt))))

  serve_line-Keeps : (c : Config) (t : String) → Keeps I (serve_line c t)
  unfolding serve_line
  serve_line-Keeps c t = elim (Bool-cases (trim_space t == "")) [
    | inl blank ↦ rw blank tt
    | inr full ↦ elim (Option-cases (c.host.parse (trim_space t))) [
      | inl bad ↦ rw (full, bad) (Keeps-bind I _ _ (write_error-Keeps I P none _ _) (λ _. tt))
      | inr (v, parsed) ↦ elim (Option-cases (decode_message no_message v)) [
        | inl bad ↦
            rw (full, parsed, bad) (Keeps-bind I _ _ (write_error-Keeps I P none _ _) (λ _. tt))
        | inr (msg, good) ↦ rw (full, parsed, good) (serve_message-Keeps c msg)
      ]
    ]
  ]

  module _ {A : Type 0} where
    -- The state that an action leaves is sound, and what follows keeps the invariant.
    abbrev Sound : Server × Proc A → Type 0
    Sound (s, p) = I s × Keeps I p

    select-Keeps :
        (first : Bool) (ch : String) (ctx : Ctx) (k : Message → Proc A) (d : CtxError → Proc A)
        (s : Server)
        → I s
        → ((m : Message) → Keeps I (k m))
        → ((e : CtxError) → Keeps I (d e))
        → Sound (select first ch ctx k d s)
    unfolding select
    select-Keeps ended ch ctx k d s i hk hd = elim (Option-cases (ctx_err s ctx)) [
      | inl alive ↦ elim (Option-cases (lookup ch s.channels)) [
        | inl empty ↦ rw (alive, empty, select) (i, (hk, hd))
        | inr (m, full) ↦ rw (alive, full, select) (P.receives ch s i, hk m)
      ]
      | inr (e, over) ↦ elim (Option-cases (lookup ch s.channels)) [
        | inl empty ↦ rw (over, empty, select) (i, hd e)
        | inr (m, full) ↦ elim (Bool-cases ended) [
          | inl first ↦ rw (over, full, first, select) (i, hd e)
          | inr later ↦ rw (over, full, later, select) (P.receives ch s i, hk m)
        ]
      ]
    ]

    advance-Keeps :
        (ch : Choice) (w : Shared) (p : Proc A)
        → I w.server
        → Keeps I p
        → I (advance ch w p).0.server × Keeps I (advance ch w p).1
    unfolding advance
    advance-Keeps ch w (ret a) i h = (i, h)
    advance-Keeps ch w (step f k) i h = h w.server i
    advance-Keeps ch w (emit l k) i h = (i, h _)
    advance-Keeps ch w (await c ctx k d) i h =
        select-Keeps ch.ended_first c ctx k d w.server i h.0 h.1
    advance-Keeps ch w (random k) i h = (i, h ch.bytes)
    advance-Keeps ch w (now k) i h = (i, h ch.time)

  record Kept (sys : System) : Type 0 where
    server : I sys.shared.server
    reader : Keeps I sys.reader
    threads : All (Keeps I) sys.threads

  take_line-Kept :
      (c : Config) (t : String) (sys : System) (p : Proc (Option Message))
      → Kept sys
      → Kept (take_line c t sys p)
  unfolding take_line
  take_line-Kept c t sys (ret none) k = record {
    server = k.server;
    reader = serve_line-Keeps c t;
    threads = k.threads;
  }
  take_line-Kept c t sys (ret (some msg)) k = k
  take_line-Kept c t sys (step f g) k = k
  take_line-Kept c t sys (emit l g) k = k
  take_line-Kept c t sys (await a x g d) k = k
  take_line-Kept c t sys (random g) k = k
  take_line-Kept c t sys (now g) k = k

  -- An action of the loop that is not the start of a goroutine.
  reads-Kept :
      (ch : Choice) (sys : System) (p : Proc (Option Message))
      → Keeps I p
      → Kept sys
      → Kept (
          let (shared, rest) = advance ch sys.shared p in
          record sys { shared = shared; reader = rest })
  reads-Kept ch sys p h k =
      let (server, reader) = advance-Keeps ch sys.shared p k.server h in
      record { server = server; reader = reader; threads = k.threads }

  run_reader-Kept :
      (c : Config) (ch : Choice) (sys : System) (p : Proc (Option Message))
      → Keeps I p
      → Kept sys
      → Kept (run_reader c ch sys p)
  unfolding run_reader
  run_reader-Kept c ch sys (ret (some msg)) h k = record {
    server = k.server;
    reader = tt;
    threads = (handle_request-Keeps I P c msg, k.threads);
  }
  run_reader-Kept c ch sys (ret none) h k = reads-Kept ch sys (ret none) h k
  run_reader-Kept c ch sys (step f g) h k = reads-Kept ch sys (step f g) h k
  run_reader-Kept c ch sys (emit l g) h k = reads-Kept ch sys (emit l g) h k
  run_reader-Kept c ch sys (await a x g d) h k = reads-Kept ch sys (await a x g d) h k
  run_reader-Kept c ch sys (random g) h k = reads-Kept ch sys (random g) h k
  run_reader-Kept c ch sys (now g) h k = reads-Kept ch sys (now g) h k

  run_thread-Keeps :
      (ch : Choice) (w : Shared) (n : ℕ) (ps : List (Proc (Unit {0})))
      → I w.server
      → All (Keeps I) ps
      → I (run_thread ch w n ps).0.server × All (Keeps I) (run_thread ch w n ps).1
  unfolding run_thread
  run_thread-Keeps ch w n [] i hs = (i, hs)
  run_thread-Keeps ch w zero (p ∷ ps) i (h, hs) =
      let (j, h') = advance-Keeps ch w p i h in (j, (h', hs))
  run_thread-Keeps ch w (suc n) (p ∷ ps) i (h, hs) =
      let (j, hs') = run_thread-Keeps ch w n ps i hs in (j, (h, hs'))

  happen-Kept : (c : Config) (sys : System) (e : Event) → Kept sys → Kept (happen c sys e)
  unfolding happen
  happen-Kept c sys (line t) k = take_line-Kept c t sys sys.reader k
  happen-Kept c sys (reads ch) k = run_reader-Kept c ch sys sys.reader k.reader k
  happen-Kept c sys (runs n ch) k =
      let (server, threads) = run_thread-Keeps ch sys.shared n sys.threads k.server k.threads in
      record { server = server; reader = k.reader; threads = threads }
  happen-Kept c sys (ends ctx e) k = record {
    server = P.ends ctx e sys.shared.server k.server;
    reader = k.reader;
    threads = k.threads;
  }

  run-Kept : (c : Config) (sys : System) (es : List Event) → Kept sys → Kept (run c sys es)
  unfolding run
  run-Kept c sys [] k = k
  run-Kept c sys (e ∷ es) k = run-Kept c (happen c sys e) es (happen-Kept c sys e k)

  -- An invariant of the new server that each critical section keeps holds after every schedule.
  pub run-keeps : I new_server → (c : Config) (es : List Event) → I (run c start es).shared.server
  run-keeps i c es = (run-Kept c start es (record { server = i; reader = tt; threads = tt })).server
