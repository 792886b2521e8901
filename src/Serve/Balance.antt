-- ===== src/Serve/Balance.antt =====
-- The balance of the answers of `Serve` with the lines that ask for one.
use go_acp_server.Base.{
  ℕ, zero, suc, ◌+◌, String, List, [], ◌∷◌, All, Option, none, some, ◌≡◌, refl, arith,
}
use go_acp_server.Json.{Json}
use go_acp_server.Config.{Config}
use go_acp_server.Handlers.{handle_request}
use go_acp_server.Handlers.Answer.{handle_request-Owes}
use go_acp_server.Protocol.{Message}
use go_acp_server.Server.Answers.{normalize_id}
use go_acp_server.Server.Proc.{Proc, ret, step, emit, await, random, now}
use go_acp_server.Serve.{
  Choice, Shared, System, Event, line, reads, runs, ends, advance, take_line, run_reader,
  run_thread, happen, run, start,
}
use go_acp_server.Serve.Accounts.{line_asks, weight, asked, handed, serve_line-Weighs}
use go_acp_server.Serve.Weights.{total, Weighs, Owes-Weighs, advance-Left}

-- No write fails in the event.
abbrev pub IsFaultless : Event → Type 0
IsFaultless (reads ch) = ch.write_error ≡ none
IsFaultless (runs n ch) = ch.write_error ≡ none
IsFaultless _ = Unit

abbrev pub IsFinished : Proc (Unit {0}) → Type 0
IsFinished (ret x) = Unit
IsFinished _ = ⊥

module _ (w : Json → ℕ) (c : Config) where
  -- The goroutines still owe answers of this weight.
  abbrev Debts : List (Proc (Unit {0})) → ℕ → Type 0
  Debts [] n = n ≡ 0
  Debts (p ∷ ps) n = (m : ℕ) × (k : ℕ) × Weighs w (λ _. 0) m p × Debts ps k × (n ≡ m + k)

  -- What is written and what is still owed is what was asked for.
  record Balanced (sys : System) : Type 0 where
    read_owed : ℕ
    threads_owed : ℕ
    reader : Weighs w (handed w c) read_owed sys.reader
    threads : Debts sys.threads threads_owed
    balance : total w sys.shared.wire.lines + read_owed + threads_owed ≡ asked w c sys.inputs
    sound : sys.shared.wire.error ≡ none

  take_line-Balanced :
      (t : String) (sys : System) (p : Proc (Option Message))
      → sys.reader ≡ p
      → Balanced sys
      → Balanced (take_line c t sys p)
  unfolding take_line
  take_line-Balanced t sys (ret none) e b = record {
    read_owed = weight w c (line_asks c t);
    threads_owed = b.threads_owed;
    reader = serve_line-Weighs w c t;
    threads = b.threads;
    balance = omega (arith, b.balance, read_nothing);
    sound = b.sound;
  }
    where
      read_nothing : b.read_owed ≡ 0
      read_nothing = rw e at b.reader
  take_line-Balanced t sys (ret (some msg)) e b = b
  take_line-Balanced t sys (step f k) e b = b
  take_line-Balanced t sys (emit l k) e b = b
  take_line-Balanced t sys (await ch ctx k d) e b = b
  take_line-Balanced t sys (random k) e b = b
  take_line-Balanced t sys (now k) e b = b

  -- An action of the loop that is not the start of a goroutine.
  reads-Balanced :
      (ch : Choice) (sys : System) (p : Proc (Option Message))
      → ch.write_error ≡ none
      → sys.reader ≡ p
      → Balanced sys
      → Balanced (
          let (shared, rest) = advance ch sys.shared p in
          record sys { shared = shared; reader = rest })
  reads-Balanced ch sys p f e b =
      let (m, h, same, sound) =
        advance-Left w (handed w c) ch sys.shared p b.read_owed f b.sound (rw e at b.reader) in
      record {
        read_owed = m;
        threads_owed = b.threads_owed;
        reader = h;
        threads = b.threads;
        balance = omega (arith, b.balance, same);
        sound = sound;
      }

  run_reader-Balanced :
      (ch : Choice) (sys : System) (p : Proc (Option Message))
      → ch.write_error ≡ none
      → sys.reader ≡ p
      → Balanced sys
      → Balanced (run_reader c ch sys p)
  unfolding run_reader
  run_reader-Balanced ch sys (ret (some msg)) f e b = record {
    read_owed = 0;
    threads_owed = w (normalize_id msg.id) + b.threads_owed;
    reader = refl;
    threads = (
      w (normalize_id msg.id),
      b.threads_owed,
      Owes-Weighs w (normalize_id msg.id) (handle_request c msg) 1 _ (omega arith)
          (handle_request-Owes c msg),
      b.threads,
      refl,
    );
    balance = omega (arith, b.balance, owed);
    sound = b.sound;
  }
    where
      owed : b.read_owed ≡ w (normalize_id msg.id)
      owed = rw e at b.reader
  run_reader-Balanced ch sys (ret none) f e b = reads-Balanced ch sys (ret none) f e b
  run_reader-Balanced ch sys (step g k) f e b = reads-Balanced ch sys (step g k) f e b
  run_reader-Balanced ch sys (emit l k) f e b = reads-Balanced ch sys (emit l k) f e b
  run_reader-Balanced ch sys (await a ctx k d) f e b = reads-Balanced ch sys (await a ctx k d) f e b
  run_reader-Balanced ch sys (random k) f e b = reads-Balanced ch sys (random k) f e b
  run_reader-Balanced ch sys (now k) f e b = reads-Balanced ch sys (now k) f e b

  -- What one action of a goroutine leaves of the debts.
  run_thread-Debts :
      (ch : Choice) (s : Shared) (n : ℕ) (ps : List (Proc (Unit {0}))) (k : ℕ)
      → ch.write_error ≡ none
      → s.wire.error ≡ none
      → Debts ps k
      → (m : ℕ) × Debts (run_thread ch s n ps).1 m
        × (total w (run_thread ch s n ps).0.wire.lines + m ≡ total w s.wire.lines + k)
        × ((run_thread ch s n ps).0.wire.error ≡ none)
  unfolding run_thread
  run_thread-Debts ch s n [] k f q h = (k, h, refl, q)
  run_thread-Debts ch s zero (p ∷ ps) k f q (a, b, h, hs, e) =
      let (m, h', same, sound) = advance-Left w (λ _. 0) ch s p a f q h in
      (m + b, (m, b, h', hs, refl), omega (arith, same, e), sound)
  run_thread-Debts ch s (suc n) (p ∷ ps) k f q (a, b, h, hs, e) =
      let (m, hs', same, sound) = run_thread-Debts ch s n ps b f q hs in
      (a + m, (a, m, h, hs', refl), omega (arith, same, e), sound)

  happen-Balanced :
      (sys : System) (e : Event) → IsFaultless e → Balanced sys → Balanced (happen c sys e)
  unfolding happen
  happen-Balanced sys (line t) f b = take_line-Balanced t sys sys.reader refl b
  happen-Balanced sys (reads ch) f b = run_reader-Balanced ch sys sys.reader f refl b
  happen-Balanced sys (runs n ch) f b =
      let (m, h, same, sound) =
        run_thread-Debts ch sys.shared n sys.threads b.threads_owed f b.sound b.threads in
      record {
        read_owed = b.read_owed;
        threads_owed = m;
        reader = b.reader;
        threads = h;
        balance = omega (arith, b.balance, same);
        sound = sound;
      }
  happen-Balanced sys (ends ctx e) f b = record {
    read_owed = b.read_owed;
    threads_owed = b.threads_owed;
    reader = b.reader;
    threads = b.threads;
    balance = b.balance;
    sound = b.sound;
  }

  run-Balanced :
      (sys : System) (es : List Event) → All IsFaultless es → Balanced sys → Balanced (run c sys es)
  unfolding run
  run-Balanced sys [] f b = b
  run-Balanced sys (e ∷ es) (f, fs) b =
      run-Balanced (happen c sys e) es fs (happen-Balanced sys e f b)

  start-Balanced : Balanced start
  start-Balanced = record {
    read_owed = 0;
    threads_owed = 0;
    reader = refl;
    threads = refl;
    balance = refl;
    sound = refl;
  }

  nothing_owed : (ps : List (Proc (Unit {0}))) (n : ℕ) → All IsFinished ps → Debts ps n → n ≡ 0
  nothing_owed [] n _ h = h
  nothing_owed (ret x ∷ ps) n (_, f) (m, k, h, hs, e) = omega (arith, nothing_owed ps k f hs, h)
  nothing_owed (step g k ∷ ps) n (f, _) h = absurd f
  nothing_owed (emit l k ∷ ps) n (f, _) h = absurd f
  nothing_owed (await a x k d ∷ ps) n (f, _) h = absurd f
  nothing_owed (random k ∷ ps) n (f, _) h = absurd f
  nothing_owed (now k ∷ ps) n (f, _) h = absurd f

  -- Over every schedule in which no write fails, with every goroutine at its end and the loop waiting
  -- for a line, the answers written and the lines that ask for one balance at each id: whatever weight
  -- is given to an id, the answers written have the weight of the ids under which the lines read ask
  -- for an answer.
  pub answers_balance :
      (es : List Event)
      → All IsFaultless es
      → (run c start es).reader ≡ ret none
      → All IsFinished (run c start es).threads
      → total w (run c start es).shared.wire.lines ≡ asked w c (run c start es).inputs
  answers_balance es faultless idle finished =
      let b = run-Balanced start es faultless start-Balanced in
      let r : b.read_owed ≡ 0 = rw idle at b.reader in
      omega (arith, b.balance, r, nothing_owed _ b.threads_owed finished b.threads)
