-- ===== src/Connections/Serial.antt =====
-- Concurrent calls of `Endpoint.Serve` (connections/endpoint.go) and the same calls one after the other.
pub mod Steps
use go_acp_server.Base.{
  ℕ, Bool, true, false, List, [], ◌∷◌, Option, ◌≡◌, refl, Bool-cases, inl, inr,
}
use mathlib.Core.List.{Mem}
use go_acp_server.Config.{Config}
use go_acp_server.Connections.Endpoint.{Served}
use go_acp_server.Connections.Lock.{
  Stage, outside, inside, back_with, Lock, Step, enters, acts, leaves, is_over, enter_if, act_if,
  leave_if, take_step, take_steps, unlocked,
}
use go_acp_server.Go.Fault.{Fault}
use go_acp_server.Go.Scan.{Source}
use go_acp_server.Serve.{Event}
use go_acp_server.Server.{Server}
use go_acp_server.Connections.Serial.Steps.{
  Sequential, Current, Serial, enter-Serial, act-Serial, act-Recorded, leave-Serial,
}

module _ (c : Config) (sources : ℕ → Source) (s : Server) where
  enter_if-Serial :
      (g : Stage) (b : Bool) (i : ℕ) (l : Lock) (k : Serial c sources s l)
      → Current c sources s b l k.results
      → Serial c sources s (enter_if g b i (sources i) l)
  unfolding enter_if
  enter_if-Serial outside false i l k h = enter-Serial c sources s i l k h
  enter_if-Serial outside true i l k h = k
  enter_if-Serial (inside t) b i l k h = k
  enter_if-Serial (back_with f) b i l k h = k

  act_if-Serial :
      (g : Stage) (b : Bool) (i : ℕ) (e : Event) (l : Lock) (k : Serial c sources s l)
      → l.stages i ≡ g
      → l.locked ≡ b
      → Current c sources s b l k.results
      → Serial c sources s (act_if g c i e l)
  unfolding act_if
  act_if-Serial outside b i e l k at q h = k
  act_if-Serial (back_with f) b i e l k at q h = k
  act_if-Serial (inside t) false i e l k at q (same, nobody) = absurd (nobody i t at)
  act_if-Serial (inside t) true i e l k at q (t', here, only, es, ran, fault) = record {
    results = k.results;
    sequential = k.sequential;
    recorded = act-Recorded c sources s i e t l k.results at (only i t at) k.recorded;
    current = rw q (act-Serial c sources s i e t l k at (t', here, only, es, ran, fault));
  }

  leave_if-Serial :
      (g : Stage) (b : Bool) (i : ℕ) (l : Lock) (k : Serial c sources s l)
      → l.stages i ≡ g
      → Current c sources s b l k.results
      → Serial c sources s (leave_if g i l)
  unfolding leave_if
  leave_if-Serial outside b i l k at h = k
  leave_if-Serial (back_with f) b i l k at h = k
  leave_if-Serial (inside t) false i l k at (same, nobody) = absurd (nobody i t at)
  leave_if-Serial (inside t) true i l k at h = elim (Bool-cases (is_over t)) [
    | inl over ↦ rw over (leave-Serial c sources s i t l k at over h)
    | inr busy ↦ rw busy k
  ]

  take_step-Serial :
      (x : Step) (l : Lock) → Serial c sources s l → Serial c sources s (take_step c sources l x)
  unfolding take_step
  take_step-Serial (enters i) l k = enter_if-Serial (l.stages i) l.locked i l k k.current
  take_step-Serial (acts i e) l k = act_if-Serial (l.stages i) l.locked i e l k refl refl k.current
  take_step-Serial (leaves i) l k = leave_if-Serial (l.stages i) l.locked i l k refl k.current

  take_steps-Serial :
      (xs : List Step) (l : Lock)
      → Serial c sources s l
      → Serial c sources s (take_steps c sources l xs)
  unfolding take_steps
  take_steps-Serial [] l k = k
  take_steps-Serial (x ∷ xs) l k =
      take_steps-Serial xs (take_step c sources l x) (take_step-Serial x l k)

-- However calls of `Endpoint.Serve` on one endpoint overlap, there is an order of calls that run one after
-- the other, each on its own input, such that every call that has returned is one of them, with
-- the lines that it has written to its own output and with its error.
pub take_steps-Sequential :
    (c : Config) (sources : ℕ → Source) (s : Server) (xs : List Step)
    → let l = take_steps c sources (unlocked s) xs in
      (rs : List (ℕ × Served)) × Sequential c sources s rs
      × ((i : ℕ) (f : Option Fault)
          → l.stages i ≡ back_with f
          → (r : Served) × Mem (i, r) rs × (r.lines ≡ (l.wires i).lines) × (r.fault ≡ f))
take_steps-Sequential c sources s xs =
    let k = take_steps-Serial c sources s xs (unlocked s) (record {
      results = [];
      sequential = tt;
      recorded = λ i f e. cc;
      current = (refl, λ i t e. cc);
    }) in
    (k.results, k.sequential, k.recorded)
