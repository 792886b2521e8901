-- ===== src/Serve/Accounts.antt =====
-- Which lines ask for an answer, and one round of the loop of `Serve`.
use go_acp_server.Base.{
  ℕ, ◌+◌, String, List, [], ◌∷◌, Option, none, some, refl, arith, not, if◌then◌else◌, ◌==◌,
  Bool-cases, Option-cases, inl, inr,
}
use go_acp_server.Go.Text.{trim_space, is_blank}
use go_acp_server.Json.{Json, null}
use go_acp_server.Config.{Config}
use go_acp_server.Handlers.Answer.{handle_notification-Quiet}
use go_acp_server.Protocol.{Message, no_message, decode_message, has_id}
use go_acp_server.Server.Answers.{normalize_id}
use go_acp_server.Server.Owes.{Owes}
use go_acp_server.Server.Proc.{Proc, ret, ◌>>◌}
use go_acp_server.Server.Quiet.{write_error-Owes, handle_client_response-Quiet}
use go_acp_server.Serve.{serve_message, serve_line}
use go_acp_server.Serve.Weights.{Weighs, Weighs-bind}

-- The id under which a message asks for an answer: a request's own, and that of an invalid request.
-- Answers to the server's own requests, and notifications, ask for none.
abbrev pub asks : Message → Option Json
asks msg =
    if not (msg.jsonrpc == "2.0")
    then (if has_id msg then some (normalize_id msg.id) else none)
    else if is_blank msg.method
    then none
    else if has_id msg
    then some (normalize_id msg.id)
    else none

-- The same of a line: one that is no message is answered with the id `null`, a blank one not at all.
abbrev pub line_asks : Config → String → Option Json
line_asks c text =
    let t = trim_space text in
    if t == "" then none else elim (c.host.parse t) [
      | none ↦ some null
      | some v ↦ elim (decode_message no_message v) [ none ↦ some null | some msg ↦ asks msg ]
    ]

module _ (w : Json → ℕ) (c : Config) where
  abbrev pub weight : Option Json → ℕ
  weight none = 0
  weight (some id) = w id

  -- The weight of all that has been asked for in the lines read so far.
  abbrev pub asked : List String → ℕ
  asked [] = 0
  asked (t ∷ ts) = weight (line_asks c t) + asked ts

  -- What the loop still owes for a message that it hands over.
  abbrev pub handed : Option Message → ℕ
  handed none = 0
  handed (some msg) = w (normalize_id msg.id)

  serve_message-Weighs : (msg : Message) → Weighs w handed (weight (asks msg)) (serve_message c msg)
  unfolding serve_message
  serve_message-Weighs msg = elim (Bool-cases (msg.jsonrpc == "2.0")) [
    | inr other ↦ elim (Bool-cases (has_id msg)) [
      | inl id ↦
          rw (other, id)
            (Weighs-bind w handed (normalize_id msg.id) _ _ 1 0 _ (omega arith)
              (write_error-Owes msg.id _ _) (λ _. refl))
      | inr no_id ↦ rw (other, no_id) refl
    ]
    | inl v2 ↦ elim (Bool-cases (is_blank msg.method)) [
      | inl blank ↦ elim (Bool-cases (has_id msg)) [
        | inl id ↦
            rw (v2, blank, id)
              (Weighs-bind w handed null _ _ 0 0 _ (omega arith)
                (handle_client_response-Quiet c.host msg null) (λ _. refl))
        | inr no_id ↦ rw (v2, blank, no_id) refl
      ]
      | inr named ↦ elim (Bool-cases (has_id msg)) [
        | inl id ↦ rw (v2, named, id) refl
        | inr no_id ↦
            rw (v2, named, no_id)
              (Weighs-bind w handed null _ _ 0 0 _ (omega arith)
                (handle_notification-Quiet c msg null) (λ _. refl))
      ]
    ]
  ]

  parse_failure-Weighs :
      (p : Proc (Unit {0})) → Owes null 1 p → Weighs w handed (w null) (p >> ret none)
  parse_failure-Weighs p h = Weighs-bind w handed null p _ 1 0 _ (omega arith) h (λ _. refl)

  pub serve_line-Weighs : (t : String) → Weighs w handed (weight (line_asks c t)) (serve_line c t)
  unfolding serve_line normalize_id
  serve_line-Weighs t = elim (Bool-cases (trim_space t == "")) [
    | inl blank ↦ rw blank refl
    | inr full ↦ elim (Option-cases (c.host.parse (trim_space t))) [
      | inl bad ↦ rw (full, bad) (parse_failure-Weighs _ (write_error-Owes none _ _))
      | inr (v, parsed) ↦ elim (Option-cases (decode_message no_message v)) [
        | inl bad ↦ rw (full, parsed, bad) (parse_failure-Weighs _ (write_error-Owes none _ _))
        | inr (msg, good) ↦ rw (full, parsed, good) (serve_message-Weighs msg)
      ]
    ]
  ]
