-- ===== src/Acptest/Matching.antt =====
-- The answers of the server in the driver of acptest/driver.go: by which request they are taken.
use go_acp_server.Base.{ℕ, String, true, false, [], some, ◌≡◌, refl, ◌∙◌, ap, lookup}
use go_acp_server.Acptest.Driver.{Env, Driver, is_request, waiting}
use go_acp_server.Acptest.System.{start}
use go_acp_server.Acptest.Payload.{
  Map, own, id_key, number_key, line_message, decode_line, is_nil, message_of, as_map, value_at,
  Float64,
}
use go_acp_server.Go.Numbers.{ℤ}
use go_acp_server.Go.Host.{Host}
use go_acp_server.Json.{Json, num}
use go_acp_server.Json.Decode.{fill_map, decode_map, as_string}
use go_acp_server.Server.{Line, success, failure, request, notification}
use go_acp_server.Server.Encode.{line_json, error_json}

-- An answer of the server with the id.
abbrev pub IsAnswerTo : Json → Line → Type 0
IsAnswerTo v (success id result) = id ≡ v
IsAnswerTo v (failure id code message) = id ≡ v
IsAnswerTo v _ = ⊥

-- The float64 of an id in JSON is the id again: so it is up to 2 ^ 53.
pub record IsExact (f : Float64) (n : ℤ) : Type 0 where
  pub whole : f.is_whole (num n) ≡ true
  pub value : f.int64_of (num n) ≡ n

parsed :
    (h : Host) (text : String) (v : Json) (payload : Map)
    → h.parse text ≡ some v
    → decode_map [] v ≡ some payload
    → line_message h text ≡ message_of text payload
unfolding line_message decode_line
parsed h text v payload p q = rw (p, q, line_message, decode_line) refl

-- The channel that the answer is for.
pub waiting-answer :
    (env : Env) (d : Driver) (text : String) (n : ℤ) (l : Line) (start : ℕ)
    → IsAnswerTo (num n) l
    → env.host.parse text ≡ some (line_json l)
    → IsExact env.float64 n
    → lookup (id_key env.host env.float64 (own n)) d.pending ≡ some start
    → waiting env (line_message env.host text) d
      ≡ some (record { key = id_key env.host env.float64 (own n); start_seq = start })
unfolding waiting line_message decode_line message_of as_map value_at id_key number_key fill_map
    decode_map as_string line_json error_json lookup is_nil
waiting-answer env d text n (success id result) start a p x w =
    ap (λ m. waiting env m d) (parsed env.host text _ _ p refl) ∙ rw (a, x.whole, x.value, w) refl
waiting-answer env d text n (failure id code message) start a p x w =
    ap (λ m. waiting env m d) (parsed env.host text _ _ p refl) ∙ rw (a, x.whole, x.value, w) refl
waiting-answer env d text n (request id method params) start a p x w = elim a [ ]
waiting-answer env d text n (notification method params) start a p x w = elim a [ ]

-- The answer is no request.
pub answer-is_request :
    (env : Env) (text : String) (n : ℤ) (l : Line)
    → IsAnswerTo (num n) l
    → env.host.parse text ≡ some (line_json l)
    → is_request (line_message env.host text) ≡ false
unfolding message_of lookup fill_map decode_map as_string value_at line_json error_json
answer-is_request env text n (success id result) a p =
    ap is_request (parsed env.host text _ _ p refl)
answer-is_request env text n (failure id code message) a p =
    ap is_request (parsed env.host text _ _ p refl)
answer-is_request env text n (request id method params) a p = elim a [ ]
answer-is_request env text n (notification method params) a p = elim a [ ]
