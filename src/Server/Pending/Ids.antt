-- ===== src/Server/Pending/Ids.antt =====
-- The ids of the server's own requests, which `nextRequestID` draws from its counter.
use text.Mathlib.TextLemmas.{append_cancel_left}
use go_acp_server.Base.{
  ℕ, zero, suc, ◌+◌, ◌%◌, ◌^◌, ◌<◌, String, ◌≡◌, ◌≢◌, ◌∙◌, arith, some, none, Option,
}
use go_acp_server.Go.Numbers.{decimal, decimal-injective}
use go_acp_server.Server.{Server}
use go_acp_server.Server.Alone.{alone}
use go_acp_server.Server.Pending.{request_id, next_counter, next_request_id}

-- What a call of `nextRequestID` leaves, and what it returns.
abbrev pub state_in : Server → Option (Server × String) → Server
state_in s none = s
state_in s (some (t, id)) = t

abbrev pub id_in : Option (Server × String) → String
id_in none = ""
id_in (some (t, id)) = id

-- The state after `nextRequestID` has been called so often.
unfoldable pub called : ℕ → Server → Server
called zero s = s
called (suc n) s = called n (state_in s (alone next_request_id s))

-- The id that the call after these returns.
unfoldable pub nth_id : ℕ → Server → String
unfolding called
nth_id n s = id_in (alone next_request_id (called n s))

counter-called :
    (n : ℕ) (s : Server) → next_counter (called n s) ≡ (s.request_id_counter + 1 + n) % 2 ^ 64
unfolding called next_request_id
counter-called zero s = omega arith
counter-called (suc n) s =
    counter-called n (record s { request_id_counter = next_counter s }) ∙ omega arith

request_id-injective : (a b : ℕ) → request_id a ≡ request_id b → a ≡ b
unfolding request_id
request_id-injective a b e =
    decimal-injective a b (append_cancel_left "acp-client-" (decimal a) (decimal b) e)

-- Call `nextRequestID` again and again, from any state: two calls among 2 ^ 64 in a row return different
-- ids. The counter may wrap between them.
pub nth_id-distinct :
    (s : Server) (m n : ℕ) → m < 2 ^ 64 → n < 2 ^ 64 → m ≢ n → nth_id m s ≢ nth_id n s
unfolding nth_id next_request_id
nth_id-distinct s m n hm hn apart e =
    let same = request_id-injective _ _ e in
    apart (omega (arith, counter-called m s, counter-called n s, same, hm, hn))
