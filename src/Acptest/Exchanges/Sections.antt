-- ===== src/Acptest/Exchanges/Sections.antt =====
-- The critical sections of acptest/driver.go and the invariant of the driver.
use go_acp_server.Base.{
  ℕ, ◌≤◌, String, Bool, true, false, List, [], ◌∷◌, Option, none, some, ◌≡◌, refl, ◌∙◌, ap, sym,
  arith, All, All-append, length, length-append, if◌then◌else◌, lookup,
}
use go_acp_server.Acptest.Driver.{
  ClientReply, Env, Chan, Driver, drop_reply, await_response, forget_response, waiting, numbered,
  without, take_line, send_response,
}
use go_acp_server.Acptest.Numbering.{Numbered-snoc}
use go_acp_server.Acptest.Payload.{Message}
use go_acp_server.Acptest.Rely.{
  Answers, Sound, Grows, Grows-same, Answers-append, All-insert, All-delete, All-map,
}

without-All :
    (P : String × ℕ → Type 0) (o : Option Chan) (m : List (String × ℕ))
    → All P m
    → All P (without o m)
without-All P none m h = h
without-All P (some ch) m h = All-delete P ch.key m h

pub lookup-known :
    (key : String) (v n : ℕ) (m : List (String × ℕ))
    → lookup key m ≡ some v
    → All (λ (e : String × ℕ). e.1 ≤ n) m
    → v ≤ n
unfolding lookup
lookup-known key v n [] e h = ground (arith, e)
lookup-known key v n ((at, w) ∷ m) e (k, h) = ground (arith, e, k, lookup-known key v n m)

-- The critical sections keep the invariant.
module _ (env : Env) where
  pub take_line-Sound : (msg : Message) (d : Driver) → Sound env d → Sound env (take_line env msg d)
  unfolding take_line
  take_line-Sound msg d s = record {
    numbered = Numbered-snoc 0 d.messages (numbered msg d) s.numbered (omega (arith, s.counted));
    counted = omega (arith, length-append d.messages (numbered msg d ∷ []), s.counted);
    known =
        without-All _ (waiting env msg d) d.pending
          (All-map _ _ d.pending (λ e h. omega (arith, h)) s.known);
    answers = All-map _ _ d.channels (λ e a. Answers-append env d.messages _ e.0 e.1 a) s.answers;
  }

  pub send_response-Sound :
      (ch : Chan) (m : Message) (d : Driver)
      → Answers env d.messages ch m
      → Sound env d
      → Sound env (send_response ch m d)
  unfolding send_response
  send_response-Sound ch m d a s = record {
    numbered = s.numbered;
    counted = s.counted;
    known = s.known;
    answers = All-append _ d.channels ((ch, m) ∷ []) s.answers (a, tt);
  }

  Sound-if :
      (b : Bool) (d d' : Driver) → Sound env d → Sound env d' → Sound env (if b then d else d')
  Sound-if true d d' s s' = s
  Sound-if false d d' s s' = s'

  pub await_response-Sound :
      (key : String) (d : Driver) → Sound env d → Sound env (await_response key d)
  unfolding await_response
  await_response-Sound key d s = Sound-if d.closed d _ s (record {
    numbered = s.numbered;
    counted = s.counted;
    known = All-insert _ key d.seq d.pending (omega arith) s.known;
    answers = s.answers;
  })

  pub await_response-messages :
      (key : String) (d : Driver) → (await_response key d).messages ≡ d.messages
  unfolding await_response
  await_response-messages key d = ground arith

  pub forget_response-Sound :
      (key : String) (d : Driver) → Sound env d → Sound env (forget_response key d)
  unfolding forget_response
  forget_response-Sound key d s = record {
    numbered = s.numbered;
    counted = s.counted;
    known = All-delete _ key d.pending s.known;
    answers = s.answers;
  }

  pub drop_reply-Sound :
      (method : String) (queue : List ClientReply) (d : Driver)
      → Sound env d
      → Sound env (drop_reply method queue d) × Grows d (drop_reply method queue d)
  unfolding drop_reply
  drop_reply-Sound method [] d s = (s, Grows-same d d refl)
  drop_reply-Sound method (r ∷ queue) d s = (
    record { numbered = s.numbered; counted = s.counted; known = s.known; answers = s.answers },
    Grows-same _ _ refl,
  )

-- The invariant reads four of the fields.
pub Sound-fields :
    (env : Env) (d d' : Driver)
    → d'.messages ≡ d.messages
    → d'.seq ≡ d.seq
    → d'.pending ≡ d.pending
    → d'.channels ≡ d.channels
    → Sound env d
    → Sound env d'
Sound-fields env d d' m q p c s = record {
  numbered = rw m s.numbered;
  counted = ap length m ∙ s.counted ∙ sym q;
  known = rw (p, q) s.known;
  answers = rw (c, m) s.answers;
}
