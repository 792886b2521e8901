-- ===== src/Acptest/Heard/Lines.antt =====
-- The lines of a turn's writer, as acptest/driver.go decodes them.
use go_acp_server.Base.{
  sym, String, false, List, [], ◌∷◌, ◌++◌, some, ◌≡◌, refl, ◌∙◌, ap, map, All, if◌then◌else◌, ◌==◌,
  Bool-cases, inl, inr, eq_iff, insert, lookup,
}
use go_acp_server.Acptest.Payload.{Message, as_map, message_of, decode_line, line_message}
use go_acp_server.Acptest.Turn.{
  Gathered, gather, gather_kind, gather_all, string_value, update_payload,
}
use go_acp_server.Go.Host.{Host}
use go_acp_server.Go.Text.{◌^^◌, is_blank, join}
use go_acp_server.Json.{Json, str, object, members, of_members}
use go_acp_server.Json.Decode.{decode_map, fill_map, as_string}
use go_acp_server.Prompt.Executor.{Turn as Played, reply, update}
use go_acp_server.Server.{Server, Line, Time, notification}
use go_acp_server.Server.Encode.{line_json}
use go_acp_server.Server.Proc.{Proc, ret}
use go_acp_server.Server.Solo.{solo}
use text.Mathlib.TextLemmas.{nil-append, append-nil, append_assoc}
use go_acp_server.Updates.Writer.{Sent, user_message, agent_message, raw_update, UpdateCall}

-- The text of the line is read back as what it was written from.
abbrev pub IsReadBack : Host → Line → Type 0
IsReadBack h l = h.parse (h.marshal (line_json l)) ≡ some (line_json l)

-- The driver's messages for lines of the server.
abbrev pub received : Host → List Line → List Message
received h ls = map (λ l. line_message h (h.marshal (line_json l))) ls

-- The parsed turn of an exchange with these lines.
abbrev pub gathered : Host → List Line → Gathered → Gathered
gathered h ls g = gather_all (received h ls) g

-- The executor makes these calls and then returns a reply.
abbrev pub say : List UpdateCall → String → Played
say [] text = reply text
say (call ∷ calls) text = update call (λ e. say calls text)

-- The text that a call adds to the agent's, and to the user's. `Raw` may send any payload.
abbrev pub spoken : UpdateCall → String
spoken (agent_message text) = if is_blank text then "" else text
spoken _ = ""

abbrev pub asked : UpdateCall → String
asked (user_message text) = if is_blank text then "" else text
asked _ = ""

abbrev pub IsPlain : UpdateCall → Type 0
IsPlain (raw_update u) = ⊥
IsPlain _ = Unit

abbrev pub concat : (UpdateCall → String) → List UpdateCall → String
concat f [] = ""
concat f (call ∷ calls) = f call ^^ concat f calls

pub members-of_members : (ms : List (String × Json)) → members (of_members ms) ≡ ms
members-of_members [] = refl
members-of_members ((k, v) ∷ ms) = ap (◌∷◌ (k, v)) (members-of_members ms)

-- A `session/update` of the server.
abbrev pub update_line : String → List (String × Json) → Line
update_line sid ms =
    notification "session/update" (object (("sessionId", str sid) ∷ ("update", object ms) ∷ []))

pub gather-update :
    (h : Host) (sid : String) (ms : List (String × Json)) (g : Gathered)
    → IsReadBack h (update_line sid ms)
    → gather (line_message h (h.marshal (line_json (update_line sid ms)))) g
      ≡ gather_kind
          (string_value (fill_map [] ms) "sessionUpdate")
          (fill_map [] ms)
          (record g { updates = g.updates ++ fill_map [] ms ∷ [] })
unfolding line_message decode_line gather message_of decode_map insert lookup line_json
    update_payload as_map fill_map as_string
gather-update h sid ms g e = rw (e, line_message, decode_line) (rw (members-of_members ms) refl)

pub join-snoc : (ts : List String) (t : String) → join "" (ts ++ t ∷ []) ≡ join "" ts ^^ t
unfolding join
join-snoc [] t = sym (nil-append t)
join-snoc (x ∷ []) t = ap (λ u. x ^^ u) (nil-append t)
join-snoc (x ∷ y ∷ ts) t = simp (nil-append, append_assoc, join-snoc (y ∷ ts) t)

-- What is gathered grows by these texts.
pub record Grows (user agent : String) (g g' : Gathered) : Type 0 where
  pub user_added : join "" g'.user_texts ≡ join "" g.user_texts ^^ user
  pub agent_added : join "" g'.agent_texts ≡ join "" g.agent_texts ^^ agent

pub Grows-refl : (g : Gathered) → Grows "" "" g g
Grows-refl g = record { user_added = sym (append-nil _); agent_added = sym (append-nil _) }

pub Grows-trans :
    {u a u' a' : String} (g g' g'' : Gathered)
    → Grows u a g g'
    → Grows u' a' g' g''
    → Grows (u ^^ u') (a ^^ a') g g''
Grows-trans {u} {a} {u'} {a'} g g' g'' p q = record {
  user_added = q.user_added ∙ ap (λ x. x ^^ u') p.user_added ∙ append_assoc _ u u';
  agent_added = q.agent_added ∙ ap (λ x. x ^^ a') p.agent_added ∙ append_assoc _ a a';
}

pub gathered-append :
    (h : Host) (xs ys : List Line) (g : Gathered)
    → gathered h (xs ++ ys) g ≡ gathered h ys (gathered h xs g)
unfolding gather_all
gathered-append h [] ys g = refl
gathered-append h (x ∷ xs) ys g = gathered-append h xs ys _

pub All-split :
    (h : Host) (xs ys : List Line)
    → All (IsReadBack h) (xs ++ ys)
    → All (IsReadBack h) xs × All (IsReadBack h) ys
All-split h [] ys b = (tt, b)
All-split h (x ∷ xs) ys (b, bs) = let (l, r) = All-split h xs ys bs in ((b, l), r)

-- A call writes some lines and changes no state; the lines bring these texts.
pub record Says (h : Host) (s : Server) (p : Proc Sent) (user agent : String) : Type 0 where
  pub lines : List Line
  pub result : Sent
  pub runs : (t : Time) → solo t p s ≡ some (s, lines, result)
  pub adds : (g : Gathered) → All (IsReadBack h) lines → Grows user agent g (gathered h lines g)

pub silent : (h : Host) (s : Server) (r : Sent) → Says h s (ret r) "" ""
unfolding gather_all
silent h s r = record { lines = []; result = r; runs = λ t. refl; adds = λ g b. Grows-refl g }

-- The texts that the switch takes from an update.
abbrev pub Brings : List (String × Json) → String → String → Type 0
Brings ms user agent =
    (g : Gathered)
    → Grows user agent g
        (gather_kind (string_value (fill_map [] ms) "sessionUpdate") (fill_map [] ms) g)

unfoldable pub chunk_members : String → String → List (String × Json)
chunk_members kind text =
    ("content", object (("text", str text) ∷ ("type", str "text") ∷ []))
    ∷ ("sessionUpdate", str kind)
    ∷ []

pub not_empty : (text : String) → is_blank text ≡ false → (text == "") ≡ false
unfolding is_blank
not_empty text h = elim (Bool-cases (text == "")) [
  | inr e ↦ e
  | inl e ↦ absurd (blank (rw ((eq_iff text "").0 e) at h))
]
  where
    blank : is_blank "" ≡ false → ⊥
    blank k = cc k

pub agent-Brings :
    (text : String)
    → is_blank text ≡ false
    → Brings (chunk_members "agent_message_chunk" text) "" text
unfolding chunk_members gather_kind fill_map insert lookup as_map as_string
agent-Brings text h g =
    rw (not_empty text h)
      (record { user_added = sym (append-nil _); agent_added = join-snoc _ text })

pub user-Brings :
    (text : String)
    → is_blank text ≡ false
    → Brings (chunk_members "user_message_chunk" text) text ""
unfolding chunk_members gather_kind fill_map insert lookup as_map as_string
user-Brings text h g =
    rw (not_empty text h)
      (record { user_added = join-snoc _ text; agent_added = sym (append-nil _) })
