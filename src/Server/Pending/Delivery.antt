-- ===== src/Server/Pending/Delivery.antt =====
-- The way of an answer of the client to the call that waits for it, by `handleClientResponse` and
-- `registerPendingResponse`.
use go_acp_server.Base.{
  String, none, some, ◌≡◌, refl, ◌∙◌, ap, lookup, insert, delete, eq_iff, lookup-insert_self,
  lookup-delete_self, ◌==◌, false, Bool-cases, inl, inr,
}
use text.Mathlib.TextLemmas.{append-eq-nil_iff, cons≢nil}
use go_acp_server.Go.Text.{◌^^◌}
use go_acp_server.Go.Host.{Host}
use go_acp_server.Protocol.{Message}
use go_acp_server.Server.{Server}
use go_acp_server.Server.Alone.{alone, alone-bind}
use go_acp_server.Server.Pending.{
  send, register, register_pending_response, unregister_pending_response, accept, rpc_id_key,
  handle_client_response,
}
use go_acp_server.Server.Proc.{◌>>=◌, ◌>>◌, on_none}

-- Nothing is known of a request id yet.
abbrev pub IsFresh : String → Server → Type 0
IsFresh id s =
    (lookup ("s:" ^^ id) s.pending_responses ≡ none)
    × (lookup ("s:" ^^ id) s.early_responses ≡ none)

-- The message is on the channel of the call, and no trace of the id is left in the two maps.
abbrev pub IsDelivered : String → Message → Server → Type 0
IsDelivered id msg s =
    (lookup id s.channels ≡ some msg)
    × (lookup ("s:" ^^ id) s.pending_responses ≡ none)
    × (lookup ("s:" ^^ id) s.early_responses ≡ none)

key_named : (id : String) → ("s:" ^^ id == "") ≡ false
key_named id = elim (Bool-cases ("s:" ^^ id == "")) [
  | inl e ↦ absurd (cons≢nil ((append-eq-nil_iff {p = "s:"} {q = id}).0 ((eq_iff _ _).0 e)).0)
  | inr e ↦ e
]

-- The two outcomes of each critical section.
module _ (msg : Message) (s : Server) where
  pub accept_waiting :
      (key ch : String)
      → lookup key s.pending_responses ≡ some ch
      → accept key msg s ≡ record s { pending_responses = delete key s.pending_responses }
  unfolding accept
  accept_waiting key ch e = rw (e, accept)

  pub accept_early :
      (key : String)
      → lookup key s.pending_responses ≡ none
      → accept key msg s ≡ record s { early_responses = insert key msg s.early_responses }
  unfolding accept
  accept_early key e = rw (e, accept)

  register_early :
      (id : String)
      → lookup ("s:" ^^ id) s.early_responses ≡ some msg
      → register id s ≡ record s {
        channels = insert id msg (delete id s.channels);
        early_responses = delete ("s:" ^^ id) s.early_responses;
      }
  unfolding register send
  register_early id e = rw (e, register)

register_waiting :
    (id : String) (s : Server)
    → lookup ("s:" ^^ id) s.early_responses ≡ none
    → register id s ≡ record s {
      channels = delete id s.channels;
      pending_responses = insert ("s:" ^^ id) id s.pending_responses;
    }
unfolding register
register_waiting id s e = rw (e, register)

-- The two ways of `handleClientResponse`.
module _ (h : Host) (msg : Message) (id : String) (s : Server)
    (addressed : rpc_id_key h msg.id ≡ "s:" ^^ id) where
  pub handle_client_response_waiting :
      (ch : String)
      → lookup ("s:" ^^ id) s.pending_responses ≡ some ch
      → alone (handle_client_response h msg) s ≡ some (send ch msg (accept ("s:" ^^ id) msg s), tt)
  unfolding handle_client_response
  handle_client_response_waiting ch e = rw (addressed, key_named id) (rw (e, on_none, alone) refl)

  pub handle_client_response_early :
      lookup ("s:" ^^ id) s.pending_responses ≡ none
      → alone (handle_client_response h msg) s ≡ some (accept ("s:" ^^ id) msg s, tt)
  unfolding handle_client_response
  handle_client_response_early e = rw (addressed, key_named id) (rw (e, on_none, alone) refl)

module _ (h : Host) (id : String) (msg : Message) (s : Server) where
  -- An answer that comes before its call has registered.
  early_delivery :
      rpc_id_key h msg.id ≡ "s:" ^^ id
      → IsFresh id s
      → (t : Server) × (alone (handle_client_response h msg >> register_pending_response id) s
          ≡ some (t, tt))
        × IsDelivered id msg t
  unfolding register_pending_response
  early_delivery addressed fresh =
      let t = record s { early_responses = insert ("s:" ^^ id) msg s.early_responses } in
      (
        record t {
          channels = insert id msg (delete id s.channels);
          early_responses = delete ("s:" ^^ id) t.early_responses;
        },
        alone-bind (handle_client_response h msg) (λ _. register_pending_response id) s _ tt
              (handle_client_response_early h msg id s addressed fresh.0)
            ∙ rw (accept_early msg s ("s:" ^^ id) fresh.0) (
                rw (register_early msg t id (lookup-insert_self ("s:" ^^ id) msg s.early_responses))
                  refl),
        (
          lookup-insert_self id msg (delete id s.channels),
          fresh.0,
          lookup-delete_self ("s:" ^^ id) t.early_responses,
        ),
      )

  late_delivery :
      rpc_id_key h msg.id ≡ "s:" ^^ id
      → IsFresh id s
      → (t : Server) × (alone (register_pending_response id >> handle_client_response h msg) s
          ≡ some (t, tt))
        × IsDelivered id msg t
  unfolding register_pending_response ◌>>=◌ send
  late_delivery addressed fresh =
      let t = record s {
        channels = delete id s.channels;
        pending_responses = insert ("s:" ^^ id) id s.pending_responses;
      } in
      let found = lookup-insert_self ("s:" ^^ id) id s.pending_responses in
      (
        record t {
          channels = insert id msg t.channels;
          pending_responses = delete ("s:" ^^ id) t.pending_responses;
        },
        alone-bind (register_pending_response id) (λ _. handle_client_response h msg) s t tt
              (ap (λ x. some (x, tt)) (register_waiting id s fresh.1))
            ∙ handle_client_response_waiting h msg id t addressed id found
            ∙ rw (accept_waiting msg t ("s:" ^^ id) id found) refl,
        (
          lookup-insert_self id msg t.channels,
          lookup-delete_self ("s:" ^^ id) t.pending_responses,
          fresh.1,
        ),
      )

  -- An answer reaches the channel of the call that it is for, both when it comes after the call has
  -- registered the channel and when it comes before; then neither map keeps anything of the id. The
  -- id is new to both maps, and nothing else happens in between.
  pub delivery :
      rpc_id_key h msg.id ≡ "s:" ^^ id
      → IsFresh id s
      → ((t : Server) × (alone (register_pending_response id >> handle_client_response h msg) s
            ≡ some (t, tt))
          × IsDelivered id msg t)
        × ((t : Server) × (alone (handle_client_response h msg >> register_pending_response id) s
              ≡ some (t, tt))
            × IsDelivered id msg t)
  delivery addressed fresh = (late_delivery addressed fresh, early_delivery addressed fresh)

  -- After a call has given up, as when its context ends, an answer that still comes is kept among the
  -- early answers; no call waits for it.
  pub late_answer_kept :
      rpc_id_key h msg.id ≡ "s:" ^^ id
      → (t : Server) × (alone (unregister_pending_response id >> handle_client_response h msg) s
          ≡ some (t, tt))
        × (lookup ("s:" ^^ id) t.early_responses ≡ some msg)
        × (lookup ("s:" ^^ id) t.pending_responses ≡ none)
  unfolding unregister_pending_response ◌>>=◌
  late_answer_kept addressed =
      let t = record s { pending_responses = delete ("s:" ^^ id) s.pending_responses } in
      let gone = lookup-delete_self ("s:" ^^ id) s.pending_responses in
      (
        record t { early_responses = insert ("s:" ^^ id) msg t.early_responses },
        handle_client_response_early h msg id t addressed gone
            ∙ rw (accept_early msg t ("s:" ^^ id) gone) refl,
        lookup-insert_self ("s:" ^^ id) msg t.early_responses,
        gone,
      )
