-- ===== src/Acptest/Queues.antt =====
-- The replies that a test queues for the requests of the server, and the lines that the driver of
-- acptest/driver.go writes in answer.
use go_acp_server.Base.{
  String, Bool, true, false, List, [], ◌∷◌, ◌++◌, Option, none, some, ◌≡◌, refl, ◌∙◌, ap, sym,
  subst, arith, if◌then◌else◌, ◌==◌, eq_iff, lookup, insert, lookup-insert,
}
use go_acp_server.Acptest.Calls.{
  Act, ret, step, write, wait, ◌>>=◌, reply_json, handled_or_queued, resolve_client_reply,
  reply_to_client_request,
}
use go_acp_server.Acptest.Driver.{
  ClientReply, Env, Driver, listed, queue_of, first_reply, drop_reply, take_reply,
  queue_client_reply,
}
use go_acp_server.Acptest.Payload.{Message}
use go_acp_server.Json.{Json}

-- The lines that a goroutine writes when nothing disturbs it, up to its first wait.
unfoldable written : {A : Type 0} → Driver → Act A → Driver × List Json
written d (ret x) = (d, [])
written d (step f k) = written (f d) (k d)
written d (write v k) = let (d', vs) = written d (k none) in (d', v ∷ vs)
written d (wait ch k x) = (d, [])

-- What concerns the queues: a test queues a reply, or the server asks.
pub data Traffic : Type 0 where
  queued : String → ClientReply → Traffic
  asked : Message → Traffic

unfoldable pub replies : Env → Driver → List Traffic → List Json
unfolding written queue_client_reply reply_to_client_request
replies env d [] = []
replies env d (queued method reply ∷ ts) = replies env (queue_client_reply method reply d) ts
replies env d (asked req ∷ ts) =
    let (d', vs) = written d (reply_to_client_request env req) in vs ++ replies env d' ts

-- One first-in first-out queue for each method.
abbrev Queues : Type 0
Queues = String → List ClientReply

abbrev change_at : String → (List ClientReply → List ClientReply) → Queues → Queues
change_at method f q = λ m. if method == m then f (q m) else q m

abbrev rest_of : List ClientReply → List ClientReply
rest_of [] = []
rest_of (reply ∷ queue) = queue

-- A reply of the handler goes before the queue, an empty queue gives a null result.
unfoldable pub fifo_replies : Env → Queues → List Traffic → List Json
fifo_replies env q [] = []
fifo_replies env q (queued method reply ∷ ts) =
    fifo_replies env (change_at method (λ queue. queue ++ reply ∷ []) q) ts
fifo_replies env q (asked req ∷ ts) = elim (env.client_handler req) [
  | some reply ↦ reply_json req.id reply ∷ fifo_replies env q ts
  | none ↦
      reply_json req.id (first_reply (q req.method))
      ∷ fifo_replies env (change_at req.method rest_of q) ts
]

abbrev Agrees : Queues → Driver → Type 0
Agrees q d = (m : String) → q m ≡ queue_of m d

listed-if :
    (b : Bool) (queue : List ClientReply) (o : Option (List ClientReply))
    → listed (if b then some queue else o) ≡ (if b then queue else listed o)
listed-if true queue o = refl
listed-if false queue o = refl

queue_of-insert :
    (method m : String) (queue : List ClientReply) (d : Driver)
    → queue_of m (record d { client_queues = insert method queue d.client_queues })
      ≡ (if method == m then queue else queue_of m d)
queue_of-insert method m queue d =
    ap listed (lookup-insert method m queue d.client_queues)
    ∙ listed-if (method == m) queue (lookup m d.client_queues)

change_at-same :
    (method m : String) (f : List ClientReply → List ClientReply) (q q' : Queues)
    → ((k : String) → q k ≡ q' k)
    → change_at method f q m ≡ (if method == m then f (q' method) else q' m)
change_at-same method m f q q' h = ground (arith, eq_iff method m, h m)

change_at-Agrees :
    (method : String) (f : List ClientReply → List ClientReply) (q : Queues) (d : Driver)
    → Agrees q d
    → Agrees
        (change_at method f q)
        (record d { client_queues = insert method (f (queue_of method d)) d.client_queues })
change_at-Agrees method f q d h m =
    change_at-same method m f q (λ k. queue_of k d) h
    ∙ sym (queue_of-insert method m (f (queue_of method d)) d)

rest_of-empty :
    (method m : String) (q : Queues)
    → q method ≡ []
    → (if method == m then rest_of (q method) else q m) ≡ q m
rest_of-empty method m q e = ground (arith, eq_iff method m, ap rest_of e)

drop_reply-Agrees :
    (method : String) (q : Queues) (d : Driver) (queue : List ClientReply)
    → Agrees q d
    → queue_of method d ≡ queue
    → Agrees (change_at method rest_of q) (drop_reply method queue d)
unfolding drop_reply
drop_reply-Agrees method q d [] h e m =
    change_at-same method m rest_of q (λ k. queue_of k d) h
    ∙ rest_of-empty method m (λ k. queue_of k d) e
drop_reply-Agrees method q d (reply ∷ queue) h e m =
    subst
      (λ x.
        change_at method rest_of q m
        ≡ queue_of m (record d { client_queues = insert method (rest_of x) d.client_queues }))
      e (change_at-Agrees method rest_of q d h m)

abbrev writes_reply : Message → ClientReply → Act (Unit {0})
writes_reply req reply = write (reply_json req.id reply) λ _. ret tt

asked-Queues :
    (env : Env) (o : Option ClientReply) (req : Message) (ts : List Traffic) (q : Queues)
    (d : Driver)
    → Agrees q d
    → ((q' : Queues) (d' : Driver) → Agrees q' d' → replies env d' ts ≡ fifo_replies env q' ts)
    → (let (d', vs) = written d (handled_or_queued o req.method >>= writes_reply req) in
        vs ++ replies env d' ts)
      ≡ (elim o [
        | some reply ↦ reply_json req.id reply ∷ fifo_replies env q ts
        | none ↦
            reply_json req.id (first_reply (q req.method))
            ∷ fifo_replies env (change_at req.method rest_of q) ts
      ])
unfolding written handled_or_queued take_reply ◌>>=◌
asked-Queues env (some reply) req ts q d h k = ap (◌∷◌ (reply_json req.id reply)) (k q d h)
asked-Queues env none req ts q d h k =
    ap (λ x. reply_json req.id (first_reply x) ∷ replies env (take_reply req.method d) ts)
      (sym (h req.method))
    ∙ ap (◌∷◌ (reply_json req.id (first_reply (q req.method)))) (
        k (change_at req.method rest_of q) (take_reply req.method d)
          (drop_reply-Agrees req.method q d _ h refl))

-- Whatever a test queues and the server asks, in whatever order, the driver answers each request by
-- the reply of the handler, or else by the reply of the request's method that has been queued for the
-- longest time and takes it off, or else, with none queued, by a null result.
pub replies-Queues :
    (env : Env) (ts : List Traffic) (q : Queues) (d : Driver)
    → Agrees q d
    → replies env d ts ≡ fifo_replies env q ts
unfolding replies fifo_replies written reply_to_client_request resolve_client_reply
    handled_or_queued take_reply queue_client_reply ◌>>=◌
replies-Queues env [] q d h = refl
replies-Queues env (queued method reply ∷ ts) q d h =
    replies-Queues env ts _ _ (change_at-Agrees method (λ queue. queue ++ reply ∷ []) q d h)
replies-Queues env (asked req ∷ ts) q d h =
    asked-Queues env (env.client_handler req) req ts q d h
      (λ q' d' h'. replies-Queues env ts q' d' h')
