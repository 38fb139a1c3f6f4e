-- ===== src/Messages/Protocol.antt =====
-- The protocol of a request: first the question whether hermitd is alive, then the request.
use llmsh.Base.{
  ℕ, [], ◌∷◌, codes, hermit_busy, hermit_dead, ok, err, bytes_eq, eq_of_bytes_eq, ◌≡◌, ◌≢◌, refl,
  sym, ap, ◌∙◌, ◌⊎◌, arith,
}
use llmsh.Text.{Text}
use llmsh.Effects.{Method, ◌>>=◌, bind-ok, bind-stop}
use llmsh.Outside.{
  Outside, History, send, set_rcvtimeo, recv_string, Answer, answer, failure, again, received,
  Request, Response,
}
use llmsh.Messages.{alive_msg, alive_resp, busy_resp, send_str, is_alive, send_msg, map_err}

-- The history after a whole exchange.
abbrev pub exchanged : Text → ℕ → History → History
exchanged msg timeout h = recv_string ∷ set_rcvtimeo timeout ∷ send msg ∷ h

pub map_err-ok :
    {A : Type 0} (a : Answer A) (msg : Text) (h : History) {b : A} {h' : History}
    → map_err a msg h ≡ (ok b, h')
    → (a ≡ answer b) × (h' ≡ h)
unfolding map_err
map_err-ok (answer a) msg h e = (cc, cc)
map_err-ok (failure t) msg h e = cc

-- A call that has to succeed, and what is done with its answer.
pub attempt-ok :
    {S A B : Type 0} (a : Answer A) (msg : Text) (f : A → Method S B) (s : S) {b : B} {s' : S}
    → (map_err a msg >>= f) s ≡ (ok b, s')
    → (x : A) × (a ≡ answer x) × (f x s ≡ (ok b, s'))
unfolding map_err
attempt-ok (answer x) msg f s e = (x, refl, e)
attempt-ok (failure t) msg f s e = cc

module _ (o : Outside) where
  -- A string comes back exactly after a whole exchange that ends in that string.
  send_str-ok :
      (msg : Text) (timeout : ℕ) (h h' : History) (s : Text)
      → send_str o msg timeout h ≡ (ok s, h')
      → (h' ≡ exchanged msg timeout h) × (o.on_recv h' ≡ received s)
  unfolding send_str
  send_str-ok msg timeout h h' s e = ground arith

  -- Every history after an exchange is one that broke off at some call.
  pub send_str-history :
      (msg : Text) (timeout : ℕ) (h : History)
      → let h' = (send_str o msg timeout h).1 in
        (h' ≡ send msg ∷ h)
        ⊎ (h' ≡ set_rcvtimeo timeout ∷ send msg ∷ h)
        ⊎ (h' ≡ exchanged msg timeout h)
  unfolding send_str
  send_str-history msg timeout h = ground arith

  -- The string that hermitd answers, if it does.
  abbrev heard : History → Text
  heard h = elim (o.on_recv (exchanged alive_msg 500 h)) [ received s ↦ s | _ ↦ [] ]

  pub is_alive-ok :
      (h h' : History)
      → is_alive o h ≡ (ok tt, h')
      → (h' ≡ exchanged alive_msg 500 h) × (o.on_recv h' ≡ received alive_resp)
  unfolding is_alive
  is_alive-ok h h' e = ground (arith, eq_of_bytes_eq (heard h) alive_resp)

  pub is_alive-history :
      (h : History)
      → let h' = (is_alive o h).1 in
        (h' ≡ send alive_msg ∷ h)
        ⊎ (h' ≡ set_rcvtimeo 500 ∷ send alive_msg ∷ h)
        ⊎ (h' ≡ exchanged alive_msg 500 h)
  unfolding is_alive
  is_alive-history h = ground arith

  is_alive-refused :
      (h : History)
      → o.on_recv (exchanged alive_msg 500 h) ≢ received alive_resp
      → (a : Unit {0}) → (is_alive o h).0 ≢ ok a
  is_alive-refused h no_ack a e =
      let (after, acknowledged) = is_alive-ok h (is_alive o h).1 (λ i. (e i, (is_alive o h).1)) in
      no_ack (ap (λ t. o.on_recv t) (sym after) ∙ acknowledged)

  pub send_msg_eq :
      (msg : Request) (timeout : ℕ) (h : History)
      → send_msg o msg timeout h
        ≡ (is_alive o >>= λ _.
              map_err (o.to_json msg) (codes "Failed to convert request object to json") >>= λ json.
              send_str o json timeout >>= λ reply.
              map_err
                (o.from_json reply)
                (codes "Failed to convert received json string to response object"))
            h
  unfolding send_msg
  send_msg_eq msg timeout h = refl

  -- A response is returned only after two whole exchanges: hermitd acknowledged that it is alive, then
  -- the request's JSON was sent, and the response is what the answer's JSON says.
  pub send_msg-ok :
      (msg : Request) (timeout : ℕ) (h h' : History) (reply : Response)
      → send_msg o msg timeout h ≡ (ok reply, h')
      → (json answer_json : Text) × (o.to_json msg ≡ answer json)
        × (o.on_recv (exchanged alive_msg 500 h) ≡ received alive_resp)
        × (h' ≡ exchanged json timeout (exchanged alive_msg 500 h))
        × (o.on_recv h' ≡ received answer_json)
        × (o.from_json answer_json ≡ answer reply)
  send_msg-ok msg timeout h h' reply e =
      let (_, h1, alive, rest) = bind-ok (is_alive o) _ h (sym (send_msg_eq msg timeout h) ∙ e) in
      let (json, h2, encoded, rest') = bind-ok (map_err (o.to_json msg) _) _ h1 rest in
      let (answer_json, h3, sent, decoded) = bind-ok (send_str o json timeout) _ h2 rest' in
      let (after_alive, acknowledged) = is_alive-ok h h1 alive in
      let (is_json, same) = map_err-ok (o.to_json msg) _ h1 encoded in
      let (after_reply, got) = send_str-ok json timeout h2 h3 answer_json sent in
      let (is_reply, same') = map_err-ok (o.from_json answer_json) _ h3 decoded in
      (json, answer_json, is_json, cc, cc, cc, is_reply)

  -- Unless hermitd acknowledges, nothing of the request is sent: the history grows by calls of the
  -- first exchange alone.
  pub send_msg-unacknowledged :
      (msg : Request) (timeout : ℕ) (h : History)
      → o.on_recv (exchanged alive_msg 500 h) ≢ received alive_resp
      → let h' = (send_msg o msg timeout h).1 in
        (h' ≡ send alive_msg ∷ h)
        ⊎ (h' ≡ set_rcvtimeo 500 ∷ send alive_msg ∷ h)
        ⊎ (h' ≡ exchanged alive_msg 500 h)
  send_msg-unacknowledged msg timeout h no_ack =
      rw (send_msg_eq msg timeout h, bind-stop (is_alive o) _ h (is_alive-refused h no_ack))
        (is_alive-history h)

  -- If the question is sent and the timeout set, and no answer comes in time, hermitd is reported as
  -- dead, and nothing but that exchange was done.
  pub send_msg-dead :
      (msg : Request) (timeout : ℕ) (h : History)
      → o.on_send (send alive_msg ∷ h) ≡ answer tt
      → o.on_set_rcvtimeo (set_rcvtimeo 500 ∷ send alive_msg ∷ h) ≡ answer tt
      → o.on_recv (exchanged alive_msg 500 h) ≡ again
      → send_msg o msg timeout h ≡ (err hermit_dead, exchanged alive_msg 500 h)
  unfolding send_msg bytes_eq
  send_msg-dead msg timeout h sent timed silent = rw (sent, timed, silent) refl

  -- If the question is sent and the timeout set, and the answer is `Busy`, hermitd is reported as busy,
  -- and nothing but that exchange was done.
  pub send_msg-busy :
      (msg : Request) (timeout : ℕ) (h : History)
      → o.on_send (send alive_msg ∷ h) ≡ answer tt
      → o.on_set_rcvtimeo (set_rcvtimeo 500 ∷ send alive_msg ∷ h) ≡ answer tt
      → o.on_recv (exchanged alive_msg 500 h) ≡ received busy_resp
      → send_msg o msg timeout h ≡ (err hermit_busy, exchanged alive_msg 500 h)
  unfolding send_msg bytes_eq
  send_msg-busy msg timeout h sent timed busy = rw (sent, timed, busy) refl
