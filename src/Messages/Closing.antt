-- ===== src/Messages/Closing.antt =====
-- messages.rs, `HermitdClient::exit`: the request that ends a session, whose result is dropped.
use llmsh.Base.{
  ℕ, ◌∷◌, codes, Outcome, ok, err, panicked, exhausted, ◌≢◌, ◌≡◌, ◌⊎◌, refl, sym, bytes_eq,
}
use mathlib.Core.Path.{subst}
use llmsh.Text.{Text}
use llmsh.Effects.{Method, ◌>>=◌, proceed, bind-stop}
use llmsh.Outside.{
  Outside, History, Answer, answer, failure, received, send, set_rcvtimeo, Request, Response,
}
use llmsh.Messages.{alive_msg, alive_resp, is_alive, send_str, map_err, exit}
use llmsh.Messages.Protocol.{
  exchanged, is_alive-ok, is_alive-history, send_str-history, send_msg_eq,
}

-- An exchange that may have broken off at one of its calls.
abbrev pub IsAttempt : Text → ℕ → History → History → Type 0
IsAttempt msg timeout h h' =
    (h' ≡ send msg ∷ h)
    ⊎ (h' ≡ set_rcvtimeo timeout ∷ send msg ∷ h)
    ⊎ (h' ≡ exchanged msg timeout h)

module _ (o : Outside) where
  -- hermitd acknowledges that it is alive.
  abbrev pub Acknowledges : History → Type 0
  Acknowledges h =
      (o.on_send (send alive_msg ∷ h) ≡ answer tt)
      × (o.on_set_rcvtimeo (set_rcvtimeo 500 ∷ send alive_msg ∷ h) ≡ answer tt)
      × (o.on_recv (exchanged alive_msg 500 h) ≡ received alive_resp)

  -- hermitd was asked whether it is alive; and if it acknowledged, the JSON of the request to end the
  -- session was sent, unless there is no such JSON.
  pub data Closes (session_id : ℕ) (h h' : History) : Type 0 where
    told :
        (json : Text)
        → o.to_json (Request.exit session_id) ≡ answer json
        → IsAttempt json 2000 (exchanged alive_msg 500 h) h'
        → Closes session_id h h'
    not_acknowledged : ¬ Acknowledges h → IsAttempt alive_msg 500 h h' → Closes session_id h h'
    not_encoded :
        (e : Text)
        → o.to_json (Request.exit session_id) ≡ failure e
        → h' ≡ exchanged alive_msg 500 h
        → Closes session_id h h'

  is_alive-acknowledged : (h : History) → Acknowledges h → (is_alive o h).0 ≡ ok tt
  unfolding is_alive bytes_eq
  is_alive-acknowledged h (sent, timed, heard) = rw (sent, timed, heard) refl

  abbrev response_of : Text → Method History Response
  response_of reply =
      map_err (o.from_json reply)
        (codes "Failed to convert received json string to response object")

  abbrev requested : Answer Text → Method History Response
  requested encoded = map_err encoded (codes "Failed to convert request object to json") >>= λ json.
      send_str o json 2000 >>= response_of

  -- To read a response is no call.
  response_of-history : (r : Outcome Text × History) → (proceed r.0 response_of r.1).1 ≡ r.1
  unfolding map_err
  response_of-history (ok reply, h) = decoded (o.from_json reply)
    where
      decoded :
          (a : Answer Response)
          → (map_err a (codes "Failed to convert received json string to response object") h).1 ≡ h
      decoded (answer response) = refl
      decoded (failure e) = refl
  response_of-history (err e, h) = refl
  response_of-history (panicked, h) = refl
  response_of-history (exhausted, h) = refl

  Closes-requested :
      (session_id : ℕ) (h : History) (encoded : Answer Text)
      → o.to_json (Request.exit session_id) ≡ encoded
      → Closes session_id h (requested encoded (exchanged alive_msg 500 h)).1
  unfolding map_err
  Closes-requested session_id h (answer json) e = told json e (
      subst (IsAttempt json 2000 (exchanged alive_msg 500 h))
        (sym (response_of-history (send_str o json 2000 (exchanged alive_msg 500 h))))
        (send_str-history o json 2000 (exchanged alive_msg 500 h)))
  Closes-requested session_id h (failure x) e = not_encoded x e refl

  -- Without an acknowledgement the question is all that is sent.
  Closes-stopped :
      (session_id : ℕ) (h : History)
      → (is_alive o h).0 ≢ ok tt
      → Closes session_id h
          ((is_alive o >>= λ _. requested (o.to_json (Request.exit session_id))) h).1
  Closes-stopped session_id h refused =
      not_acknowledged (λ acknowledged. refused (is_alive-acknowledged h acknowledged))
        (subst (IsAttempt alive_msg 500 h)
          (sym (
            bind-stop (is_alive o) (λ _. requested (o.to_json (Request.exit session_id))) h
              (λ _. refused)))
          (is_alive-history o h))

  Closes-alive :
      (session_id : ℕ) (h : History) (alive : Outcome (Unit {0}))
      → (is_alive o h).0 ≡ alive
      → Closes session_id h
          ((is_alive o >>= λ _. requested (o.to_json (Request.exit session_id))) h).1
  Closes-alive session_id h (ok _) e =
      let (at_exchange, _) = is_alive-ok o h (is_alive o h).1 (λ i. (e i, (is_alive o h).1)) in
      subst
        (λ (r : Outcome (Unit {0}) × History).
          Closes session_id h
            (proceed r.0 (λ _. requested (o.to_json (Request.exit session_id))) r.1).1)
        (λ i. (sym e i, sym at_exchange i))
        (Closes-requested session_id h (o.to_json (Request.exit session_id)) refl)
  Closes-alive session_id h (err x) e = Closes-stopped session_id h (λ is. cc)
  Closes-alive session_id h panicked e = Closes-stopped session_id h (λ is. cc)
  Closes-alive session_id h exhausted e = Closes-stopped session_id h (λ is. cc)

  -- Whatever hermitd answers, `exit` asks it whether it is alive and sends the request with the
  -- session's number where that is acknowledged.
  pub exit-Closes : (session_id : ℕ) (h : History) → Closes session_id h (exit o session_id h)
  unfolding exit
  exit-Closes session_id h =
      subst (λ (r : Outcome Response × History). Closes session_id h r.1)
        (sym (send_msg_eq o (Request.exit session_id) 2000 h))
        (Closes-alive session_id h (is_alive o h).0 refl)
