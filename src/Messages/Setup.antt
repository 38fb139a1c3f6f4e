-- ===== src/Messages/Setup.antt =====
-- llmsh/src/messages.rs, `init_client`: what a session rests on.
use llmsh.Base.{ℕ, ◌∷◌, codes, ok, ok-injective, ◌≡◌, sym, ap, ◌∙◌}
use llmsh.Text.{Text}
use llmsh.Effects.{bind-ok}
use llmsh.Outside.{
  Outside, History, answer, received, Request, Response, setup_success, command_response,
  create_socket, set_linger, connect, read_env,
}
use llmsh.Messages.{
  send_msg, session_of, setup_session, init_client, alive_msg, alive_resp, hermitd_endpoint,
  hermitd_api_version,
}
use llmsh.Messages.Protocol.{exchanged, attempt-ok, send_msg-ok}

module _ (o : Outside) where
  session_of-ok :
      (reply : Response) (h h' : History) (session : ℕ × Text)
      → session_of o reply h ≡ (ok session, h')
      → (reply ≡ setup_success session.0 session.1) × (h' ≡ h)
  unfolding session_of
  session_of-ok (setup_success session_id motd) h h' session e = (
    ap (λ (s : ℕ × Text). setup_success s.0 s.1) (ok-injective (ap (λ r. r.0) e)),
    sym (ap (λ r. r.1) e),
  )
  session_of-ok (command_response full_response commands) h h' session e = cc
  session_of-ok (Response.error status) h h' session e = cc
  session_of-ok Response.success h h' session e = cc

  -- The calls of a client that is connected, and has read the user's name.
  abbrev pub connected : History → History
  connected h =
      read_env (codes "USER") ∷ connect hermitd_endpoint ∷ set_linger 1000 ∷ create_socket ∷ h

  -- A client comes back only if the socket was created and connected to hermitd's endpoint, hermitd
  -- acknowledged that it is alive, and then answered a request for a set-up, with the name of the user in
  -- `$USER` and the version of the interface, with this session and message; and nothing else was done.
  pub init_client-ok :
      (h h' : History) (session : ℕ × Text)
      → init_client o h ≡ (ok session, h')
      → (user json answer_json : Text) × (o.on_create_socket (create_socket ∷ h) ≡ answer tt)
        × (o.on_connect (connect hermitd_endpoint ∷ set_linger 1000 ∷ create_socket ∷ h)
            ≡ answer tt)
        × (o.on_read_env (connected h) ≡ answer user)
        × (o.on_recv (exchanged alive_msg 500 (connected h)) ≡ received alive_resp)
        × (o.to_json (Request.setup user hermitd_api_version) ≡ answer json)
        × (h' ≡ exchanged json 1000 (exchanged alive_msg 500 (connected h)))
        × (o.on_recv h' ≡ received answer_json)
        × (o.from_json answer_json ≡ answer (setup_success session.0 session.1))
  unfolding init_client setup_session
  init_client-ok h h' session e =
      let (_, created, e1) = attempt-ok (o.on_create_socket (create_socket ∷ h)) _ _ _ e in
      let (_, _, e2) =
        attempt-ok (o.on_set_linger (set_linger 1000 ∷ create_socket ∷ h)) _ _ _ e1 in
      let (_, is_connected, e3) = attempt-ok (o.on_connect _) _ _ _ e2 in
      let (user, named, e4) = attempt-ok (o.on_read_env (connected h)) _ _ _ e3 in
      let (reply, h1, sent, e5) =
        bind-ok (send_msg o (Request.setup user hermitd_api_version) 1000) (session_of o) _ e4 in
      let (json, answer_json, is_json, alive, after, got, is_reply) =
        send_msg-ok o _ 1000 (connected h) h1 reply sent in
      let (same, last) = session_of-ok reply h1 h' session e5 in
      (
        user,
        json,
        answer_json,
        created,
        is_connected,
        named,
        alive,
        is_json,
        last ∙ after,
        ap (λ h. o.on_recv h) last ∙ got,
        is_reply ∙ ap answer same,
      )
