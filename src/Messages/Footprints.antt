-- ===== src/Messages/Footprints.antt =====
-- llmsh/src/messages.rs: the effects that a request adds to the history, whatever the outside answers.
use llmsh.Base.{
  ℕ, List, [], ◌∷◌, ◌++◌, Option, All, ◌≡◌, ◌⊎◌, refl, sym, ap, ◌∙◌, arith, append_assoc, inl, inr,
  codes,
}
use llmsh.Text.{Text}
use llmsh.Effects.{Method, ◌>>=◌}
use llmsh.Effects.Contracts.{Goes, Goes-bind}
use llmsh.Outside.{
  Outside, History, Effect, Answer, answer, failure, send, set_rcvtimeo, recv_string,
  ShellOutputType, Request, Response, setup_success, command_response, error, success,
}
use llmsh.Messages.{
  map_err, call, alive_msg, send_str, is_alive, send_msg, saved_of, generated_of, save_context,
  generate_command,
}
use llmsh.Messages.Protocol.{send_str-history}

module _ (P : Effect → Type 0) where
  -- All that was added has the property.
  abbrev pub Adds : History → History → Type 0
  Adds h h' = (new : List Effect) × All P new × (h' ≡ new ++ h)

  pub Adds-nothing : (h : History) → Adds h h
  Adds-nothing h = ([], tt, refl)

  All-append : (new more : List Effect) → All P new → All P more → All P (new ++ more)
  All-append [] more a b = b
  All-append (e ∷ new) more (p, a) b = (p, All-append new more a b)

  pub Adds-then : (h h1 h2 : History) → Adds h h1 → Adds h1 h2 → Adds h h2
  Adds-then h h1 h2 (new, are, is) (more, are', is') = (
    more ++ new,
    All-append more new are' are,
    is' ∙ ap (λ t. more ++ t) is ∙ sym (append_assoc more new h),
  )

  pub Adds-bind :
      {A B : Type 0} (m : Method History A) (f : A → Method History B)
      → Goes Adds m
      → ((a : A) → Goes Adds (f a))
      → Goes Adds (m >>= f)
  Adds-bind m f = Goes-bind Adds m f Adds-then

  pub Adds-call : {A : Type 0} (e : Effect) (on : History → A) → P e → Goes Adds (call e on)
  Adds-call e on p h = (e ∷ [], (p, tt), refl)

  pub Adds-map_err : {A : Type 0} (a : Answer A) (msg : Text) → Goes Adds (map_err a msg)
  unfolding map_err
  Adds-map_err (answer a) msg h = Adds-nothing h
  Adds-map_err (failure e) msg h = Adds-nothing h

-- The session that a request belongs to; the set-up is for none.
abbrev pub InSession : ℕ → Request → Type 0
InSession session_id (Request.setup user api_version) = ⊥
InSession session_id (Request.generate_command n prompt) = n ≡ session_id
InSession session_id (Request.save_context n context_type context) = n ≡ session_id
InSession session_id (Request.exit n) = n ≡ session_id

module _ (o : Outside) where
  -- A message of a session: the question whether hermitd is alive, or the JSON of one of its requests.
  abbrev pub IsMessage : ℕ → Text → Type 0
  IsMessage session_id msg =
      (msg ≡ alive_msg)
      ⊎ ((request : Request) × InSession session_id request × (o.to_json request ≡ answer msg))

  -- A property of effects that an exchange with hermitd has.
  pub record AllowsMessages (P : Effect → Type 0) (session_id : ℕ) : Type 0 where
    pub sends : (msg : Text) → IsMessage session_id msg → P (send msg)
    pub sets_time : (n : ℕ) → P (set_rcvtimeo n)
    pub receives : P recv_string

  module _ (P : Effect → Type 0) (session_id : ℕ) (allows : AllowsMessages P session_id) where
    Adds-at : (h h' h1 : History) → h' ≡ h1 → Adds P h h1 → Adds P h h'
    Adds-at h h' h1 is (new, are, same) = (new, are, is ∙ same)

    Adds-send_str :
        (msg : Text) (timeout : ℕ)
        → IsMessage session_id msg
        → Goes (Adds P) (send_str o msg timeout)
    Adds-send_str msg timeout is h =
        let p = allows.sends msg is in
        let q = allows.sets_time timeout in
        elim (send_str-history o msg timeout h) [
          | inl sent ↦ (send msg ∷ [], (p, tt), sent)
          | inr (inl timed) ↦ (set_rcvtimeo timeout ∷ send msg ∷ [], (q, (p, tt)), timed)
          | inr (inr heard) ↦ (
            recv_string ∷ set_rcvtimeo timeout ∷ send msg ∷ [],
            (allows.receives, (q, (p, tt))),
            heard,
          )
        ]

    is_alive-history : (h : History) → (is_alive o h).1 ≡ (send_str o alive_msg 500 h).1
    unfolding is_alive
    is_alive-history h = ground arith

    Adds-is_alive : Goes (Adds P) (is_alive o)
    Adds-is_alive h =
        Adds-at h (is_alive o h).1 (send_str o alive_msg 500 h).1 (is_alive-history h)
          (Adds-send_str alive_msg 500 (inl refl) h)

    Adds-converted :
        (request : Request) (timeout : ℕ) (a : Answer Text)
        → InSession session_id request
        → o.to_json request ≡ a
        → Goes (Adds P) (
            map_err a (codes "Failed to convert request object to json") >>= λ json.
            send_str o json timeout >>= λ reply.
            map_err
              (o.from_json reply)
              (codes "Failed to convert received json string to response object"))
    unfolding map_err
    Adds-converted request timeout (failure e) ours is h = Adds-nothing P h
    Adds-converted request timeout (answer json) ours is h =
        Adds-bind P (send_str o json timeout)
          (λ reply.
            map_err (o.from_json reply)
              (codes "Failed to convert received json string to response object"))
          (Adds-send_str json timeout (inr (request, ours, is)))
          (λ reply. Adds-map_err P (o.from_json reply) _) h

    pub Adds-send_msg :
        (request : Request) (timeout : ℕ)
        → InSession session_id request
        → Goes (Adds P) (send_msg o request timeout)
    unfolding send_msg
    Adds-send_msg request timeout ours =
        Adds-bind P (is_alive o) _ Adds-is_alive
          (λ _. Adds-converted request timeout (o.to_json request) ours refl)

    Adds-saved_of : (reply : Response) → Goes (Adds P) (saved_of o reply)
    unfolding saved_of
    Adds-saved_of success h = Adds-nothing P h
    Adds-saved_of (error status) h = Adds-nothing P h
    Adds-saved_of (setup_success n motd) h = Adds-nothing P h
    Adds-saved_of (command_response r commands) h = Adds-nothing P h

    Adds-generated_of : (reply : Response) → Goes (Adds P) (generated_of o reply)
    unfolding generated_of
    Adds-generated_of success h = Adds-nothing P h
    Adds-generated_of (error status) h = Adds-nothing P h
    Adds-generated_of (setup_success n motd) h = Adds-nothing P h
    Adds-generated_of (command_response r commands) h = Adds-nothing P h

    pub Adds-save_context :
        (context_type : Option ShellOutputType) (context : Text)
        → Goes (Adds P) (save_context o session_id context_type context)
    unfolding save_context
    Adds-save_context context_type context =
        Adds-bind P (send_msg o (Request.save_context session_id context_type context) 1000)
          (saved_of o) (Adds-send_msg _ 1000 refl) Adds-saved_of

    pub Adds-generate_command :
        (prompt : Text) → Goes (Adds P) (generate_command o session_id prompt)
    unfolding generate_command
    Adds-generate_command prompt =
        Adds-bind P (send_msg o (Request.generate_command session_id prompt) 10000) (generated_of o)
          (Adds-send_msg (Request.generate_command session_id prompt) 10000 refl) Adds-generated_of
