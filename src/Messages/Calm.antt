-- ===== src/Messages/Calm.antt =====
-- Requests to hermitd, as to panics: whatever the outside answers.
use llmsh.Base.{ℕ, Option, true, Outcome, ok, err, panicked, exhausted, is_calm, ◌≡◌, refl, arith}
use llmsh.Text.{Text}
use llmsh.Effects.{Method, ◌>>=◌, proceed}
use llmsh.Outside.{Outside, History, Answer, answer, failure, Request, Response, ShellOutputType}
use llmsh.Messages.{
  send_str, is_alive, send_msg, map_err, saved_of, generated_of, save_context, generate_command,
}

module _ {S A B : Type 0} where
  pub calm-bind :
      (m : Method S A) (f : A → Method S B) (s : S)
      → is_calm (m s).0 ≡ true
      → ((a : A) (s1 : S) → is_calm (f a s1).0 ≡ true)
      → is_calm ((m >>= f) s).0 ≡ true
  calm-bind m f s h k = calm-proceed (m s).0 (m s).1 h
    where
      calm-proceed : (r : Outcome A) (s1 : S) → is_calm r ≡ true → is_calm (proceed r f s1).0 ≡ true
      calm-proceed (ok a) s1 h = k a s1
      calm-proceed (err e) s1 h = refl
      calm-proceed panicked s1 h = h
      calm-proceed exhausted s1 h = h

module _ (o : Outside) where
  pub calm-map_err :
      {S A : Type 0} (a : Answer A) (msg : Text) (s : S) → is_calm (map_err a msg s).0 ≡ true
  unfolding map_err
  calm-map_err (answer a) msg s = refl
  calm-map_err (failure e) msg s = refl

  calm-send_str :
      (msg : Text) (timeout : ℕ) (h : History) → is_calm (send_str o msg timeout h).0 ≡ true
  unfolding send_str
  calm-send_str msg timeout h = ground arith

  calm-is_alive : (h : History) → is_calm (is_alive o h).0 ≡ true
  unfolding is_alive
  calm-is_alive h = ground arith

  pub calm-send_msg :
      (msg : Request) (timeout : ℕ) (h : History) → is_calm (send_msg o msg timeout h).0 ≡ true
  unfolding send_msg
  calm-send_msg msg timeout h = ground arith

  calm-saved_of : (reply : Response) (h : History) → is_calm (saved_of o reply h).0 ≡ true
  unfolding saved_of
  calm-saved_of reply h = ground arith

  calm-generated_of : (reply : Response) (h : History) → is_calm (generated_of o reply h).0 ≡ true
  unfolding generated_of
  calm-generated_of reply h = ground arith

  pub calm-save_context :
      (session_id : ℕ) (context_type : Option ShellOutputType) (context : Text) (h : History)
      → is_calm (save_context o session_id context_type context h).0 ≡ true
  unfolding save_context
  calm-save_context session_id context_type context h =
      calm-bind (send_msg o _ 1000) (saved_of o) h (calm-send_msg _ 1000 h) (calm-saved_of)

  pub calm-generate_command :
      (session_id : ℕ) (prompt : Text) (h : History)
      → is_calm (generate_command o session_id prompt h).0 ≡ true
  unfolding generate_command
  calm-generate_command session_id prompt h =
      calm-bind (send_msg o _ 10000) (generated_of o) h (calm-send_msg _ 10000 h)
        (calm-generated_of)
