-- ===== src/Main/Calls.antt =====
-- llmsh/src: the calls of `main` in the process that stays, as to panics.
use llmsh.Base.{ℕ, ◌∷◌, some, true, ok, is_calm, codes, ◌≡◌, refl, arith}
use llmsh.Text.{Text}
use llmsh.Effects.{Method, ◌>>=◌}
use llmsh.Outside.{
  create_socket, set_linger, connect, new_poll, set_nonblocking, register, Response, Outside,
  Platform, History, Answer, answer, failure, Termios, WinSize, get_size, read_env, watch_signals,
  spawn_thread,
}
use llmsh.Messages.{send_msg, hermitd_endpoint, init_client, setup_session, session_of, map_err}
use llmsh.Messages.Calm.{calm-bind, calm-send_msg}
use llmsh.Pty.{
  parent_tok, stdin_tok, set_raw_mode, setup_parent_pty, sync_terminal_size, restore_terminal,
  setup_signal_handlers, handled_signals, ignore, ignored, open_pty,
}
use llmsh.Shell.Hermit.{hermit_print}

-- A call that may fail, and what is done with its answer.
calm-attempt :
    {S A B : Type 0} (a : Answer A) (msg : Text) (f : A → Method S B) (s : S)
    → ((x : A) → is_calm (f x s).0 ≡ true)
    → is_calm (llmsh.Effects.◌>>=◌ (map_err a msg) f s).0 ≡ true
unfolding map_err
calm-attempt (answer x) msg f s calm = calm x
calm-attempt (failure e) msg f s calm = refl

module _ (o : Outside) where
  session_of-calm : (reply : Response) (h : History) → is_calm (session_of o reply h).0 ≡ true
  unfolding session_of
  session_of-calm reply h = ground arith

  setup_session-calm : (h : History) → is_calm (setup_session o h).0 ≡ true
  unfolding setup_session
  setup_session-calm h = calm-attempt (o.on_read_env (read_env (codes "USER") ∷ h)) _ _ _ (λ user.
      calm-bind (send_msg o _ 1000) (session_of o) _ (calm-send_msg o _ 1000 _) (session_of-calm))

  pub init_client-calm : (h : History) → is_calm (init_client o h).0 ≡ true
  unfolding init_client
  init_client-calm h = calm-attempt (o.on_create_socket (create_socket ∷ h)) _ _ _ (λ _.
      calm-attempt (o.on_set_linger (set_linger 1000 ∷ _)) _ _ _ (λ _.
        calm-attempt (o.on_connect (connect hermitd_endpoint ∷ _)) _ _ _
          (λ _. setup_session-calm _)))

pub hermit_print-calm :
    (o : Outside) (message : Text) (h : History) → is_calm (hermit_print o message h).0 ≡ true
unfolding hermit_print
hermit_print-calm o message h = ground arith

module _ (s : Platform) where
  pub open_pty-calm : (h : History) → is_calm (open_pty s h).0 ≡ true
  unfolding open_pty
  open_pty-calm h = ground arith

  pub set_raw_mode-calm : (fd : ℕ) (h : History) → is_calm (set_raw_mode s fd h).0 ≡ true
  unfolding set_raw_mode
  set_raw_mode-calm fd h = ground arith

  pub restore_terminal-calm :
      (fd : ℕ) (original : Termios) (h : History)
      → is_calm (restore_terminal s fd original h).0 ≡ true
  unfolding restore_terminal
  restore_terminal-calm fd original h = ground arith

  -- What follows an error is dropped with it.
  ignored-attempt :
      {A B : Type 0} (a : Answer A) (msg : Text) (f : A → Method History B) (h : History)
      → ((x : A) → ignored (f x h).0 ≡ ok tt)
      → ignored ((map_err a msg >>= f) h).0 ≡ ok tt
  unfolding map_err
  ignored-attempt (answer x) msg f h rest = rest x
  ignored-attempt (failure e) msg f h rest = refl

  pub setup_signal_handlers-ok :
      (h : History)
      → ((h : History) → s.on_spawn_thread h ≡ some tt)
      → (ignore (setup_signal_handlers s) h).0 ≡ ok tt
  unfolding setup_signal_handlers
  setup_signal_handlers-ok h spawns =
      ignored-attempt (s.on_watch_signals (watch_signals handled_signals ∷ h)) _ _ _
        (λ _. rw (spawns (spawn_thread ∷ watch_signals handled_signals ∷ h)) refl)

  pub setup_parent_pty-calm :
      (parent_fd fd : ℕ) (h : History)
      → ((h : History) → (ws : WinSize) × (s.on_get_size h ≡ some ws))
      → ((h : History) → s.on_set_size h ≡ true)
      → is_calm (setup_parent_pty s parent_fd fd h).0 ≡ true
  unfolding setup_parent_pty
  setup_parent_pty-calm parent_fd fd h gets sets =
      calm-attempt (s.on_new_poll (new_poll ∷ h)) _ _ _ (λ _.
        calm-attempt (s.on_set_nonblocking (set_nonblocking parent_fd ∷ _)) _ _ _ (λ _.
          calm-attempt (s.on_set_nonblocking (set_nonblocking fd ∷ _)) _ _ _ (λ _.
            calm-attempt (s.on_register (register parent_fd parent_tok ∷ _)) _ _ _
              (λ _. calm-attempt (s.on_register (register fd stdin_tok ∷ _)) _ _ _ (λ _. sync _)))))
    where
      sync : (h : History) → is_calm (sync_terminal_size s parent_fd fd h).0 ≡ true
      sync h = let (ws, got) = gets (get_size fd ∷ h) in rw (sync_terminal_size, got, sets) refl
