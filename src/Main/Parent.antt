-- ===== src/Main/Parent.antt =====
-- llmsh/src/main.rs, `main` in the process that stays: what its exit code means, and the terminal after it.
use llmsh.Base.{
  ℕ, true, Outcome, ok, err, panicked, exhausted, is_calm, ◌∷◌, ◌++◌, codes, display, Error, ◌≡◌,
  refl, ap, ◌∙◌, arith,
}
use llmsh.Text.{Text, into_bytes}
use llmsh.Outside.{
  Outside, Platform, History, answer, Termios, write_stdout, set_attributes, get_attributes,
}
use llmsh.Messages.{init_client, exit}
use llmsh.Messages.Closing.{Closes, exit-Closes}
use llmsh.Shell.Hermit.{hermit_print}
use llmsh.Pty.{setup_signal_handlers, ignore, set_raw_mode, setup_parent_pty, restore_terminal}
use llmsh.Pty.Terminals.{attributes, restore_terminal-set_raw_mode}
use llmsh.Shell.Start.{Bash, create_bash_proxy}
use llmsh.Shell.Proxy.{ShellProxy}
use llmsh.MainLoop.{safe_handle_terminal}
use llmsh.Main.{
  Progress, exited, process_exit, Process, ◌>>=◌, ◌>>◌, close_down, run_terminal, run_parent,
  stdin_fd, report, expected,
}
use llmsh.Main.Following.{expected-then, settled-then}

module _ (s : Platform) (o : Outside) where
  -- A run of the process that ended with code 0.
  pub record Completed (fuel : ℕ) (b : Bash) (parent_fd : ℕ) (h h' : History) : Type 0 where
    pub session_id : ℕ
    pub motd : Text
    pub h_client : History
    pub client : init_client o h ≡ ((ok (session_id, motd)), h_client)
    pub h_polled : History
    pub h_raw : History
    pub polled :
        (before : History) × (setup_parent_pty s parent_fd stdin_fd before ≡ (ok tt, h_polled))
    pub original : Termios
    pub raw : set_raw_mode s stdin_fd h_polled ≡ (ok original, h_raw)
    pub h_proxy : History
    pub proxy : ShellProxy
    pub created : create_bash_proxy b h_proxy session_id ≡ ok proxy
    pub last : ShellProxy
    pub ended : safe_handle_terminal o fuel proxy ≡ (ok tt, last)
    pub h_closed : History
    pub closed : Closes o session_id last.history h_closed
    pub restored : restore_terminal s stdin_fd original h_closed ≡ (ok tt, h')

  report-err :
      (x : Error) (f : ℕ → Process (Unit {0})) (h h' : History)
      → (report s o (err x) >>= f) h ≡ (exited 0, h')
      → (h1 : History) × (f 1 h1 ≡ (exited 0, h'))
  report-err x f h h' e = ((report s o (err x) h).1, ground arith)

  close_down-zero :
      (session_id : ℕ) (original : Termios) (result : Outcome (Unit {0})) (h h' : History)
      → close_down s o session_id original result h ≡ (exited 0, h')
      → (result ≡ ok tt)
        × (restore_terminal s stdin_fd original (exit o session_id h) ≡ (ok tt, h'))
  unfolding close_down
  close_down-zero session_id original (ok _) h h' e =
      let (_, h1, restored, rest) =
        expected-then o (restore_terminal s stdin_fd original) (λ _. process_exit 0)
          (exit o session_id h) h' (exited 0) (codes "Failed to restore terminal") refl e in
      (refl, restored ∙ ap (λ (r : Progress (Unit {0}) × History). (ok tt, r.1)) rest)
  close_down-zero session_id original (err x) h h' e =
      let (h1, rest) = report-err x _ h h' e in
      let (_, h2, _, ended) =
        expected-then o (restore_terminal s stdin_fd original) (λ _. process_exit 1)
          (exit o session_id h1) h' (exited 0) (codes "Failed to restore terminal") refl rest in
      let one : exited 1 ≡ exited 0 = ap (λ (r : Progress (Unit {0}) × History). r.0) ended in cc
  close_down-zero session_id original panicked h h' e = cc
  close_down-zero session_id original exhausted h h' e = cc

  run_parent-Completed :
      (fuel : ℕ) (b : Bash) (parent_fd : ℕ) (h h' : History)
      → run_parent s o fuel b parent_fd h ≡ (exited 0, h')
      → Completed fuel b parent_fd h h'
  unfolding run_parent run_terminal
  run_parent-Completed fuel b parent_fd h h' e =
      let ((session_id, motd), h_client, client, e1) =
        expected-then o (init_client o) _ h h' (exited 0) _ refl e in
      let (_, h_greeted, _, e2) =
        expected-then o (hermit_print o motd) _ h_client h' (exited 0) _ refl e1 in
      let (_, h_polled, polled, e3) =
        expected-then o (setup_parent_pty s parent_fd stdin_fd) _ h_greeted h' (exited 0) _ refl
          e2 in
      let (original, h_raw, raw, e4) =
        expected-then o (set_raw_mode s stdin_fd) _ h_polled h' (exited 0) _ refl e3 in
      let (_, h_proxy, _, e5) =
        settled-then o (ignore (setup_signal_handlers s)) _ h_raw h' (exited 0) refl e4 in
      let (proxy, h_ready, created, e6) =
        settled-then o (λ h. (create_bash_proxy b h session_id, h)) _ h_proxy h' (exited 0) refl
          e5 in
      let (ended, restored) =
        close_down-zero session_id original (safe_handle_terminal o fuel proxy).0
          (safe_handle_terminal o fuel proxy).1.history h' e6 in
      record {
        session_id = session_id;
        motd = motd;
        h_client = h_client;
        client = client;
        h_polled = h_polled;
        h_raw = h_raw;
        polled = (h_greeted, polled);
        original = original;
        raw = raw;
        h_proxy = h_proxy;
        proxy = proxy;
        created = ap (λ r. r.0) created;
        last = (safe_handle_terminal o fuel proxy).1;
        ended = λ i. (ended i, (safe_handle_terminal o fuel proxy).1);
        h_closed = exit o session_id (safe_handle_terminal o fuel proxy).1.history;
        closed = exit-Closes o session_id (safe_handle_terminal o fuel proxy).1.history;
        restored = restored;
      }

  -- If tcgetattr reports the standard input's attributes as the calls so far have left them, and the
  -- process that stays exits with 0, then its loop, on the proxy created for hermitd's session, had returned
  -- with no error, after that hermitd was asked whether it is alive, and if it acknowledged it was
  -- sent the JSON of the request to end the session, unless there is none, and in the end the standard input has again the
  -- attributes from just before raw mode.
  pub run_parent-zero :
      (t : ℕ → Termios) (fuel : ℕ) (b : Bash) (parent_fd : ℕ) (h h' : History)
      → ((h : History)
          → s.on_get_attributes (get_attributes stdin_fd ∷ h) ≡ answer (attributes s t h stdin_fd))
      → run_parent s o fuel b parent_fd h ≡ (exited 0, h')
      → (run : Completed fuel b parent_fd h h') × (attributes s t h' stdin_fd
          ≡ attributes s t run.h_polled stdin_fd)
  run_parent-zero t fuel b parent_fd h h' reported e =
      let run = run_parent-Completed fuel b parent_fd h h' e in
      (
        run,
        (restore_terminal-set_raw_mode s t stdin_fd run.h_polled run.h_raw run.h_closed h'
            run.original (reported run.h_polled) run.raw run.restored).2,
      )

  -- What the loop's result makes of the exit code.
  abbrev pub code_of : Outcome (Unit {0}) → ℕ
  code_of (ok _) = 0
  code_of _ = 1

  restoring :
      (t : ℕ → Termios) (original : Termios) (code : ℕ) (h : History)
      → ((h : History) → s.on_set_attributes h ≡ answer tt)
      → let r : Progress (Unit {0}) × History =
          (expected o (codes "Failed to restore terminal") (restore_terminal s stdin_fd original)
              >> process_exit code)
            h in
        (r.0 ≡ exited code)
        × (r.1 ≡ set_attributes stdin_fd original ∷ h)
        × (attributes s t r.1 stdin_fd ≡ original)
  unfolding expected restore_terminal attributes
  restoring t original code h sets =
      rw (sets (set_attributes stdin_fd original ∷ h))
        (refl, refl, rw (sets (set_attributes stdin_fd original ∷ h)) refl)

  -- The history with the message that tells the user of an error.
  abbrev pub told_user : Outcome (Unit {0}) → History → History
  told_user (err x) h =
      write_stdout (into_bytes (codes "Exiting due to:\r\n  " ++ display x ++ codes "\r\n")) ∷ h
  told_user _ h = h

  -- When the loop has returned, with or without an error, and messages can be printed and tcsetattr works,
  -- the process writes the error's message, and nothing without one; then hermitd is asked whether it is
  -- alive, and if it acknowledges it is sent the JSON of the request to end the session, unless there is
  -- none; and last the process sets the terminal's attributes back and exits, with 0 if there was no
  -- error and with 1 if there was.
  pub close_down-exits :
      (t : ℕ → Termios) (session_id : ℕ) (original : Termios) (result : Outcome (Unit {0}))
      (h : History)
      → is_calm result ≡ true
      → ((h : History) → o.on_write h ≡ answer tt)
      → ((h : History) → s.on_set_attributes h ≡ answer tt)
      → let r = close_down s o session_id original result h in
        (h_closed : History) × (r.0 ≡ exited (code_of result))
        × Closes o session_id (told_user result h) h_closed
        × (r.1 ≡ set_attributes stdin_fd original ∷ h_closed)
        × (attributes s t r.1 stdin_fd ≡ original)
  unfolding close_down attributes
  close_down-exits t session_id original (ok a) h calm prints sets =
      let (code, last, at_end) = restoring t original 0 (exit o session_id h) sets in
      (exit o session_id h, code, exit-Closes o session_id h, last, at_end)
  close_down-exits t session_id original (err x) h calm prints sets =
      let h1 = told_user (err x) h in
      let (code, last, at_end) = restoring t original 1 (exit o session_id h1) sets in
      rw (prints h1) (exit o session_id h1, code, exit-Closes o session_id h1, last, at_end)
  close_down-exits t session_id original panicked h calm prints sets = cc
  close_down-exits t session_id original exhausted h calm prints sets = cc
