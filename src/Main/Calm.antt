-- ===== src/Main/Calm.antt =====
-- llmsh/src/main.rs, `main` in the process that stays, as to panics.
use llmsh.Base.{
  ℕ, ◌∷◌, ◌++◌, Option, none, some, true, Bool-cases, inl, inr, Outcome, ok, err, panicked,
  exhausted, is_calm, bytes_eq, eq_of_bytes_eq, codes, display, ◌≡◌, ◌≢◌, refl, ap, arith,
}
use llmsh.Text.{Text, into_bytes}
use llmsh.Effects.{Method}
use llmsh.Outside.{
  write_stdout, Outside, Platform, History, Answer, answer, failure, Termios, WinSize, ForkResult,
  parent, child, fork, read_env,
}
use llmsh.Messages.{init_client, exit}
use llmsh.Pty.{
  set_raw_mode, setup_parent_pty, restore_terminal, setup_signal_handlers, ignore, open_pty,
}
use llmsh.Shell.Hermit.{hermit_print}
use llmsh.Shell.Start.{
  Bash, get_shell, new_bash, shell_of, file_name, input_marker, output_marker, create_bash_proxy,
}
use llmsh.Shell.Launched.{IsUuid, get_shell-IsCoupled}
use llmsh.MainLoop.{safe_handle_terminal}
use llmsh.MainLoop.Safety.{IsPolled, safe_handle_terminal-safe}
use llmsh.Main.{
  crashed, Process, ◌>>=◌, follow, process_exit, close_down, run_terminal, run_parent, on_forked,
  main, stdin_fd, expect, expected, expect_answer, settled, exit_with,
}
use llmsh.Main.Calls.{
  hermit_print-calm, init_client-calm, open_pty-calm, restore_terminal-calm, set_raw_mode-calm,
  setup_parent_pty-calm, setup_signal_handlers-ok,
}

module _ {A B : Type 0} where
  -- A step is passed without a panic if its call is calm and what follows a value is.
  module _ (o : Outside) (prints : (h : History) → o.on_write h ≡ answer tt) where
    exit_with-safe :
        (text : Text) (f : A → Process B) (h : History) → ((exit_with o text >>= f) h).0 ≢ crashed
    exit_with-safe text f h e = ground (arith, prints (write_stdout (into_bytes text) ∷ h))

    expected-safe :
        (msg : Text) (m : Method History A) (f : A → Process B) (h : History)
        → is_calm (m h).0 ≡ true
        → ((a : A) → m h ≡ (ok a, (m h).1) → (f a (m h).1).0 ≢ crashed)
        → ((expected o msg m >>= f) h).0 ≢ crashed
    unfolding expected
    expected-safe msg m f h calm rest = of_outcome (m h).0 refl calm
      where
        of_outcome :
            (r : Outcome A)
            → (m h).0 ≡ r
            → is_calm r ≡ true
            → (follow (expect o msg r (m h).1).0 f (expect o msg r (m h).1).1).0 ≢ crashed
        of_outcome (ok a) e calm = rest a (λ i. (e i, (m h).1))
        of_outcome (err x) e calm =
            exit_with-safe (msg ++ codes ": " ++ display x ++ codes "\r\n") f (m h).1
        of_outcome panicked e calm = cc
        of_outcome exhausted e calm = cc

    expect_answer-safe :
        (msg : Text) (m : Answer A) (f : A → Process B) (h : History)
        → ((a : A) → m ≡ answer a → (f a h).0 ≢ crashed)
        → ((expect_answer o msg m >>= f) h).0 ≢ crashed
    unfolding expect_answer
    expect_answer-safe msg (answer a) f h rest = rest a refl
    expect_answer-safe msg (failure x) f h rest =
        exit_with-safe (msg ++ codes ": " ++ x ++ codes "\r\n") f h

  settled-safe :
      (m : Method History A) (f : A → Process B) (h : History) (a : A)
      → (m h).0 ≡ ok a
      → (f a (m h).1).0 ≢ crashed
      → ((settled m >>= f) h).0 ≢ crashed
  unfolding settled
  settled-safe m f h a e rest = rw e rest

module _ (s : Platform) (o : Outside) (prints : (h : History) → o.on_write h ≡ answer tt)
    (polls : (h : History) → IsPolled (o.on_poll h))
    (uuids : (h : History) → IsUuid (s.on_new_uuid h))
    (gets : (h : History) → (ws : WinSize) × (s.on_get_size h ≡ some ws))
    (sets : (h : History) → s.on_set_size h ≡ true)
    (spawns : (h : History) → s.on_spawn_thread h ≡ some tt) where
  close_down-safe :
      (session_id : ℕ) (original : Termios) (result : Outcome (Unit {0})) (h : History)
      → result ≢ panicked
      → (close_down s o session_id original result h).0 ≢ crashed
  unfolding close_down
  close_down-safe session_id original (ok a) h ne =
      expected-safe o prints _ (restore_terminal s stdin_fd original) (λ _. process_exit 0)
        (exit o session_id h) (restore_terminal-calm s stdin_fd original _) (λ _ _ e. cc)
  close_down-safe session_id original (err x) h ne =
      rw
        (prints (
          write_stdout (into_bytes (codes "Exiting due to:\r\n  " ++ display x ++ codes "\r\n"))
          ∷ h))
        (expected-safe o prints _ (restore_terminal s stdin_fd original) (λ _. process_exit 1) _
          (restore_terminal-calm s stdin_fd original _) (λ _ _ e. cc))
  close_down-safe session_id original panicked h ne = absurd (ne refl)
  close_down-safe session_id original exhausted h ne = λ e. cc

  run_parent-safe :
      (fuel : ℕ) (name : Option Text) (h0 h1 : History) (b : Bash) (parent_fd : ℕ) (h : History)
      → get_shell s o name h0 ≡ (ok b, h1)
      → (run_parent s o fuel b parent_fd h).0 ≢ crashed
  unfolding run_parent run_terminal
  run_parent-safe fuel name h0 h1 b parent_fd h shell =
      expected-safe o prints _ (init_client o) _ h (init_client-calm o h) (λ (session_id, motd) _.
        expected-safe o prints _ (hermit_print o motd) _ _ (hermit_print-calm o motd _) (λ _ _.
          expected-safe o prints _ (setup_parent_pty s parent_fd stdin_fd) _ _
            (setup_parent_pty-calm s parent_fd stdin_fd _ gets sets)
            (λ _ _.
              expected-safe o prints _ (set_raw_mode s stdin_fd) _ _
                (set_raw_mode-calm s stdin_fd _)
                (λ original _.
                  settled-safe (ignore (setup_signal_handlers s)) _ _ tt
                    (setup_signal_handlers-ok s _ spawns)
                    (let (p, created, coupled) =
                        get_shell-IsCoupled s o uuids name h0 h1 _ b session_id shell in
                      settled-safe (λ h. (create_bash_proxy b h session_id, h)) _ _ p created
                        (close_down-safe session_id original (safe_handle_terminal o fuel p).0
                          (safe_handle_terminal o fuel p).1.history
                          (safe_handle_terminal-safe (input_marker b) (output_marker b) o polls fuel
                            p coupled)))))))

  shell_of-calm :
      (path : Text) (found : Option Text) (h : History)
      → found ≢ some (codes "csh")
      → is_calm (shell_of s o path found h).0 ≡ true
  unfolding new_bash
  shell_of-calm path none h ne = refl
  shell_of-calm path (some name) h ne = elim (Bool-cases (bytes_eq name (codes "csh"))) [
    | inl is_csh ↦ absurd (ne (ap some (eq_of_bytes_eq name (codes "csh") is_csh)))
    | inr other ↦ rw other refl
  ]

  get_shell-calm :
      (path : Text) (h : History)
      → file_name path ≢ some (codes "csh")
      → is_calm (get_shell s o (some path) h).0 ≡ true
  unfolding get_shell
  get_shell-calm path h ne = shell_of-calm path (file_name path) h ne

  -- Where messages can be printed, `poll` reports registered tokens alone, UUIDs are written in their
  -- hyphenated form, the calls of the terminals' sizes succeed and a thread can be created: started with
  -- the path of a shell that is not called `csh`, in the process that stays `main` never panics in its
  -- main thread, whatever the other calls come to.
  pub main-safe :
      (fuel : ℕ) (path : Text) (h : History)
      → file_name path ≢ some (codes "csh")
      → ((h : History) → (pid : ℕ) × (s.on_fork h ≡ answer (parent pid)))
      → (main s o fuel (some path) h).0 ≢ crashed
  unfolding main
  main-safe fuel path h ne stays =
      expect_answer-safe o prints _ (o.on_read_env (read_env (codes "HOME") ∷ h)) _ _ (λ home _.
        expect_answer-safe o prints _ (s.on_touch _) _ _ (λ _ _.
          expected-safe o prints _ (get_shell s o (some path)) _ _ (get_shell-calm path _ ne)
            (λ b shell.
              expected-safe o prints _ (open_pty s) _ _ (open_pty-calm s _)
                (λ (parent_fd, child_name) _.
                  expect_answer-safe o prints _ (s.on_fork (fork ∷ _)) _ _
                    (λ forked e. forked-safe forked b parent_fd child_name _ _ _ e shell)))))
    where
      forked-safe :
          (r : ForkResult) (b : Bash) (parent_fd : ℕ) (child_name : Text) (h0 h1 h : History)
          → s.on_fork h ≡ answer r
          → get_shell s o (some path) h0 ≡ (ok b, h1)
          → (on_forked s o fuel b parent_fd child_name r h).0 ≢ crashed
      forked-safe (parent pid) b parent_fd child_name h0 h1 h e shell =
          run_parent-safe fuel (some path) h0 h1 b parent_fd h shell
      forked-safe child b parent_fd child_name h0 h1 h e shell = let (pid, forked) = stays h in cc
