-- ===== src/Main.antt =====
-- llmsh/src/main.rs, `main`: the process that starts the shell and becomes its terminal, and the process
-- that becomes the shell. util.rs: `touch` and the macro `expect!`.
pub mod Following
pub mod Parent
pub mod Calls
pub mod Calm
pub mod RcFile
pub mod Child
use llmsh.Base.{
  ℕ, List, [], ◌∷◌, ◌++◌, map, Bool, true, false, Option, none, some, codes, Error, display,
  Outcome, ok, err, panicked, exhausted, bytes_eq, ◌==◌, if◌then◌else◌,
}
use llmsh.Text.{Text, into_bytes}
use llmsh.Effects.{Method}
use llmsh.Outside.{
  Outside, Platform, History, Effect, Answer, answer, failure, Termios, ForkResult, parent, child,
  read_env, touch_file, fork, list_env, new_temp_file, stat_rc, exec, write_stdout, write_rc,
}
use llmsh.Messages
use llmsh.Messages.{init_client}
use llmsh.Pty.{
  open_pty, setup_child_pty, setup_parent_pty, set_raw_mode, restore_terminal,
  setup_signal_handlers, ignore, or_panic,
}
use llmsh.Shell.Hermit.{hermit_print}
use llmsh.Shell.Start.{
  Bash, get_shell, c_string, get_path, get_rcfile, inject_markers, create_bash_proxy,
}
use llmsh.Shell.Proxy.{ShellProxy}
use llmsh.MainLoop.{safe_handle_terminal}

-- How far a process came: to a value, to its end with a code, to the program that took its place,
-- to a panic, or to no end within the rounds of its loop.
pub data Progress (A : Type 0) : Type 0 where
  returned : A → Progress A
  exited : ℕ → Progress A
  replaced : Progress A
  crashed : Progress A
  running : Progress A

abbrev pub Process : Type 0 → Type 0
Process A = History → Progress A × History

module _ {A B : Type 0} where
  abbrev pub follow : Progress A → (A → Process B) → Process B
  follow (returned a) f h = f a h
  follow (exited code) f h = (exited code, h)
  follow replaced f h = (replaced, h)
  follow crashed f h = (crashed, h)
  follow running f h = (running, h)

  infixl 5 ◌>>=◌ ◌>>◌
  abbrev pub ◌>>=◌ : Process A → (A → Process B) → Process B
  ◌>>=◌ m f h = let (r, h') = m h in follow r f h'

  abbrev pub ◌>>◌ : Process A → Process B → Process B
  m >> n = m >>= λ _. n

module _ {A : Type 0} where
  abbrev pub pure : A → Process A
  pure a h = (returned a, h)

  abbrev pub process_exit : ℕ → Process A
  process_exit code h = (exited code, h)

  abbrev pub call : Effect → (History → A) → Process A
  call effect on h = (returned (on (effect ∷ h)), effect ∷ h)

module _ (o : Outside) where
  abbrev on_print : Answer (Unit {0}) → Process (Unit {0})
  on_print (answer tt) h = (returned tt, h)
  on_print (failure e) h = (crashed, h)

  -- The macro `print!`, which panics if it cannot write.
  abbrev pub print : Text → Process (Unit {0})
  print text = do written ← call (write_stdout (into_bytes text)) o.on_write; on_print written

  module _ {A : Type 0} where
    abbrev pub exit_with : Text → Process A
    exit_with text = do print text; process_exit 1

    -- The macro `expect!`.
    abbrev pub expect : Text → Outcome A → Process A
    expect msg (ok a) = pure a
    expect msg (err e) = exit_with (msg ++ codes ": " ++ display e ++ codes "\r\n")
    expect msg panicked = λ h. (crashed, h)
    expect msg exhausted = λ h. (running, h)

    unfoldable pub expect_answer : Text → Answer A → Process A
    expect_answer msg (answer a) = pure a
    expect_answer msg (failure e) = exit_with (msg ++ codes ": " ++ e ++ codes "\r\n")

    -- `expect!` around a call.
    unfoldable pub expected : Text → Method History A → Process A
    expected msg m h = let (r, h') = m h in expect msg r h'

module _ {A : Type 0} where
  abbrev pub settle : Outcome A → Process A
  settle (ok a) h = (returned a, h)
  settle (err e) h = (crashed, h)
  settle panicked h = (crashed, h)
  settle exhausted h = (running, h)

  -- A call whose result is no `Result`: it can only return or panic.
  unfoldable pub settled : Method History A → Process A
  settled m h = let (r, h') = m h in settle r h'

-- `Path::join` with a relative name.
abbrev join_from : Text → Text → Text → Text
join_from whole [] name = name
join_from whole (c ∷ []) name = if c == b'/' then whole ++ name else whole ++ codes "/" ++ name
join_from whole (c ∷ path) name = join_from whole path name

unfoldable pub join : Text → Text → Text
join path name = join_from path path name

-- `format!("{}={}", key, value)`
abbrev pub assignment : Text × Text → Text
assignment (key, value) = key ++ codes "=" ++ value

-- `CString::new(…).unwrap()` on each.
unfoldable pub c_strings : List Text → Method History (List Text)
unfolding c_string
c_strings [] h = (ok [], h)
c_strings (text ∷ texts) h =
    (llmsh.Effects.◌>>=◌ (c_string text)
        λ first. llmsh.Effects.◌>>=◌ (c_strings texts) λ rest. llmsh.Effects.pure (first ∷ rest))
      h

abbrev pub stdin_fd : ℕ
stdin_fd = 0

module _ (s : Platform) (o : Outside) where
  open s use {on_touch, on_fork, on_list_env, on_new_temp_file, on_write_rc, on_stat_rc, on_exec}
  open o use {on_read_env}

  -- util.rs: `touch`
  unfoldable pub touch : Text → Process (Answer (Unit {0}))
  touch path = call (touch_file path) on_touch

  abbrev pub report : Outcome (Unit {0}) → Process ℕ
  report (ok _) h = (returned 0, h)
  report (err err_msg) h =
      (do print o (codes "Exiting due to:\r\n  " ++ display err_msg ++ codes "\r\n"); pure 1) h
  report panicked h = (crashed, h)
  report exhausted h = (running, h)

  -- What is left to do when the loop is over.
  unfoldable pub close_down : ℕ → Termios → Outcome (Unit {0}) → Process (Unit {0})
  unfolding restore_terminal Messages.exit
  close_down session_id original_termios exit_result = do
    exit_code ← report exit_result
    (λ h. (returned tt, Messages.exit o session_id h))
    expected o (codes "Failed to restore terminal") (restore_terminal s stdin_fd original_termios)
    process_exit exit_code

  -- The loop, of at most `fuel` rounds, on the new proxy.
  unfoldable pub run_terminal : ℕ → ShellProxy → Process (Outcome (Unit {0}))
  unfolding safe_handle_terminal
  run_terminal fuel shell_proxy h =
      let (exit_result, p) = safe_handle_terminal o fuel shell_proxy in
      (returned exit_result, p.history)

  unfoldable pub run_parent : ℕ → Bash → ℕ → Process (Unit {0})
  unfolding close_down init_client hermit_print setup_parent_pty set_raw_mode setup_signal_handlers
      create_bash_proxy run_terminal
  run_parent fuel shell_creator parent_fd = do
    (session_id, motd) ← expected o (codes "hermitd client initialization failed") (init_client o)
    expected o (codes "Failed to print motd") (hermit_print o motd)
    expected o (codes "Failed to configure parent PTY") (setup_parent_pty s parent_fd stdin_fd)
    original_termios ←
        expected o (codes "Failed to set terminal to raw mode") (set_raw_mode s stdin_fd)
    _ ← settled (ignore (setup_signal_handlers s))
    shell_proxy ← settled (λ h. (create_bash_proxy shell_creator h session_id, h))
    exit_result ← run_terminal fuel shell_proxy
    close_down session_id original_termios exit_result

  abbrev pub ran : Option Text → Process (Unit {0})
  ran none h = (replaced, h)
  ran (some e) h =
      exit_with o (codes "Failed to execute shell" ++ codes ": " ++ e ++ codes "\r\n") h

  -- The result of a write to the rc file is dropped.
  abbrev write_line : Text → Process (Answer (Unit {0}))
  write_line line = call (write_rc (into_bytes line)) on_write_rc

  unfoldable pub run_child : Bash → Text → Process (Unit {0})
  unfolding setup_child_pty get_path c_string c_strings get_rcfile inject_markers
  run_child shell_creator child_name = do
    expected o (codes "Failed to setup child PTY") (setup_child_pty s child_name)
    shell_path ← settled (get_path shell_creator)
    listed ← call list_env on_list_env
    vars ← settled (or_panic listed)
    env_vars ← settled (c_strings (map assignment vars))
    made ← call new_temp_file on_new_temp_file
    temp_rc ← expect_answer o (codes "Failed to create NamedTempFile") made
    _ ← write_line (codes "source " ++ get_rcfile shell_creator ++ codes "\n")
    _ ← write_line (codes "source ~/.llmshrc\n")
    settled (inject_markers s o shell_creator)
    metadata ← call stat_rc on_stat_rc
    expect_answer o (codes "Failed to set permissions of ~/.llmshrc") metadata
    temp_filename ← settled (or_panic temp_rc)
    temp_arg ← settled (c_string temp_filename)
    failed ← call (exec shell_path (shell_path ∷ codes "--rcfile" ∷ temp_arg ∷ []) env_vars) on_exec
    ran failed

  abbrev pub on_forked : ℕ → Bash → ℕ → Text → ForkResult → Process (Unit {0})
  on_forked fuel shell_creator parent_fd child_name (parent pid) =
      run_parent fuel shell_creator parent_fd
  on_forked fuel shell_creator parent_fd child_name child = run_child shell_creator child_name

  unfoldable pub main : ℕ → Option Text → Process (Unit {0})
  unfolding get_shell open_pty run_parent run_child join touch
  main fuel shell_name = do
    home ← call (read_env (codes "HOME")) on_read_env
    home_dir ← expect_answer o (codes "Could not get home directory") home
    touched ← touch (join home_dir (codes ".llmshrc"))
    expect_answer o (codes "Failed to touch ~/.llmshrc") touched
    shell_creator ←
        expected o (codes "Failed to identify shell, bad $SHELL path") (get_shell s o shell_name)
    (parent_fd, child_name) ← expected o (codes "Failed to open PTY") (open_pty s)
    forked ← call fork on_fork
    forked_as ← expect_answer o (codes "Failed to fork process") forked
    on_forked fuel shell_creator parent_fd child_name forked_as
