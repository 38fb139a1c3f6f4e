-- ===== src/Pty.antt =====
-- llmsh/src/pty.rs: the pseudo terminal, the descriptors of the shell, raw mode, sizes and signals.
pub mod Descriptors
pub mod Terminals
pub mod Polled
pub mod Signals
use llmsh.Base.{
  ℕ, List, [], ◌∷◌, Bool, true, false, Option, none, some, Outcome, ok, err, panicked, exhausted,
  codes, if◌then◌else◌,
}
use llmsh.Text.{Text}
use llmsh.Effects.{Method, ◌>>=◌, ◌>>◌, pure, raise, panic}
use llmsh.Outside.{
  Platform, History, Answer, Effect, WinSize, Termios, SystemSignal, sigint, sigtstp, sigquit,
  sigwinch, other_signal, posix_openpt, grantpt, unlockpt, ptsname, setsid, open_terminal, dup2,
  close, new_poll, set_nonblocking, register, get_size, set_size, get_attributes, set_attributes,
  watch_signals, spawn_thread, open_process, stat_process, killpg,
}
use llmsh.Messages.{call, map_err}

abbrev pub parent_tok : ℕ
parent_tok = 0

abbrev pub stdin_tok : ℕ
stdin_tok = 1

abbrev pub or_panic : {A : Type 0} → Option A → Method History A
or_panic none = panic
or_panic (some a) = pure a

-- `let _ = `: an error is dropped, a panic is not.
abbrev pub ignored : {A : Type 0} → Outcome A → Outcome (Unit {0})
ignored (ok a) = ok tt
ignored (err e) = ok tt
ignored panicked = panicked
ignored exhausted = exhausted

abbrev pub ignore : {A : Type 0} → Method History A → Method History (Unit {0})
ignore m h = let (r, h') = m h in (ignored r, h')

abbrev pub handled_signals : List SystemSignal
handled_signals = sigint ∷ sigtstp ∷ sigquit ∷ sigwinch ∷ []

module _ (s : Platform) where
  open s use {
    on_openpt, on_grantpt, on_unlockpt, on_ptsname, on_setsid, on_open, on_dup2, on_close,
    on_new_poll, on_set_nonblocking, on_register, on_get_size, on_set_size, on_get_attributes,
    on_set_attributes, cfmakeraw, on_watch_signals, on_spawn_thread, on_open_process,
    on_stat_process, on_killpg,
  }

  unfoldable pub open_pty : Method History (ℕ × Text)
  unfolding map_err
  open_pty = do
    opened ← call posix_openpt on_openpt
    master_fd ← map_err opened (codes "Failed to open PTY master")
    granted ← call (grantpt master_fd) on_grantpt
    map_err granted (codes "Failed to grant PTY access")
    unlocked ← call (unlockpt master_fd) on_unlockpt
    map_err unlocked (codes "Failed to unlock PTY")
    named ← call (ptsname master_fd) on_ptsname
    child_name ← map_err named (codes "Failed to get slave PTY name")
    pure (master_fd, child_name)

  unfoldable pub setup_child_pty : Text → Method History (Unit {0})
  unfolding map_err
  setup_child_pty child_name = do
    started ← call setsid on_setsid
    map_err started (codes "Failed to create new session")
    opened ← call (open_terminal child_name) on_open
    child_fd ← map_err opened (codes "Failed to open slave PTY")
    to_stdin ← call (dup2 child_fd 0) on_dup2
    map_err to_stdin (codes "Failed to duplicate slave PTY to stdin")
    to_stdout ← call (dup2 child_fd 1) on_dup2
    map_err to_stdout (codes "Failed to duplicate slave PTY to stdout")
    to_stderr ← call (dup2 child_fd 2) on_dup2
    map_err to_stderr (codes "Failed to duplicate slave PTY to stderr")
    closed ← call (close child_fd) on_close
    map_err closed (codes "Failed to close slave PTY file descriptor")

  unfoldable pub get_terminal_size : ℕ → Method History WinSize
  get_terminal_size fd = do ws ← call (get_size fd) on_get_size; or_panic ws

  unfoldable pub set_terminal_size : ℕ → WinSize → Method History (Unit {0})
  set_terminal_size fd ws = do
    is_set ← call (set_size fd ws) on_set_size
    if is_set then pure tt else panic

  unfoldable pub sync_terminal_size : ℕ → ℕ → Method History (Unit {0})
  unfolding get_terminal_size set_terminal_size
  sync_terminal_size parent_fd child_fd = do
    ws ← get_terminal_size child_fd
    set_terminal_size parent_fd ws

  -- The `Poll` is in the history of its calls.
  unfoldable pub setup_parent_pty : ℕ → ℕ → Method History (Unit {0})
  unfolding map_err sync_terminal_size
  setup_parent_pty parent_fd stdin_fd = do
    created ← call new_poll on_new_poll
    map_err created (codes "Failed to create Poll instance")
    parent_set ← call (set_nonblocking parent_fd) on_set_nonblocking
    map_err parent_set (codes "Failed to set non-blocking")
    stdin_set ← call (set_nonblocking stdin_fd) on_set_nonblocking
    map_err stdin_set (codes "Failed to set non-blocking")
    parent_registered ← call (register parent_fd parent_tok) on_register
    map_err parent_registered (codes "Failed to register parent_fd")
    stdin_registered ← call (register stdin_fd stdin_tok) on_register
    map_err stdin_registered (codes "Failed to register stdin_fd")
    sync_terminal_size parent_fd stdin_fd

  -- The foreground process group of the terminal of a process.
  unfoldable pub get_tpgid : ℕ → Method History ℕ
  unfolding map_err
  get_tpgid pid = do
    opened ← call (open_process pid) on_open_process
    map_err opened (codes "Failed to read proc fs, this only works on linux")
    stat ← call (stat_process pid) on_stat_process
    map_err stat (codes "")

  unfoldable pub pass_signal : ℕ → SystemSignal → Method History (Unit {0})
  unfolding get_tpgid map_err
  pass_signal child_pid sig = do
    pgid ← get_tpgid child_pid
    killed ← call (killpg pgid sig) on_killpg
    map_err killed (codes "Failed to send signal to child")

  -- The body of the handler's loop.
  unfoldable pub handle_signal : ℕ → ℕ → ℕ → SystemSignal → Method History (Unit {0})
  unfolding pass_signal sync_terminal_size
  handle_signal parent_fd child_fd child_pid sigint = ignore (pass_signal child_pid sigint)
  handle_signal parent_fd child_fd child_pid sigtstp = ignore (pass_signal child_pid sigtstp)
  handle_signal parent_fd child_fd child_pid sigquit = ignore (pass_signal child_pid sigquit)
  handle_signal parent_fd child_fd child_pid sigwinch = sync_terminal_size parent_fd child_fd
  handle_signal parent_fd child_fd child_pid (other_signal n) = panic

  -- The handler's thread, for the signals that come in.
  unfoldable pub handle_signals : ℕ → ℕ → ℕ → List SystemSignal → Method History (Unit {0})
  unfolding handle_signal
  handle_signals parent_fd child_fd child_pid [] = pure tt
  handle_signals parent_fd child_fd child_pid (sig ∷ sigs) = do
    handle_signal parent_fd child_fd child_pid sig
    handle_signals parent_fd child_fd child_pid sigs

  unfoldable pub setup_signal_handlers : Method History (Unit {0})
  unfolding map_err
  setup_signal_handlers = do
    created ← call (watch_signals handled_signals) on_watch_signals
    map_err created (codes "Failed to create signal handler")
    spawned ← call spawn_thread on_spawn_thread
    or_panic spawned

  -- It returns the attributes that were there.
  unfoldable pub set_raw_mode : ℕ → Method History Termios
  unfolding map_err
  set_raw_mode fd = do
    got ← call (get_attributes fd) on_get_attributes
    original_termios ← map_err got (codes "Failed to get terminal attributes")
    let raw_termios = record (cfmakeraw original_termios) { isig = true }
    done ← call (set_attributes fd raw_termios) on_set_attributes
    map_err done (codes "Failed to set terminal to raw mode")
    pure original_termios

  unfoldable pub restore_terminal : ℕ → Termios → Method History (Unit {0})
  unfolding map_err
  restore_terminal fd termios = do
    done ← call (set_attributes fd termios) on_set_attributes
    map_err done (codes "Failed to restore terminal attributes")
