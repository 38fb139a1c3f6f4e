-- ===== src/Outside.antt =====
-- What the program calls and does not implement: the terminal, the pseudo terminal, the line editor,
-- the socket of hermitd, JSON, `poll` and `waitpid`. A call is an effect that is put on the history, and
-- its answer is a function of the history: any behaviour of the outside that the program can meet.
use llmsh.Base.{ℕ, Bool, Option, List, Bytes}
use llmsh.Text.{Text}

-- messages.rs
pub data ShellOutputType : Type 0 where
  header input input_aborted output : ShellOutputType

pub data Request : Type 0 where
  setup : (user api_version : Text) → Request
  generate_command : (session_id : ℕ) (prompt : Text) → Request
  save_context : (session_id : ℕ) (context_type : Option ShellOutputType) (context : Text) → Request
  exit : (session_id : ℕ) → Request

pub data Response : Type 0 where
  setup_success : (session_id : ℕ) (motd : Text) → Response
  command_response : (full_response : Text) (commands : List Text) → Response
  error : (status : Text) → Response
  success : Response

-- pty.rs: the size of a terminal, and a terminal's attributes: the flag ISIG and all others.
pub record WinSize : Type 0 where
  pub ws_row : ℕ
  pub ws_col : ℕ
  pub ws_xpixel : ℕ
  pub ws_ypixel : ℕ

pub record Termios : Type 0 where
  pub isig : Bool
  pub others : ℕ

-- The signals of the system that llmsh handles, and any other by its number.
pub data SystemSignal : Type 0 where
  sigint sigtstp sigquit sigwinch : SystemSignal
  other_signal : ℕ → SystemSignal

pub data Effect : Type 0 where
  write_stdout : Bytes → Effect
  flush_stdout : Effect
  -- `write_all` with these bytes, of which a part is written where it fails
  write_pty : Bytes → Effect
  read_stdin : Effect
  read_pty : Effect
  read_line : Effect
  create_socket : Effect
  set_linger : ℕ → Effect
  connect : Text → Effect
  read_env : Text → Effect
  send : Text → Effect
  set_rcvtimeo : ℕ → Effect
  recv_string : Effect
  poll : Effect
  sleep_millis : ℕ → Effect
  wait_child : Effect
  -- pty.rs; descriptors are numbers, a process or a process group is an `i32`, by its bit pattern
  posix_openpt : Effect
  grantpt unlockpt ptsname : (fd : ℕ) → Effect
  setsid : Effect
  open_terminal : (name : Text) → Effect
  dup2 : (old new : ℕ) → Effect
  close : (fd : ℕ) → Effect
  new_poll : Effect
  set_nonblocking : (fd : ℕ) → Effect
  register : (fd token : ℕ) → Effect
  get_size : (fd : ℕ) → Effect
  set_size : (fd : ℕ) (ws : WinSize) → Effect
  get_attributes : (fd : ℕ) → Effect
  set_attributes : (fd : ℕ) (attributes : Termios) → Effect
  watch_signals : List SystemSignal → Effect
  spawn_thread : Effect
  open_process : (pid : ℕ) → Effect
  stat_process : (pid : ℕ) → Effect
  killpg : (pgid : ℕ) (signal : SystemSignal) → Effect
  -- shell.rs, the start of the shell
  new_uuid : Effect
  run_command : (program : Text) (args : List Text) → Effect
  write_rc : Bytes → Effect
  -- main.rs, util.rs
  touch_file : (path : Text) → Effect
  fork : Effect
  list_env : Effect
  new_temp_file : Effect
  stat_rc : Effect
  exec : (program : Text) (args env : List Text) → Effect

-- The effects so far, the latest first.
abbrev pub History : Type 0
History = List Effect

-- A call of the outside that fails has a text, the `{:?}` of its error.
pub data Answer {ℓ} (A : Type ℓ) : Type ℓ where
  answer : A → Answer A
  failure : Text → Answer A

pub data PtyRead : Type 0 where
  pty_bytes : Bytes → PtyRead
  pty_eio : PtyRead
  pty_failure : Text → PtyRead

-- Reedline's `Signal`.
pub data Signal : Type 0 where
  line : Text → Signal
  ctrl_d ctrl_c : Signal

-- `recv_string`: `Err(EAGAIN)`, another error, bytes that are no UTF-8, a string.
pub data Received : Type 0 where
  again : Received
  recv_failure : Text → Received
  not_utf8 : Text → Received
  received : Text → Received

pub data PollResult : Type 0 where
  events : List ℕ → PollResult
  interrupted : Text → PollResult
  poll_failure : Text → PollResult

pub data WaitStatus : Type 0 where
  still_alive : WaitStatus
  other_status : WaitStatus

pub record Outside : Type 0 where
  pub on_write : History → Answer (Unit {0})
  pub on_read_stdin : History → Answer Bytes
  pub on_read_pty : History → PtyRead
  pub on_read_line : History → Answer Signal
  pub on_create_socket : History → Answer (Unit {0})
  pub on_set_linger : History → Answer (Unit {0})
  pub on_connect : History → Answer (Unit {0})
  pub on_read_env : History → Answer Text
  pub on_send : History → Answer (Unit {0})
  pub on_set_rcvtimeo : History → Answer (Unit {0})
  pub on_recv : History → Received
  pub on_poll : History → PollResult
  pub on_wait : History → WaitStatus
  pub to_json : Request → Answer Text
  pub from_json : Text → Answer Response
  -- `{:?}` of a string and of a response
  pub debug_text : Text → Text
  pub debug_response : Response → Text
  -- the characters that `\d` fits
  pub is_decimal : ℕ → Bool

-- `fork`: in the parent the child's number.
pub data ForkResult : Type 0 where
  parent : (child : ℕ) → ForkResult
  child : ForkResult

-- What a command came to, if it could be run: whether it succeeded, and its output.
pub record CommandOutput : Type 0 where
  pub is_success : Bool
  pub stdout : Bytes

-- What the start of the program calls: the system's terminals, processes and files.
pub record Platform : Type 0 where
  pub on_openpt : History → Answer ℕ
  pub on_grantpt : History → Answer (Unit {0})
  pub on_unlockpt : History → Answer (Unit {0})
  pub on_ptsname : History → Answer Text
  pub on_setsid : History → Answer (Unit {0})
  pub on_open : History → Answer ℕ
  pub on_dup2 : History → Answer (Unit {0})
  pub on_close : History → Answer (Unit {0})
  pub on_new_poll : History → Answer (Unit {0})
  pub on_set_nonblocking : History → Answer (Unit {0})
  pub on_register : History → Answer (Unit {0})
  -- `ioctl`: none for -1
  pub on_get_size : History → Option WinSize
  pub on_set_size : History → Bool
  pub on_get_attributes : History → Answer Termios
  pub on_set_attributes : History → Answer (Unit {0})
  pub cfmakeraw : Termios → Termios
  pub on_watch_signals : History → Answer (Unit {0})
  -- `thread::spawn`: none where it panics, for no thread can be created
  pub on_spawn_thread : History → Option (Unit {0})
  pub on_open_process : History → Answer (Unit {0})
  pub on_stat_process : History → Answer ℕ
  pub on_killpg : History → Answer (Unit {0})
  pub on_new_uuid : History → Text
  pub on_run_command : History → Answer CommandOutput
  pub on_write_rc : History → Answer (Unit {0})
  pub on_touch : History → Answer (Unit {0})
  pub on_fork : History → Answer ForkResult
  -- `env::vars`: none where it panics, for a name or a value is no Unicode
  pub on_list_env : History → Option (List (Text × Text))
  -- the path of the file, none if it is no Unicode
  pub on_new_temp_file : History → Answer (Option Text)
  pub on_stat_rc : History → Answer (Unit {0})
  -- it returns only if it fails
  pub on_exec : History → Option Text
