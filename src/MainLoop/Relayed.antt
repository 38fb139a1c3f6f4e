-- ===== src/MainLoop/Relayed.antt =====
-- llmsh/src/main.rs, `safe_handle_terminal`: what reaches the shell, and what reaches hermitd, in the
-- whole run of the loop.
use llmsh.Base.{ℕ, List, ◌++◌, All, ◌≡◌, refl}
use llmsh.Outside.{Outside, Effect, poll, sleep_millis, wait_child}
use llmsh.Shell.Proxy.{ShellProxy}
use llmsh.Shell.Relays.{
  IsRelayed, polls, sleeps, waits, IsRelayed-stays, IsRelayed-call, IsRelayed-then,
}
use llmsh.Shell.Relayed.{Goes-handle_input, Goes-handle_output}
use llmsh.Shell.InSession.{
  IsOurs, KeepsSession, KeepsSession-refl, KeepsSession-trans, KeepsSession-effect,
  KeepsSession-handle_input, KeepsSession-handle_output,
}
use llmsh.MainLoop.{safe_handle_terminal}
use llmsh.MainLoop.Followed.{IsFollowedLoop, Goes-safe_handle_terminal}

module _ (o : Outside) where
  IsFollowedLoop-IsRelayed : IsFollowedLoop o (IsRelayed o)
  IsFollowedLoop-IsRelayed = record {
    stays = IsRelayed-stays o;
    goes_on = IsRelayed-then o;
    by_input = Goes-handle_input o;
    by_output = Goes-handle_output o;
    by_poll = IsRelayed-call o polls;
    by_sleep = IsRelayed-call o sleeps;
    by_wait = IsRelayed-call o waits;
  }

  -- In a run of the loop of any length, whatever the outside does and whether the loop goes on, returns,
  -- fails or panics, the run is calls of both handlers, `poll`, the pause and `waitpid`, one after the
  -- other, and what was handed to `write_all` for the shell is one piece for each call of `handle_input`,
  -- in order: all the bytes that this call read, where they open no dialogue in the state of the input's
  -- machine at this call; for a dialogue that they open, nothing, a carriage return, or a command of
  -- hermitd's answer that the user chose, between two; and nothing where nothing was read or a dialogue
  -- was still open. How much of it a `write_all` that fails has written is not said.
  pub safe_handle_terminal-IsRelayed :
      (fuel : ℕ) (p : ShellProxy) → IsRelayed o p (safe_handle_terminal o fuel p).1
  safe_handle_terminal-IsRelayed fuel =
      Goes-safe_handle_terminal o (IsRelayed o) IsFollowedLoop-IsRelayed fuel

  IsFollowedLoop-KeepsSession : (session_id : ℕ) → IsFollowedLoop o (KeepsSession o session_id)
  IsFollowedLoop-KeepsSession session_id = record {
    stays = KeepsSession-refl o session_id;
    goes_on = KeepsSession-trans o session_id;
    by_input = KeepsSession-handle_input o session_id;
    by_output = KeepsSession-handle_output o session_id;
    by_poll = KeepsSession-effect o session_id poll tt;
    by_sleep = KeepsSession-effect o session_id (sleep_millis 100) tt;
    by_wait = KeepsSession-effect o session_id wait_child tt;
  }

  -- In a run of the loop of any length, whatever the outside does and whether the loop goes on, returns,
  -- fails or panics: each message that hermitd is sent is the question whether it is alive, or the JSON
  -- of a request with the session's number that the proxy was created with, none of them a set-up;
  -- besides, the loop calls the terminal, the line editor, the shell's terminal, the timeout and the
  -- replies of the socket, `poll`, the pause and `waitpid`, and nothing else.
  pub safe_handle_terminal-IsOurs :
      (fuel : ℕ) (p : ShellProxy)
      → (called : List Effect) × All (IsOurs o p.session_id) called
        × ((safe_handle_terminal o fuel p).1.history ≡ called ++ p.history)
  safe_handle_terminal-IsOurs fuel p =
      (Goes-safe_handle_terminal o (KeepsSession o p.session_id)
        (IsFollowedLoop-KeepsSession p.session_id) fuel p refl).0
