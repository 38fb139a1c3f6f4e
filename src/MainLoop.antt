-- ===== src/MainLoop.antt =====
-- llmsh/src/main.rs: `safe_handle_terminal`, the loop over the events of the terminal and the shell.
pub mod Interrupts
pub mod Safety
pub mod Exits
pub mod Followed
pub mod Relayed
use llmsh.Base.{
  ℕ, zero, suc, ◌+◌, List, [], ◌∷◌, ◌++◌, Bool, true, false, codes, Error, failed, exhausted, ltb,
  ◌==◌, if◌then◌else◌,
}
use llmsh.Text.{Text}
use llmsh.Effects.{Method, ◌>>=◌, ◌>>◌, pure, raise, panic}
use llmsh.Outside.{
  Outside, PollResult, events, interrupted, poll_failure, poll, sleep_millis, WaitStatus,
  still_alive, other_status, wait_child, answer,
}
use llmsh.Messages.{call}
use llmsh.Pty.{parent_tok, stdin_tok}
use llmsh.Shell.Proxy.{ShellProxy, with_history, handle_input, handle_output}

abbrev pub max_eintr_retry : ℕ
max_eintr_retry = 10

-- The variables that live through the rounds of the loop.
pub record Loop : Type 0 where
  pub child_exited : Bool
  pub retry_counter : ℕ

pub data Next : Type 0 where
  continue : Loop → Next
  finished : Next

abbrev pub repeatedly : Text → Error
repeatedly e =
    failed (
      codes "Repeatedly failed to poll events due to io::ErrorKind::Interrupted" ++ codes ": " ++ e)

abbrev no_poll : Text → Error
no_poll e = failed (codes "Failed to poll events" ++ codes ": " ++ e)

module _ (o : Outside) where
  open o use {on_poll, on_wait}

  -- `for event in events.iter()`, with its `break`. The result is `child_exited`.
  unfoldable pub handle_events : List ℕ → Bool → Method ShellProxy Bool
  unfolding handle_output handle_input
  handle_events [] child_exited = pure child_exited
  handle_events (token ∷ tokens) child_exited =
      if token == parent_tok
      then (handle_output o >>= λ exited. if exited then pure true else handle_events tokens false)
      else if token == stdin_tok
      then (handle_input o >>= λ _. handle_events tokens child_exited)
      else panic

  unfoldable pub after_wait : Loop → WaitStatus → Next
  after_wait l still_alive = continue l
  after_wait l other_status = finished

  unfoldable pub check_child : Loop → Method ShellProxy Next
  unfolding after_wait
  check_child l =
      if l.child_exited
      then (do status ← with_history (call wait_child on_wait); pure (after_wait l status))
      else pure (continue l)

  unfoldable pub on_polled : Loop → PollResult → Method ShellProxy Next
  unfolding handle_events check_child
  on_polled l (events tokens) = do
    child_exited ← handle_events tokens l.child_exited
    check_child (record { child_exited = child_exited; retry_counter = 0 })
  on_polled l (interrupted e) =
      if ltb l.retry_counter max_eintr_retry
      then (do
        with_history (call (sleep_millis 100) (λ _. tt))
        pure (continue (record l { retry_counter = l.retry_counter + 1 })))
      else raise (repeatedly e)
  on_polled l (poll_failure e) = raise (no_poll e)

  -- One round of the loop.
  unfoldable pub round : Loop → Method ShellProxy Next
  unfolding on_polled
  round l = do polled ← with_history (call poll on_poll); on_polled l polled

  abbrev pub go_on : (Loop → Method ShellProxy (Unit {0})) → Next → Method ShellProxy (Unit {0})
  go_on loop (continue l) = loop l
  go_on loop finished = pure tt

  unfoldable pub rounds : ℕ → Loop → Method ShellProxy (Unit {0})
  unfolding round
  rounds zero l p = (exhausted, p)
  rounds (suc fuel) l p = (round l >>= λ next. go_on (rounds fuel) next) p

  -- At most `fuel` rounds: the loop is to run as long as the shell does.
  unfoldable pub safe_handle_terminal : ℕ → Method ShellProxy (Unit {0})
  unfolding rounds
  safe_handle_terminal fuel = rounds fuel (record { child_exited = false; retry_counter = 0 })
