-- ===== src/Shell/Proxy.antt =====
-- shell.rs: `ShellProxy`. Its buffer for reads is the argument of what uses it.
use llmsh.Base.{
  ℕ, List, [], ◌∷◌, ◌++◌, Bool, true, false, Option, none, some, Bytes, codes, Outcome, ok, err,
  panicked,
}
use llmsh.Text.{Text, from_utf8_lossy, into_bytes}
use llmsh.Util.{fix_newlines}
use llmsh.Ansi.{strip_ansi_escape_sequences}
use llmsh.Effects.{Method, ◌>>=◌, ◌>>◌, pure}
use llmsh.Outside.{
  Outside, History, read_stdin, read_pty, Answer, answer, failure, PtyRead, pty_bytes, pty_eio,
  pty_failure, ShellOutputType, header, input, input_aborted,
}
use llmsh.Messages.{map_err, call, save_context}
use llmsh.Shell.Input
use llmsh.Shell.Input.{
  ShellInputState, ShellInputTarget, ShellInputActions, stdout, pty, hermit, pass_through, activate,
  finish_shell_prompt, finish_hermit_inputs,
}
use llmsh.Shell.Bash.{BashParser, ParsedOutput, in_progress, parsed, parse_output}
use llmsh.Shell.Hermit.{write_out, flush_out, write_parent, handle_hermit}

pub record ShellProxy : Type 0 where
  -- of the terminal, the shell and the socket of the client
  pub history : History
  pub session_id : ℕ
  pub input_parser : ShellInputState
  pub output_parser : BashParser
  pub output_aggregation : Bytes

module _ {A : Type 0} where
  abbrev pub with_history : Method History A → Method ShellProxy A
  with_history m p = let (r, h) = m p.history in (r, record p { history = h })

  abbrev pub with_input : Method ShellInputState A → Method ShellProxy A
  with_input m p = let (r, s) = m p.input_parser in (r, record p { input_parser = s })

  abbrev pub with_output : (BashParser → Outcome (A × BashParser)) → Method ShellProxy A
  with_output f p = elim (f p.output_parser) [
    | ok (a, q) ↦ (ok a, record p { output_parser = q })
    | err e ↦ (err e, p)
    | panicked ↦ (panicked, p)
    | Outcome.exhausted ↦ (Outcome.exhausted, p)
  ]

module _ (o : Outside) where
  open o use {on_write, on_read_stdin, on_read_pty, is_decimal}

  unfoldable pub hermit_action : Method ShellProxy (Unit {0})
  unfolding handle_hermit finish_hermit_inputs write_parent
  hermit_action p =
      (do
        hermit_pty_input ← with_history (handle_hermit o p.session_id)
        with_input finish_hermit_inputs
        with_history (write_parent o (into_bytes hermit_pty_input)))
        p

  unfoldable pub handle_input_action :
      Bytes → ShellInputTarget × Bytes → Method ShellProxy (Unit {0})
  unfolding write_out flush_out write_parent hermit_action
  handle_input_action read (stdout, bytes) = do
    with_history (write_out o (fix_newlines bytes))
    with_history (flush_out o)
  handle_input_action read (hermit, bytes) = hermit_action
  handle_input_action read (pty, bytes) = with_history (write_parent o bytes)
  handle_input_action read (pass_through, bytes) = with_history (write_parent o read)

  -- `read` are the bytes in the buffer.
  unfoldable pub handle_input_actions : Bytes → ShellInputActions → Method ShellProxy (Unit {0})
  unfolding handle_input_action
  handle_input_actions read [] = pure tt
  handle_input_actions read (action ∷ actions) = do
    handle_input_action read action
    handle_input_actions read actions

  unfoldable pub on_input : Answer Bytes → Method ShellProxy (Unit {0})
  unfolding handle_input_actions map_err Input.handle_input
  on_input (answer []) = pure tt
  on_input (answer (c ∷ cs)) = do
    actions ← with_input (Input.handle_input (c ∷ cs))
    handle_input_actions (c ∷ cs) actions
  on_input (failure e) = with_history (map_err (failure e) (codes "Failed to read from stdin"))

  unfoldable pub handle_input : Method ShellProxy (Unit {0})
  unfolding on_input
  handle_input = do n ← with_history (call read_stdin on_read_stdin); on_input n

  -- The text that is sent to hermitd.
  abbrev pub context_of : Bytes → Text
  context_of bytes = strip_ansi_escape_sequences is_decimal (from_utf8_lossy bytes)

  abbrev pub send_context : Option ShellOutputType → Bytes → Method ShellProxy (Unit {0})
  send_context context_type bytes p =
      with_history (save_context o p.session_id context_type (context_of bytes)) p

  abbrev pub aggregate : Bytes → Method ShellProxy (Unit {0})
  aggregate step p = (ok tt, record p { output_aggregation = p.output_aggregation ++ step })

  abbrev pub on_output_type : ShellOutputType → Method ShellProxy (Unit {0})
  on_output_type header = with_input activate
  on_output_type input = with_input finish_shell_prompt
  on_output_type input_aborted = with_input finish_shell_prompt
  on_output_type _ = pure tt

  -- The aggregation with the step behind it, if there is one, and it is cleared.
  abbrev pub take_context : Bytes → Method ShellProxy Bytes
  take_context step p = take_aggregated p.output_aggregation
    where
      take_aggregated : Bytes → Outcome Bytes × ShellProxy
      take_aggregated [] = (ok step, p)
      take_aggregated (c ∷ cs) = (ok ((c ∷ cs) ++ step), record p { output_aggregation = [] })

  unfoldable pub handle_parsed : ParsedOutput → Method ShellProxy (Unit {0})
  unfolding write_out activate finish_shell_prompt
  handle_parsed (in_progress step true) = do with_history (write_out o step); aggregate step
  handle_parsed (in_progress step false) = do
    with_history (write_out o step)
    send_context none step
  handle_parsed (parsed output_type step) = do
    with_history (write_out o step)
    on_output_type output_type
    bytes ← take_context step
    send_context (some output_type) bytes

  unfoldable pub handle_all : List ParsedOutput → Method ShellProxy (Unit {0})
  unfolding handle_parsed
  handle_all [] = pure tt
  handle_all (out ∷ outs) = do handle_parsed out; handle_all outs

  unfoldable pub on_output : PtyRead → Method ShellProxy Bool
  unfolding handle_all flush_out parse_output map_err
  on_output (pty_bytes []) = pure true
  on_output (pty_bytes (c ∷ cs)) = do
    parsed_outputs ← with_output (λ q. parse_output q (c ∷ cs))
    handle_all parsed_outputs
    with_history (flush_out o)
    pure true
  on_output pty_eio = pure false
  on_output (pty_failure e) =
      with_history (map_err (failure e) (codes "Failed to read from parent_fd"))

  -- `true` unless the child process has exited.
  unfoldable pub handle_output : Method ShellProxy Bool
  unfolding on_output
  handle_output = do n ← with_history (call read_pty on_read_pty); on_output n
