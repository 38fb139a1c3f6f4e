-- ===== src/Shell/Hermit.antt =====
-- shell.rs: the dialogue with the user and hermitd. Of the proxy it uses the terminal and the client.
use llmsh.Base.{ℕ, List, [], ◌∷◌, ◌++◌, Option, none, some, Bytes, codes, get_elem?, ok}
use llmsh.Text.{Text, into_bytes}
use llmsh.Util.{fix_newlines}
use llmsh.Effects.{Method, ◌>>=◌, ◌>>◌, pure}
use llmsh.Outside.{
  Outside, History, write_stdout, flush_stdout, write_pty, read_line, Signal, line, ctrl_d, ctrl_c,
  Answer, answer, failure,
}
use llmsh.Messages.{map_err, call, generate_command}
use llmsh.Shell.Strings.{trim, parse_usize, choices_from}

-- "🦀〉"
abbrev pub hermitd_resp_header : Text
hermitd_resp_header = 0x1F980 ∷ 0x3009 ∷ []

module _ (o : Outside) where
  open o use {on_write, on_read_line}

  -- stdout_fd.write_all
  unfoldable pub write_out : Bytes → Method History (Unit {0})
  unfolding map_err
  write_out bytes = do
    a ← call (write_stdout bytes) on_write
    map_err a (codes "Failed to write to stdout")

  unfoldable pub flush_out : Method History (Unit {0})
  unfolding map_err
  flush_out = do a ← call flush_stdout on_write; map_err a (codes "Failed to flush stdout")

  -- parent_fd.write_all: the call is noted with its bytes, how many were written where it fails is not.
  unfoldable pub write_parent : Bytes → Method History (Unit {0})
  unfolding map_err
  write_parent bytes = do
    a ← call (write_pty bytes) on_write
    map_err a (codes "Failed to write to parent_fd")

  unfoldable pub hermit_print : Text → Method History (Unit {0})
  unfolding write_out flush_out
  hermit_print message = do
    write_out (fix_newlines (into_bytes (hermitd_resp_header ++ message ++ codes "\n")))
    flush_out

  -- `_hermit_map_err`, which nothing calls: a failure is told to the user, and whether that could be
  -- written does not matter.
  unfoldable hermit_map_err : {A : Type 0} → Answer A → Text → Method History (Option A)
  unfolding hermit_print
  hermit_map_err (answer value) msg h = (ok (some value), h)
  hermit_map_err (failure e) msg h = (ok none, (hermit_print msg h).1)

  unfoldable pub accepted_line : Signal → Option Text
  accepted_line (line text) = some text
  accepted_line ctrl_d = none
  accepted_line ctrl_c = none

  unfoldable pub handle_hermit_prompt : Method History (Option Text)
  unfolding map_err accepted_line
  handle_hermit_prompt = do
    result ← call read_line on_read_line
    signal ← map_err result (codes "Unknown error during handling hermitd prompt")
    pure (accepted_line signal)

  -- The number that the user typed: 0 for an empty line.
  unfoldable pub selection_of : Text → Option ℕ
  selection_of [] = some 0
  selection_of (c ∷ cs) = parse_usize (c ∷ cs)

  unfoldable pub invalid_selection : Method History (Option Text)
  unfolding hermit_print
  invalid_selection = do hermit_print (codes "Please input a valid selection"); pure none

  unfoldable pub select : List Text → Option ℕ → Method History (Option Text)
  unfolding invalid_selection
  select commands none = invalid_selection
  select commands (some selection) = elim (get_elem? commands selection) [
    | some command ↦ pure (some command)
    | none ↦ invalid_selection
  ]

  unfoldable pub on_selection : List Text → Signal → Method History (Option Text)
  unfolding select selection_of
  on_selection commands (line text) = select commands (selection_of (trim text))
  on_selection commands ctrl_d = pure none
  on_selection commands ctrl_c = pure none

  unfoldable pub handle_hermit_selection : List Text → Method History (Option Text)
  unfolding hermit_print on_selection map_err
  handle_hermit_selection [] = pure none
  handle_hermit_selection (c ∷ cs) = do
    hermit_print (
        codes "To run a suggested command from hermitd, type one of the following: \n"
        ++ choices_from 0 (c ∷ cs))
    result ← call read_line on_read_line
    signal ← map_err result (codes "Unknown error during handling hermitd prompt")
    on_selection (c ∷ cs) signal

  -- "\r", or the command between two of it
  unfoldable pub pty_input : Option Text → Text
  pty_input none = codes "\r"
  pty_input (some selection) = codes "\r" ++ selection ++ codes "\r"

  unfoldable pub handle_hermit_with : ℕ → Option Text → Method History Text
  unfolding hermit_print handle_hermit_selection pty_input
  handle_hermit_with session_id none = pure (pty_input none)
  handle_hermit_with session_id (some prompt) = do
    (response, commands) ← generate_command o session_id prompt
    hermit_print response
    selection ← handle_hermit_selection commands
    pure (pty_input selection)

  unfoldable pub handle_hermit : ℕ → Method History Text
  unfolding handle_hermit_prompt handle_hermit_with
  handle_hermit session_id = do prompt ← handle_hermit_prompt; handle_hermit_with session_id prompt
