-- ===== src/Shell/Input.antt =====
-- shell.rs: `ShellInputStateMachine`.
use llmsh.Base.{
  List, [], ◌∷◌, Bool, true, false, ◌||◌, Bytes, codes, Error, illegal_state, ok, err, panicked,
  ◌++◌, ◌==◌, if◌then◌else◌,
}
use llmsh.Effects.{Method}

pub data ShellInputState : Type 0 where
  undetermined hermit_input shell_prompt idle : ShellInputState

pub data ShellInputTarget : Type 0 where
  stdout pty hermit pass_through : ShellInputTarget

abbrev pub ShellInputActions : Type 0
ShellInputActions = List (ShellInputTarget × Bytes)

-- `{:?}` of a state
abbrev state_name : ShellInputState → Bytes
state_name undetermined = codes "Undetermined"
state_name hermit_input = codes "HermitInput"
state_name shell_prompt = codes "ShellPrompt"
state_name idle = codes "Idle"

abbrev called_in : Bytes → ShellInputState → Error
called_in name state =
    illegal_state
      (codes "Tried calling " ++ name ++ codes " in state " ++ state_name state ++ codes " instead")

-- The machine is its state.
unfoldable pub new : ShellInputState
new = idle

unfoldable pub activate : Method ShellInputState (Unit {0})
activate idle = (ok tt, undetermined)
activate state = (err (called_in (codes "activate") state), state)

unfoldable pub finish_shell_prompt : Method ShellInputState (Unit {0})
finish_shell_prompt shell_prompt = (ok tt, idle)
finish_shell_prompt undetermined = (ok tt, idle)
finish_shell_prompt state = (err (called_in (codes "finish_shell_prompt") state), state)

unfoldable pub finish_hermit_inputs : Method ShellInputState (Unit {0})
finish_hermit_inputs hermit_input = (ok tt, shell_prompt)
finish_hermit_inputs state = (err (called_in (codes "finish_hermit_inputs") state), state)

-- input.contains(&b':')
unfoldable pub contains_colon : Bytes → Bool
contains_colon [] = false
contains_colon (c ∷ input) = c == b':' || contains_colon input

unfoldable pub handle_shell_prompt : Bytes → ShellInputActions
handle_shell_prompt input = (pty, input) ∷ []

unfoldable pub handle_undetermined : Bytes → Method ShellInputState ShellInputActions
unfolding handle_shell_prompt contains_colon
handle_undetermined input state =
    if contains_colon input
    then (ok ((hermit, []) ∷ []), hermit_input)
    else (ok (handle_shell_prompt input), shell_prompt)

unfoldable pub handle_input : Bytes → Method ShellInputState ShellInputActions
unfolding handle_undetermined handle_shell_prompt
handle_input input undetermined = handle_undetermined input undetermined
handle_input input hermit_input = (panicked, hermit_input)
handle_input input shell_prompt = (ok (handle_shell_prompt input), shell_prompt)
handle_input input idle = (ok ((pass_through, []) ∷ []), idle)

-- Whether the user is at a prompt of the shell.
abbrev pub at_prompt : ShellInputState → Bool
at_prompt undetermined = true
at_prompt hermit_input = true
at_prompt shell_prompt = true
at_prompt idle = false
