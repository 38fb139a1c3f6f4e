-- ===== src/Shell/Bash.antt =====
-- shell.rs: `BashParser`, the buffer parser over the states of an interactive bash.
use llmsh.Base.{
  List, [], ◌∷◌, ◌++◌, map, Bool, true, false, Bytes, Eq, Outcome, ok, ◌>>=◌, ◌==◌, if◌then◌else◌,
  ◌≡◌, ◌↔◌, HashMap, arith,
}
use llmsh.Parsing
use llmsh.Parsing.{StepResults, state_change, echo, Transition, string_id, BufferParser, parse}
use llmsh.Outside.{ShellOutputType}

pub data BashState : Type 0 where
  idle cmd_input output : BashState

abbrev pub state_eq : BashState → BashState → Bool
state_eq idle idle = true
state_eq cmd_input cmd_input = true
state_eq output output = true
state_eq _ _ = false

pub state_eq_iff : (a b : BashState) → (state_eq a b ≡ true) ↔ (a ≡ b)
state_eq_iff a b = ground arith

instance abbrev pub bash_state_eq : Eq BashState
bash_state_eq = record { beq = state_eq; beq_iff = state_eq_iff }

pub data ParsedOutput : Type 0 where
  in_progress : (step : Bytes) (aggregate_locally : Bool) → ParsedOutput
  parsed : (output_type : ShellOutputType) (step : Bytes) → ParsedOutput

-- "🐚"
abbrev pub shell_prompt_input_start : Bytes
shell_prompt_input_start = 0xF0 ∷ 0x9F ∷ 0x90 ∷ 0x9A ∷ []

-- s.replace("\n", "\r\n")
unfoldable pub make_string_id : Bytes → Bytes
make_string_id [] = []
make_string_id (c ∷ s) = (if c == 10 then 13 ∷ 10 ∷ [] else c ∷ []) ++ make_string_id s

abbrev pub BashParser : Type 0
BashParser = BufferParser BashState ShellOutputType Bool

module _ (input_end_marker output_end_marker : Bytes) where
  abbrev pub input_end : Bytes
  input_end = make_string_id input_end_marker

  abbrev pub output_end : Bytes
  output_end = make_string_id output_end_marker

  unfoldable pub transitions : HashMap BashState (List (Transition BashState ShellOutputType))
  transitions =
      (
        idle,
        (
          string_id (make_string_id shell_prompt_input_start) true,
          cmd_input,
          ShellOutputType.header,
        )
            ∷ [],
      )
      ∷ (
        cmd_input,
        (string_id input_end false, BashState.output, ShellOutputType.input)
            ∷ (string_id output_end false, idle, ShellOutputType.input_aborted)
            ∷ [],
      )
      ∷ (
        BashState.output,
        (string_id input_end false, BashState.output, ShellOutputType.output)
            ∷ (string_id output_end false, idle, ShellOutputType.output)
            ∷ [],
      )
      ∷ []

  unfoldable pub echoes : HashMap BashState Bool
  echoes = (idle, false) ∷ (cmd_input, true) ∷ (BashState.output, false) ∷ []

  -- It starts with the output state, which the first prompt ends.
  unfoldable pub new : Outcome BashParser
  unfolding transitions echoes
  new = Parsing.new BashState.output transitions echoes

unfoldable pub parsed_output : StepResults ShellOutputType Bool → ParsedOutput
parsed_output (echo event step) = in_progress step event
parsed_output (state_change event step) = parsed event step

unfoldable pub parse_output : BashParser → Bytes → Outcome (List ParsedOutput × BashParser)
unfolding parsed_output
parse_output p bytes = do (results, p') ← parse p bytes; ok (map parsed_output results, p')
