-- ===== src/Shell/Flags.antt =====
-- The order of the parsed outputs: a prompt begins, then the command is typed, then it ends or is aborted.
use llmsh.Base.{
  ℕ, zero, suc, List, [], ◌∷◌, map, Option, none, some, Bool, true, false, Bytes, ◌≡◌, get,
  get_elem?, arith,
}
use llmsh.Parsing.{StepResults, Transition, string_id}
use llmsh.Parsing.Reference.{Reader, Reads, matched, missed, Runs, done, more}
use llmsh.Outside.{ShellOutputType, header, input, input_aborted}
use llmsh.Shell.Bash.{
  BashState, idle, cmd_input, ParsedOutput, in_progress, parsed, parsed_output, transitions, echoes,
  input_end, output_end, bash_state_eq, make_string_id, shell_prompt_input_start,
}

-- Whether the shell reads a command.
abbrev pub in_input : BashState → Bool
in_input idle = false
in_input cmd_input = true
in_input BashState.output = false

-- Whether it does so after one more output; none if the output is out of order.
unfoldable pub after : Bool → ParsedOutput → Option Bool
after true (in_progress step true) = some true
after false (in_progress step false) = some false
after false (parsed header step) = some true
after true (parsed input step) = some false
after true (parsed input_aborted step) = some false
after false (parsed ShellOutputType.output step) = some false
after _ _ = none

-- The outputs are in order, and lead from one value to the other.
pub data InOrder : Bool → List ParsedOutput → Bool → Type 0 where
  ended : {b : Bool} → InOrder b [] b
  next :
      {b : Bool} {out : ParsedOutput} {c : Bool} {outs : List ParsedOutput} {d : Bool}
      → after b out ≡ some c
      → InOrder c outs d
      → InOrder b (out ∷ outs) d

pub some-injective : {A : Type 0} {a b : A} → some a ≡ some b → a ≡ b
some-injective h = cc

module _ (m n : Bytes) where
  after-change :
      (state : BashState) (k : ℕ) (ts : List (Transition BashState ShellOutputType)) (id : Bytes)
      (v : Bool) (s : BashState) (ev : ShellOutputType) (step : Bytes)
      → get (transitions m n) state ≡ some ts
      → get_elem? ts k ≡ some (string_id id v, s, ev)
      → after (in_input state) (parsed ev step) ≡ some (in_input s)
  unfolding transitions get after
  after-change idle k ts id v s ev step g h = after-idle k (rw (some-injective g) h)
    where
      after-idle :
          (k : ℕ)
          → get_elem? {A = Transition BashState ShellOutputType}
              ((string_id (make_string_id shell_prompt_input_start) true, cmd_input, header) ∷ [])
              k
            ≡ some (string_id id v, s, ev)
          → after false (parsed ev step) ≡ some (in_input s)
      after-idle zero h = cc
      after-idle (suc k) h = cc
  after-change cmd_input k ts id v s ev step g h = after-cmd_input k (rw (some-injective g) h)
    where
      after-cmd_input :
          (k : ℕ)
          → get_elem? {A = Transition BashState ShellOutputType}
              ((string_id (input_end m n) false, BashState.output, input)
                ∷ (string_id (output_end m n) false, idle, input_aborted)
                ∷ [])
              k
            ≡ some (string_id id v, s, ev)
          → after true (parsed ev step) ≡ some (in_input s)
      after-cmd_input zero h = cc
      after-cmd_input (suc zero) h = cc
      after-cmd_input (suc (suc k)) h = cc
  after-change BashState.output k ts id v s ev step g h = after-output k (rw (some-injective g) h)
    where
      after-output :
          (k : ℕ)
          → get_elem? {A = Transition BashState ShellOutputType}
              ((string_id (input_end m n) false, BashState.output, ShellOutputType.output)
                ∷ (string_id (output_end m n) false, idle, ShellOutputType.output)
                ∷ [])
              k
            ≡ some (string_id id v, s, ev)
          → after false (parsed ev step) ≡ some (in_input s)
      after-output zero h = cc
      after-output (suc zero) h = cc
      after-output (suc (suc k)) h = cc

  after-echo :
      (state : BashState) (ev : Bool) (step : Bytes)
      → get (echoes m n) state ≡ some ev
      → after (in_input state) (in_progress step ev) ≡ some (in_input state)
  unfolding echoes get after
  after-echo idle ev step g = ground arith
  after-echo cmd_input ev step g = ground arith
  after-echo BashState.output ev step g = ground arith

  Reads-after :
      (r : Reader BashState) (x : StepResults ShellOutputType Bool) (r1 : Reader BashState)
      → Reads (transitions m n) (echoes m n) r x r1
      → after (in_input r.state) (parsed_output x) ≡ some (in_input r1.state)
  unfolding parsed_output
  Reads-after r x r1 (matched ts k i id v s ev new g listed l is_x is_r) =
      rw (is_x, is_r) (after-change r.state k ts id v s ev _ g listed)
  Reads-after r x r1 (missed ts ev new g none_at g' is_x is_r) =
      rw (is_x, is_r) (after-echo r.state ev _ g')

  -- The results of the parser over bash's maps are in order.
  pub Runs-InOrder :
      {r : Reader BashState} {xs : List (StepResults ShellOutputType Bool)} {r' : Reader BashState}
      → Runs (transitions m n) (echoes m n) r xs r'
      → InOrder (in_input r.state) (map parsed_output xs) (in_input r'.state)
  Runs-InOrder (done h) = ended
  Runs-InOrder (more {r = r} {result = x} {r' = r1} reads runs) =
      next (Reads-after r x r1 reads) (Runs-InOrder runs)
