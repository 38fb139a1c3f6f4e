-- ===== src/Examples/Screens.antt =====
-- A hidden marker that comes in two pieces, on a terminal of one line.
use llmsh.Base.{
  ℕ, List, [], ◌∷◌, ◌++◌, Bool, false, Bytes, codes, ok, ◌≡◌, refl, sym, ap, ◌∙◌, ◌==◌,
  if◌then◌else◌, length, take, drop, bytes_eq, arith, get,
}
use mathlib.Core.Path.{subst}
use llmsh.Outside.{Outside, pty_bytes, ShellOutputType}
use llmsh.Messages.{save_context}
use llmsh.Parsing.{find_smallest_present}
use llmsh.Parsing.Search.{find}
use llmsh.Parsing.Leftmost.{NoMatch, IsLeftmost, pick-NoMatch}
use llmsh.Parsing.Screens.{write, AreWiped}
use llmsh.Parsing.Cleaned.{Cleans, rests, cleans}
use llmsh.Shell.Bash.{
  BashState, idle, bash_state_eq, transitions, input_end, output_end, make_string_id,
  shell_prompt_input_start,
}
use llmsh.Shell.Coupling.{IsWorking}
use llmsh.Examples.Typing.{fresh, fresh_IsCoupled}
use llmsh.Shell.Output.{IsBash, IsCoupled, handle_output-works}
use llmsh.Shell.Proxy.{ShellProxy, handle_output}
use llmsh.Shell.Contexts.{written}
use llmsh.Shell.Screen.{handle_output-Cleans}
use llmsh.Examples.Witnesses.{in_marker, out_marker, outside}
use llmsh.Examples.Prompts.{leftmost, waiting, waiting_bash}

-- What is left of the cursor, the nearest first, and from the cursor on.
abbrev pub Line : Type 0
Line = Bytes × Bytes

abbrev pub back : Line → Line
back ([], cells) = ([], cells)
back (c ∷ before, cells) = (before, c ∷ cells)

abbrev pub forth : ℕ → Line → Line
forth c (before, []) = (before, [])
forth c (before, _ ∷ cells) = (c ∷ before, cells)

abbrev put : ℕ → Line → Line
put c s = if c == 8 then back s else forth c s

abbrev pub blank : Line
blank = ([], codes "        ")

-- No marker in what comes first.
abbrev first : Bytes
first = codes "hi<o"

abbrev ends : List Bytes
ends = input_end in_marker out_marker ∷ output_end in_marker out_marker ∷ []

none_yet : NoMatch ends first
unfolding make_string_id find bytes_eq find_smallest_present
none_yet = pick-NoMatch first ends (omega arith, (omega arith, tt)) refl

none_behind : NoMatch ((make_string_id shell_prompt_input_start) ∷ []) (codes "me")
unfolding make_string_id find bytes_eq find_smallest_present
none_behind =
    pick-NoMatch (codes "me") (make_string_id shell_prompt_input_start ∷ []) (omega arith, tt) refl

at_marker : IsLeftmost ends (first ++ codes "n>me") 1 2
unfolding make_string_id find bytes_eq find_smallest_present
at_marker = leftmost (first ++ codes "n>me") ends 1 2 (omega arith, (omega arith, tt)) refl refl

first_Cleans :
    Cleans (transitions in_marker out_marker) first BashState.output 4 [] first BashState.output
unfolding transitions get
first_Cleans = rests _ refl none_yet

second_Cleans :
    Cleans
      (transitions in_marker out_marker)
      (first ++ codes "n>me")
      BashState.output
      2
      (codes "hi")
      (codes "me")
      idle
unfolding transitions make_string_id get
second_Cleans =
    cleans _ 1 2 (codes "<on>") false idle ShellOutputType.output refl refl at_marker refl refl
      (rests _ refl none_behind)

-- The shell prints these bytes.
abbrev printing : Bytes → Outside
printing bytes = record outside { on_read_pty = λ h. pty_bytes bytes }

printing-IsWorking : (bytes : Bytes) → IsWorking (printing bytes)
unfolding save_context bytes_eq
printing-IsWorking bytes = record {
  writes = λ h. refl;
  saves = λ session_id context_type context h. refl;
  reads = λ h e r. cc;
}

abbrev once :
    (more : Bool) × (p' : ShellProxy) × (handle_output (printing first) fresh ≡ (ok more, p'))
    × IsCoupled in_marker out_marker p'
once =
    handle_output-works in_marker out_marker (printing first) fresh fresh_IsCoupled
      (printing-IsWorking first)

abbrev twice :
    (more : Bool) × (p' : ShellProxy) × (handle_output (printing (codes "n>me")) once.1
      ≡ (ok more, p'))
    × IsCoupled in_marker out_marker p'
twice =
    handle_output-works in_marker out_marker (printing (codes "n>me")) once.1 once.3
      (printing-IsWorking (codes "n>me"))

abbrev Showing : ShellProxy → Line → Bytes → BashState → Type 0
Showing p base text state =
    (is : IsBash in_marker out_marker p.output_parser) × (write put (written p.history) blank
      ≡ write put is.valid.reader.text base)
    × (is.valid.reader.text ≡ text)
    × (is.valid.reader.state ≡ state)
    × (p.output_parser.parsed_length ≡ length p.output_parser.input_buffer)

shows_first : Showing once.1 blank first BashState.output
shows_first =
    handle_output-Cleans in_marker out_marker (printing first) put blank blank fresh once.1 b'h'
      (codes "i<o") waiting_bash (omega (arith, waiting.2.sim.seen_le, ap length waiting.5))
      (ap (λ t. write put t blank) (sym waiting.3)) refl once.2
      (subst
        (λ t.
          Cleans (transitions in_marker out_marker) (t ++ first) waiting.2.reader.state 4 [] first
            BashState.output)
        (sym waiting.3)
        (subst (λ s. Cleans (transitions in_marker out_marker) first s 4 [] first BashState.output)
          (sym (ap (λ r. r.state) waiting.2.sim.is_view ∙ waiting.4)) first_Cleans))
      (subst (λ t. AreWiped put (drop 4 t) (write put (take 4 (t ++ first)) blank)) (sym waiting.3)
        tt)

handle_output-Cleans_example : Showing twice.1 (write put (codes "hi") blank) (codes "me") idle
handle_output-Cleans_example =
    handle_output-Cleans in_marker out_marker (printing (codes "n>me")) put blank blank once.1
      twice.1 b'n' (codes ">me") shows_first.0 shows_first.4 shows_first.1 refl twice.2
      (subst
        (λ t.
          Cleans (transitions in_marker out_marker) (t ++ codes "n>me")
            shows_first.0.valid.reader.state 2 (codes "hi") (codes "me") idle)
        (sym shows_first.2)
        (subst
          (λ s.
            Cleans (transitions in_marker out_marker) (first ++ codes "n>me") s 2 (codes "hi")
              (codes "me") idle)
          (sym shows_first.3) second_Cleans))
      (subst (λ t. AreWiped put (drop 2 t) (write put (take 2 (t ++ codes "n>me")) blank))
        (sym shows_first.2) (refl, (refl, tt)))
