-- ===== src/Shell/Moved.antt =====
-- llmsh/src/shell.rs, `handle_output`: the input's machine follows the events of the parser's transitions.
use llmsh.Base.{List, [], ◌∷◌, map, Bool, true, false, none, Bytes, ok, ◌≡◌, refl, sym, ap, ◌∙◌}
use llmsh.Effects.{Method, bind-ok}
use llmsh.Outside.{Outside, ShellOutputType, header, input, input_aborted}
use llmsh.Parsing.{StepResults, state_change, echo}
use llmsh.Parsing.Chunks.{changes}
use llmsh.Shell.Input.{
  ShellInputState, undetermined, hermit_input, shell_prompt, idle, activate, finish_shell_prompt,
}
use llmsh.Shell.Bash.{parsed_output}
use llmsh.Shell.Hermit.{write_out}
use llmsh.Shell.Proxy.{
  ShellProxy, with_history, with_input, send_context, aggregate, on_output_type, take_context,
  handle_parsed, handle_all,
}

-- The state of the input's machine after an event, and after several.
abbrev pub moved_by : ShellOutputType → ShellInputState → ShellInputState
moved_by header s = undetermined
moved_by input s = idle
moved_by input_aborted s = idle
moved_by ShellOutputType.output s = s

abbrev pub moved : List ShellOutputType → ShellInputState → ShellInputState
moved [] s = s
moved (event ∷ events) s = moved events (moved_by event s)

activate-ok : (s s' : ShellInputState) → activate s ≡ (ok tt, s') → s' ≡ undetermined
unfolding activate
activate-ok idle s' e = sym (ap (λ r. r.1) e)
activate-ok undetermined s' e = cc
activate-ok hermit_input s' e = cc
activate-ok shell_prompt s' e = cc

finish_shell_prompt-ok : (s s' : ShellInputState) → finish_shell_prompt s ≡ (ok tt, s') → s' ≡ idle
unfolding finish_shell_prompt
finish_shell_prompt-ok shell_prompt s' e = sym (ap (λ r. r.1) e)
finish_shell_prompt-ok undetermined s' e = sym (ap (λ r. r.1) e)
finish_shell_prompt-ok hermit_input s' e = cc
finish_shell_prompt-ok idle s' e = cc

with_input-ok :
    (m : Method ShellInputState (Unit {0})) (p p' : ShellProxy)
    → with_input m p ≡ (ok tt, p')
    → m p.input_parser ≡ (ok tt, p'.input_parser)
with_input-ok m p p' e = λ i. ((e i).0, (e i).1.input_parser)

module _ (o : Outside) where
  moved-on_output_type :
      (event : ShellOutputType) (p p' : ShellProxy)
      → on_output_type o event p ≡ (ok tt, p')
      → p'.input_parser ≡ moved_by event p.input_parser
  moved-on_output_type header p p' e = activate-ok _ _ (with_input-ok activate p p' e)
  moved-on_output_type input p p' e =
      finish_shell_prompt-ok _ _ (with_input-ok finish_shell_prompt p p' e)
  moved-on_output_type input_aborted p p' e =
      finish_shell_prompt-ok _ _ (with_input-ok finish_shell_prompt p p' e)
  moved-on_output_type ShellOutputType.output p p' e = ap (λ r. r.1.input_parser) (sym e)

  take_context-input :
      (step : Bytes) (p : ShellProxy) → (take_context o step p).1.input_parser ≡ p.input_parser
  take_context-input step p = same p.output_aggregation refl
    where
      same :
          (agg : Bytes)
          → p.output_aggregation ≡ agg
          → (take_context o step p).1.input_parser ≡ p.input_parser
      same [] is = rw (take_context, is) refl
      same (c ∷ cs) is = rw (take_context, is) refl

  moved-handle_parsed :
      (x : StepResults ShellOutputType Bool) (p p' : ShellProxy)
      → handle_parsed o (parsed_output x) p ≡ (ok tt, p')
      → p'.input_parser ≡ moved (changes (x ∷ [])) p.input_parser
  unfolding handle_parsed parsed_output
  moved-handle_parsed (echo true step) p p' e =
      let (_, p1, writing, e1) =
        bind-ok (with_history (write_out o step)) (λ _. aggregate o step) p e in
      ap (λ r. r.1.input_parser) (sym e1) ∙ ap (λ r. r.1.input_parser) (sym writing)
  moved-handle_parsed (echo false step) p p' e =
      let (_, p1, writing, e1) =
        bind-ok (with_history (write_out o step)) (λ _. send_context o none step) p e in
      ap (λ r. r.1.input_parser) (sym e1) ∙ ap (λ r. r.1.input_parser) (sym writing)
  moved-handle_parsed (state_change event step) p p' e =
      let (_, p1, writing, e1) = bind-ok (with_history (write_out o step)) _ p e in
      let (_, p2, typing, e2) = bind-ok (on_output_type o event) _ p1 e1 in
      let (bytes, p3, taking, e3) = bind-ok (take_context o step) _ p2 e2 in
      ap (λ r. r.1.input_parser) (sym e3)
      ∙ ap (λ r. r.1.input_parser) (sym taking)
      ∙ take_context-input step p2
      ∙ moved-on_output_type event p1 p2 typing
      ∙ ap (moved_by event) (ap (λ r. r.1.input_parser) (sym writing))

  -- After parsed outputs that were handled, the input's machine is where their transitions lead.
  pub moved-handle_all :
      (results : List (StepResults ShellOutputType Bool)) (p p' : ShellProxy)
      → handle_all o (map parsed_output results) p ≡ (ok tt, p')
      → p'.input_parser ≡ moved (changes results) p.input_parser
  unfolding handle_all
  moved-handle_all [] p p' e = ap (λ r. r.1.input_parser) (sym e)
  moved-handle_all (x ∷ results) p p' e =
      let (_, p1, first, rest) =
        bind-ok (handle_parsed o (parsed_output x)) (λ _. handle_all o (map parsed_output results))
          p e in
      moved-handle_all results p1 p' rest
      ∙ ap (moved (changes results)) (moved-handle_parsed x p p1 first)
      ∙ joined x
    where
      joined :
          (x : StepResults ShellOutputType Bool)
          → moved (changes results) (moved (changes (x ∷ [])) p.input_parser)
            ≡ moved (changes (x ∷ results)) p.input_parser
      joined (state_change event step) = refl
      joined (echo event step) = refl
