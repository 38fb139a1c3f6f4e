-- ===== src/Shell/Screen.antt =====
-- llmsh/src/shell.rs, `handle_output`: the user's terminal, whatever pieces bash's output comes in.
use mathlib.Core.Path.{subst}
use llmsh.Base.{
  ℕ, List, [], ◌∷◌, ◌++◌, map, Bool, Bytes, ok, ◌≡◌, refl, sym, ap, ◌∙◌, length, take, drop,
  ok-injective,
}
use llmsh.Outside.{Outside, ShellOutputType, pty_bytes, read_pty}
use llmsh.Parsing.{StepResults, state_change, echo}
use llmsh.Parsing.Visible.{output}
use llmsh.Parsing.Screens.{write, AreWiped, write-append}
use llmsh.Parsing.Cleaned.{Cleans}
use llmsh.Parsing.Hidden.{parse-Cleans}
use llmsh.Shell.Bash.{BashState, parsed_output, transitions, bash_state_eq}
use llmsh.Shell.Output.{IsBash}
use llmsh.Shell.Proxy.{ShellProxy, handle_output}
use llmsh.Shell.Contexts.{written, steps}
use llmsh.Shell.Reading.{handle_output-parsed}

steps-output :
    (results : List (StepResults ShellOutputType Bool))
    → steps (map parsed_output results) ≡ output results
unfolding parsed_output
steps-output [] = refl
steps-output (state_change event step ∷ results) = ap (λ t. step ++ t) (steps-output results)
steps-output (echo event step ∷ results) = ap (λ t. step ++ t) (steps-output results)

module _ (m n : Bytes) (o : Outside) {Screen : Type 0} (put : ℕ → Screen → Screen) where
  -- On any terminal, which started as `blank` and showed the text since the last transition behind
  -- `base`: output comes in and `handle_output` returns. If what had been shown past the end of the
  -- first match is wiped, byte for byte, by deletions, the terminal comes to show, behind `base`, the
  -- text with the new input without its hidden markers, and the next call starts from there.
  pub handle_output-Cleans :
      (blank base : Screen) (p p' : ShellProxy) {more : Bool} (c : ℕ) (cs : Bytes) {end : ℕ}
      {shown rest : Bytes} {last : BashState} (is : IsBash m n p.output_parser)
      → p.output_parser.parsed_length ≡ length p.output_parser.input_buffer
      → write put (written p.history) blank ≡ write put is.valid.reader.text base
      → o.on_read_pty (read_pty ∷ p.history) ≡ pty_bytes (c ∷ cs)
      → handle_output o p ≡ (ok more, p')
      → Cleans
          (transitions m n)
          (is.valid.reader.text ++ (c ∷ cs))
          is.valid.reader.state
          end
          shown
          rest
          last
      → AreWiped put
          (drop end is.valid.reader.text)
          (write put (take end (is.valid.reader.text ++ (c ∷ cs))) base)
      → (is' : IsBash m n p'.output_parser) × (write put (written p'.history) blank
          ≡ write put is'.valid.reader.text (write put shown base))
        × (is'.valid.reader.text ≡ rest)
        × (is'.valid.reader.state ≡ last)
        × (p'.output_parser.parsed_length ≡ length p'.output_parser.input_buffer)
  handle_output-Cleans blank base p p' c cs {end} {shown} {rest} {last} is all_read before read
        returned cleaning are =
      let (results, parsed, _, shows) = handle_output-parsed o p p' c cs read returned in
      let text = is.valid.reader.text in
      let (results', q, v, parsed', screen, text_is, state_is, read', same_map, same_events) =
        parse-Cleans p.output_parser (c ∷ cs) is.valid put base all_read
          (subst (λ ts. Cleans ts (text ++ (c ∷ cs)) is.valid.reader.state end shown rest last)
            (sym is.state_map) cleaning)
          are in
      let same = ok-injective (sym parsed' ∙ parsed) in
      let now : write put (written p'.history) blank ≡ write put rest (write put shown base) =
        ap (λ t. write put t blank) shows.to_terminal
        ∙ write-append put (written p.history) (steps (map parsed_output results)) blank
        ∙ ap (λ t. write put t (write put (written p.history) blank)) (steps-output results)
        ∙ ap (λ r. write put (output r.0) (write put (written p.history) blank)) (sym same)
        ∙ ap (write put (output results')) before
        ∙ screen in
      subst
        (λ q.
          (is' : IsBash m n q) × (write put (written p'.history) blank
            ≡ write put is'.valid.reader.text (write put shown base))
          × (is'.valid.reader.text ≡ rest)
          × (is'.valid.reader.state ≡ last)
          × (q.parsed_length ≡ length q.input_buffer))
        (ap (λ r. r.1) same)
        (
          record {
            valid = v;
            state_map = same_map ∙ is.state_map;
            echo_events = same_events ∙ is.echo_events;
          },
          now ∙ ap (λ t. write put t (write put shown base)) (sym text_is),
          text_is,
          state_is,
          read',
        )
