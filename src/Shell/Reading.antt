-- ===== src/Shell/Reading.antt =====
-- llmsh/src/shell.rs, `handle_output`: the parser that is left is the one that `parse_output` returned.
use mathlib.Core.Path.{subst}
use llmsh.Base.{
  ℕ, List, ◌∷◌, map, Bool, Bytes, ok, ◌≡◌, refl, sym, ap, ◌∙◌, ok-injective, returned-first,
}
use llmsh.Effects.{bind-ok}
use llmsh.Outside.{Outside, pty_bytes, read_pty, ShellOutputType}
use llmsh.Parsing.{StepResults, parse}
use llmsh.Shell.Bash.{BashParser, ParsedOutput, parsed_output, parse_output, bash_state_eq}
use llmsh.Shell.Hermit.{flush_out}
use llmsh.Shell.Proxy.{ShellProxy, with_history, with_output, handle_all, on_output, handle_output}
use llmsh.Shell.Contexts.{steps, contexts, put_aside, Shows}
use llmsh.Shell.Showing.{with_output-ok}
use llmsh.Shell.Shown.{handle_output-Shows}
use llmsh.Parsing.Chunks.{changes}
use llmsh.Shell.Moved.{moved, moved-handle_all}
use llmsh.Effects.Contracts.{Same}
use llmsh.Shell.Followed.{IsFollowed, Goes-handle_all}

parse_output-ok :
    (q q' : BashParser) (bytes : Bytes) (outs : List ParsedOutput)
    → parse_output q bytes ≡ ok (outs, q')
    → (results : List (StepResults ShellOutputType Bool)) × (parse q bytes ≡ ok (results, q'))
      × (outs ≡ map parsed_output results)
unfolding parse_output
parse_output-ok q q' bytes outs e =
    let ((results, q1), parsing, is) =
      returned-first (parse q bytes) (λ r. ok (map parsed_output r.0, r.1)) e in
    let same = ok-injective is in
    (results, parsing ∙ ap (λ q. ok (results, q)) (ap (λ r. r.1) same), sym (ap (λ r. r.0) same))

module _ (o : Outside) where
  abbrev parser_of : ShellProxy → BashParser
  parser_of p = p.output_parser

  IsFollowed-parser_of : IsFollowed o (Same parser_of)
  IsFollowed-parser_of = record {
    stays = λ p. refl;
    goes_on = λ p p1 p2 a b. b ∙ a;
    by_write = λ bytes p. refl;
    by_context = λ context_type bytes p. refl;
    by_input = λ p s. refl;
    by_aggregation = λ p bytes. refl;
  }

  parsed_by :
      (p p' : ShellProxy) {more : Bool} (c : ℕ) (cs : Bytes)
      → on_output o (pty_bytes (c ∷ cs)) p ≡ (ok more, p')
      → (results : List (StepResults ShellOutputType Bool)) × (parse p.output_parser (c ∷ cs)
          ≡ ok (results, p'.output_parser))
        × (p'.input_parser ≡ moved (changes results) p.input_parser)
  unfolding on_output
  parsed_by p p' c cs e =
      let (outs, p1, parsing, e1) = bind-ok (with_output (λ q. parse_output q (c ∷ cs))) _ p e in
      let (_, p2, handling, e2) = bind-ok (handle_all o outs) _ p1 e1 in
      let (_, p3, flushing, e3) = bind-ok (with_history (flush_out o)) _ p2 e2 in
      let (q, is, same) = with_output-ok (λ q. parse_output q (c ∷ cs)) p p1 parsing in
      let (results, are, outs_are) = parse_output-ok p.output_parser q (c ∷ cs) outs is in
      let left = Goes-handle_all o (Same parser_of) IsFollowed-parser_of outs p1 in
      let kept : p'.output_parser ≡ q =
        ap (λ r. r.1.output_parser) (sym e3)
        ∙ ap (λ r. r.1.output_parser) (sym flushing)
        ∙ ap (λ r. r.1.output_parser) (sym handling)
        ∙ left
        ∙ ap (λ p. p.output_parser) same in
      let followed =
        moved-handle_all o results p1 p2
          (subst (λ t. handle_all o t p1 ≡ (ok tt, p2)) outs_are handling) in
      (
        results,
        are ∙ ap (λ q. ok (results, q)) (sym kept),
        ap (λ r. r.1.input_parser) (sym e3)
            ∙ ap (λ r. r.1.input_parser) (sym flushing)
            ∙ followed
            ∙ ap (moved (changes results)) (ap (λ p. p.input_parser) same),
      )

  -- When output came in and `handle_output` returned: what the parser made of it, with the parser that is
  -- left, where that leads the input's machine, and what it shows and saves.
  pub handle_output-parsed :
      (p p' : ShellProxy) {more : Bool} (c : ℕ) (cs : Bytes)
      → o.on_read_pty (read_pty ∷ p.history) ≡ pty_bytes (c ∷ cs)
      → handle_output o p ≡ (ok more, p')
      → (results : List (StepResults ShellOutputType Bool)) × (parse p.output_parser (c ∷ cs)
          ≡ ok (results, p'.output_parser))
        × (p'.input_parser ≡ moved (changes results) p.input_parser)
        × Shows o p
            (steps (map parsed_output results))
            (contexts p.output_aggregation (map parsed_output results))
            (put_aside p.output_aggregation (map parsed_output results))
            p'
  unfolding handle_output parse_output
  handle_output-parsed p p' c cs read e =
      let (results, are, followed) =
        parsed_by (record p { history = read_pty ∷ p.history }) p' c cs (rw read at e) in
      let (outs', q, is', shows) = handle_output-Shows o p p' _ c cs read e in
      let given : parse_output p.output_parser (c ∷ cs)
          ≡ ok (map parsed_output results, p'.output_parser) =
        rw are in
      let same : outs' ≡ map parsed_output results =
        ap (λ r. r.0) (ok-injective (sym is' ∙ given)) in
      (
        results,
        are,
        followed,
        subst
            (λ t.
              Shows o p (steps t) (contexts p.output_aggregation t)
                (put_aside p.output_aggregation t) p')
            same shows,
      )
