-- ===== src/Shell/Output.antt =====
-- llmsh/src/shell.rs, `handle_output` and the two state machines.
use llmsh.Base.{List, [], ◌∷◌, map, Bool, true, Bytes, ok, is_calm, ◌≡◌, refl, sym, ap, ◌∙◌}
use mathlib.Core.Path.{subst, subst₂}
use llmsh.Effects.Contracts.{Keeps, Keeps-bind, is_calm-Keeps, Keeps-works}
use llmsh.Outside.{Outside, PtyRead, pty_bytes, pty_eio, pty_failure, read_pty}
use llmsh.Parsing.Reference.{Runs, feed}
use llmsh.Parsing.Parses.{IsValid}
use llmsh.Parsing.Total.{parse-Runs}
use llmsh.Shell.Bash.{
  BashParser, transitions, echoes, ParsedOutput, parsed_output, parse_output, bash_state_eq,
}
use llmsh.Shell.Flags.{in_input, InOrder, Runs-InOrder}
use llmsh.Shell.Hermit.{flush_out}
use llmsh.Shell.Stepping.{Keeps-handle_all}
use llmsh.Shell.Coupling.{IsWorking, After, Keeps-with_history, Keeps-flush_out, With-history}
use llmsh.Shell.Proxy.{ShellProxy, with_history, with_output, handle_all, on_output, handle_output}

module _ (m n : Bytes) where
  -- A valid parser over the maps of bash with these two markers.
  pub record IsBash (q : BashParser) : Type 0 where
    pub valid : IsValid q
    pub state_map : q.state_map ≡ transitions m n
    pub echo_events : q.echo_events ≡ echoes m n

  -- The input's machine is at a prompt exactly while the parser reads a command, and not in the
  -- middle of a dialogue; the aggregation is empty outside of commands.
  abbrev pub IsCoupled : ShellProxy → Type 0
  IsCoupled p = IsBash p.output_parser × After p.output_parser (in_input p.output_parser.state) p

  module _ (o : Outside) where
    -- The outputs lead from the old state of the parser to the new one.
    abbrev Parsed : Bool → List ParsedOutput → ShellProxy → Type 0
    Parsed b outs p =
        IsBash p.output_parser
        × After p.output_parser b p
        × InOrder b outs (in_input p.output_parser.state)

    Keeps-parse :
        (p : ShellProxy) (bytes : Bytes)
        → IsCoupled p
        → Keeps
            (IsWorking o)
            (Parsed (in_input p.output_parser.state))
            (with_output (λ q. parse_output q bytes))
            p
    unfolding parse_output
    Keeps-parse p bytes (bash, ((is, same), clear)) =
        let q = p.output_parser in
        let a = parse-Runs q bash.valid.reader bytes bash.valid.configured bash.valid.sim in
        let runs =
          subst₂ (λ m ev. Runs m ev (feed bash.valid.reader bytes) a.results a.r') bash.state_map
            bash.echo_events a.runs in
        let in_order = Runs-InOrder m n runs in
        let before = ap (λ r. r.state) bash.valid.sim.is_view in
        let behind = ap (λ r. r.state) a.sim.is_view in
        rw (with_output, a.parses)
          (
            record {
              valid = record { configured = a.configured; reader = a.r'; sim = a.sim };
              state_map = sym a.same.state_map ∙ bash.state_map;
              echo_events = sym a.same.echo_events ∙ bash.echo_events;
            },
            ((record { prompt = is.prompt; at_rest = is.at_rest }, refl), clear),
            subst₂ (λ s t. InOrder (in_input s) (map parsed_output a.results) (in_input t)) before
                behind in_order,
          )

    IsCoupled-After :
        (q : BashParser) (p : ShellProxy) → IsBash q → After q (in_input q.state) p → IsCoupled p
    IsCoupled-After q p bash now =
        subst (λ t. IsBash t × After t (in_input t.state) p) (sym now.0.1) (bash, now)

    Keeps-on_output :
        (read : PtyRead) (p : ShellProxy)
        → IsCoupled p
        → (IsWorking o → ¬ ((e : Bytes) × (read ≡ pty_failure e)))
        → Keeps (IsWorking o) (λ _. IsCoupled) (on_output o read) p
    unfolding on_output
    Keeps-on_output (pty_bytes []) p is no_failure = is
    Keeps-on_output (pty_bytes (c ∷ cs)) p is no_failure =
        Keeps-bind _ (Parsed (in_input p.output_parser.state)) _
          (with_output (λ q. parse_output q (c ∷ cs))) _ p (Keeps-parse p (c ∷ cs) is)
          (λ outs p1 (bash, at, in_order).
            Keeps-bind _ (λ _. After p1.output_parser (in_input p1.output_parser.state)) _
              (handle_all o outs) _ p1 (Keeps-handle_all o p1.output_parser _ _ outs p1 at in_order)
              (λ _ p2 now.
                Keeps-bind _ (λ _. IsCoupled) _ (with_history (flush_out o)) _ p2
                  (Keeps-with_history _ IsCoupled (flush_out o) p2 (Keeps-flush_out o p2.history)
                    (λ h.
                      IsCoupled-After p1.output_parser (record p2 { history = h }) bash
                        (With-history o _ _ p2 h now.0, now.1)))
                  (λ _ p3 end. end)))
    Keeps-on_output pty_eio p is no_failure = is
    Keeps-on_output (pty_failure e) p is no_failure = λ works. no_failure works (e, refl)

    pub handle_output-IsCoupled :
        (p : ShellProxy) → IsCoupled p → Keeps (IsWorking o) (λ _. IsCoupled) (handle_output o) p
    unfolding handle_output
    handle_output-IsCoupled p is =
        Keeps-on_output (o.on_read_pty (read_pty ∷ p.history))
          (record p { history = read_pty ∷ p.history })
          (is.0, ((record { prompt = is.1.0.0.prompt; at_rest = is.1.0.0.at_rest }, refl), is.1.1))
          (λ works (e, failed). works.reads (read_pty ∷ p.history) e failed)

    -- `handle_output` on a coupled proxy does not panic, whatever the outside does.
    pub handle_output-calm : (p : ShellProxy) → IsCoupled p → is_calm (handle_output o p).0 ≡ true
    handle_output-calm p is =
        is_calm-Keeps _ (λ _. IsCoupled) (handle_output o) p (handle_output-IsCoupled p is)

    -- Where the terminal, the shell and hermitd work, `handle_output` on a coupled proxy returns a value,
    -- not an error of the input's state machine for instance, and the proxy is coupled again.
    pub handle_output-works :
        (p : ShellProxy)
        → IsCoupled p
        → IsWorking o
        → (more : Bool) × (p' : ShellProxy) × (handle_output o p ≡ (ok more, p')) × IsCoupled p'
    handle_output-works p is works =
        Keeps-works (IsWorking o) (λ _. IsCoupled) (handle_output o) p
          (handle_output-IsCoupled p is) works
