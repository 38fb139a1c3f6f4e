-- ===== src/Shell/Stepping.antt =====
-- Every parsed output keeps the input's machine at the prompt as the order of the outputs says.
use llmsh.Base.{List, none, some, Bool, true, false, Bytes, ◌≡◌}
use mathlib.Core.Path.{subst}
use llmsh.Effects.Contracts.{Keeps, Keeps-bind}
use llmsh.Outside.{Outside}
use llmsh.Shell.Bash.{BashParser, ParsedOutput, in_progress, parsed, bash_state_eq}
use llmsh.Shell.Flags.{some-injective, after, InOrder, ended, next}
use llmsh.Shell.Hermit.{write_out}
use llmsh.Shell.Proxy.{
  ShellProxy, handle_parsed, handle_all, with_history, send_context, aggregate, on_output_type,
  take_context,
}
use llmsh.Shell.Coupling.{
  IsWorking, With, After, Keeps-with_history, Keeps-write_out, With-history, Keeps-send_context,
  Keeps-on_output_type, Keeps-take_context,
}

module _ (o : Outside) where
  Keeps-aggregate :
      (q : BashParser) (step : Bytes) (p : ShellProxy)
      → With q true p
      → Keeps (IsWorking o) (λ _. After q true) (aggregate o step) p
  Keeps-aggregate q step p (is, same) =
      ((record { prompt = is.prompt; at_rest = is.at_rest }, same), λ e. cc)

  Keeps-handle_parsed :
      (q : BashParser) (b c : Bool) (out : ParsedOutput) (p : ShellProxy)
      → After q b p
      → after b out ≡ some c
      → Keeps (IsWorking o) (λ _. After q c) (handle_parsed o out) p
  unfolding handle_parsed after
  Keeps-handle_parsed q true c (in_progress step true) p (with_q, clear) is_next =
      Keeps-bind _ (λ _. With q true) _ (with_history (write_out o step)) (λ _. aggregate o step) p
        (Keeps-with_history _ (With q true) (write_out o step) p (Keeps-write_out o step p.history)
          (λ h. With-history o q true p h with_q))
        (λ _ p1 now.
          subst (λ c. Keeps (IsWorking o) (λ _. After q c) (aggregate o step) p1)
            (some-injective is_next) (Keeps-aggregate q step p1 now))
  Keeps-handle_parsed q false c (in_progress step false) p (with_q, clear) is_next =
      Keeps-bind _ (λ _. After q false) _ (with_history (write_out o step))
        (λ _. send_context o none step) p
        (Keeps-with_history _ (After q false) (write_out o step) p
          (Keeps-write_out o step p.history) (λ h. (With-history o q false p h with_q, clear)))
        (λ _ p1 now.
          subst (λ c. Keeps (IsWorking o) (λ _. After q c) (send_context o none step) p1)
            (some-injective is_next) (Keeps-send_context o q false none step p1 now))
  Keeps-handle_parsed q true c (in_progress step false) p with_q is_next = cc
  Keeps-handle_parsed q false c (in_progress step true) p with_q is_next = cc
  Keeps-handle_parsed q b c (parsed output_type step) p (with_q, clear) is_next =
      Keeps-bind _ (λ _. With q b) _ (with_history (write_out o step)) _ p
        (Keeps-with_history _ (With q b) (write_out o step) p (Keeps-write_out o step p.history)
          (λ h. With-history o q b p h with_q))
        (λ _ p1 now.
          Keeps-bind _ (λ _. With q c) _ (on_output_type o output_type) _ p1
            (Keeps-on_output_type o q b c output_type step p1 now is_next)
            (λ _ p2 then_q.
              Keeps-bind _ (λ _. After q c) _ (take_context o step) _ p2
                (Keeps-take_context o q c step p2 then_q)
                (λ bytes p3 at_end. Keeps-send_context o q c (some output_type) bytes p3 at_end)))

  pub Keeps-handle_all :
      (q : BashParser) (b d : Bool) (outs : List ParsedOutput) (p : ShellProxy)
      → After q b p
      → InOrder b outs d
      → Keeps (IsWorking o) (λ _. After q d) (handle_all o outs) p
  unfolding handle_all
  Keeps-handle_all q b d outs p is ended = is
  Keeps-handle_all q b d outs p is (next {out = out} {c = c} {outs = rest} is_next in_order) =
      Keeps-bind _ (λ _. After q c) _ (handle_parsed o out) (λ _. handle_all o rest) p
        (Keeps-handle_parsed q b c out p is is_next)
        (λ _ p1 now. Keeps-handle_all q c d rest p1 now in_order)
