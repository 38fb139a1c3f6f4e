-- ===== src/Shell/Followed.antt =====
-- llmsh/src/shell.rs, `handle_output`: how it changes the proxy, by how its calls do.
use llmsh.Base.{
  List, [], ◌∷◌, true, false, Option, none, some, Bytes, Outcome, ok, err, panicked, exhausted, ◌≡◌,
  ◌++◌, refl,
}
use llmsh.Effects.{pure}
use llmsh.Effects.Contracts.{Goes, Goes-bind}
use llmsh.Outside.{
  Outside, PtyRead, pty_bytes, pty_eio, pty_failure, read_pty, ShellOutputType, header, input,
  input_aborted,
}
use llmsh.Shell.Input.{ShellInputState, activate, finish_shell_prompt}
use llmsh.Shell.Bash.{BashParser, ParsedOutput, in_progress, parsed, parse_output}
use llmsh.Shell.Hermit.{write_out, flush_out}
use llmsh.Shell.Proxy.{
  ShellProxy, with_history, send_context, aggregate, on_output_type, take_context, handle_parsed,
  handle_all, with_output, on_output, handle_output,
}
use llmsh.Messages.{map_err}

-- A relation of proxies, before and after, that the calls of the handling keep.
pub record IsFollowed (o : Outside) (R : ShellProxy → ShellProxy → Type 0) : Type 0 where
  pub stays : (p : ShellProxy) → R p p
  pub goes_on : (p p1 p2 : ShellProxy) → R p p1 → R p1 p2 → R p p2
  pub by_write : (bytes : Bytes) → Goes R (with_history (write_out o bytes))
  pub by_context :
      (context_type : Option ShellOutputType) (bytes : Bytes)
      → Goes R (send_context o context_type bytes)
  pub by_input : (p : ShellProxy) (s : ShellInputState) → R p (record p { input_parser = s })
  pub by_aggregation :
      (p : ShellProxy) (bytes : Bytes) → R p (record p { output_aggregation = bytes })

module _ (o : Outside) (R : ShellProxy → ShellProxy → Type 0) (is : IsFollowed o R) where
  Goes-on_output_type : (output_type : ShellOutputType) → Goes R (on_output_type o output_type)
  Goes-on_output_type header p = is.by_input p (activate p.input_parser).1
  Goes-on_output_type input p = is.by_input p (finish_shell_prompt p.input_parser).1
  Goes-on_output_type input_aborted p = is.by_input p (finish_shell_prompt p.input_parser).1
  Goes-on_output_type ShellOutputType.output p = is.stays p

  Goes-take_context : (step : Bytes) → Goes R (take_context o step)
  Goes-take_context step p = taken p.output_aggregation refl
    where
      taken : (agg : Bytes) → p.output_aggregation ≡ agg → R p (take_context o step p).1
      taken [] e = rw (take_context, e) (is.stays (record p { output_aggregation = [] }))
      taken (c ∷ cs) e =
          rw (take_context, e) (is.by_aggregation (record p { output_aggregation = c ∷ cs }) [])

  Goes-handle_parsed : (out : ParsedOutput) → Goes R (handle_parsed o out)
  unfolding handle_parsed
  Goes-handle_parsed (in_progress step true) =
      Goes-bind R (with_history (write_out o step)) (λ _. aggregate o step) is.goes_on
        (is.by_write step) (λ _ p. is.by_aggregation p (p.output_aggregation ++ step))
  Goes-handle_parsed (in_progress step false) =
      Goes-bind R (with_history (write_out o step)) (λ _. send_context o none step) is.goes_on
        (is.by_write step) (λ _. is.by_context none step)
  Goes-handle_parsed (parsed output_type step) =
      Goes-bind R (with_history (write_out o step)) _ is.goes_on (is.by_write step) (λ _.
        Goes-bind R (on_output_type o output_type) _ is.goes_on (Goes-on_output_type output_type)
          (λ _.
            Goes-bind R (take_context o step) (send_context o (some output_type)) is.goes_on
              (Goes-take_context step) (is.by_context (some output_type))))

  pub Goes-handle_all : (outs : List ParsedOutput) → Goes R (handle_all o outs)
  unfolding handle_all
  Goes-handle_all [] p = is.stays p
  Goes-handle_all (out ∷ outs) p =
      Goes-bind R (handle_parsed o out) (λ _. handle_all o outs) is.goes_on (Goes-handle_parsed out)
        (λ _. Goes-handle_all outs) p

-- Besides, what `handle_output` does around the handling.
pub record IsFollowedOutput (o : Outside) (R : ShellProxy → ShellProxy → Type 0) : Type 0 where
  pub handled : IsFollowed o R
  pub by_parser : (p : ShellProxy) (q : BashParser) → R p (record p { output_parser = q })
  pub by_flush : Goes R (with_history (flush_out o))
  pub by_read : (p : ShellProxy) → R p (record p { history = read_pty ∷ p.history })

module _ (o : Outside) (R : ShellProxy → ShellProxy → Type 0) (is : IsFollowedOutput o R) where
  Goes-with_output :
      {A : Type 0} (f : BashParser → Outcome (A × BashParser)) → Goes R (with_output f)
  Goes-with_output {A} f p = went (f p.output_parser) refl
    where
      went : (r : Outcome (A × BashParser)) → f p.output_parser ≡ r → R p (with_output f p).1
      went (ok (a, q)) e = rw (with_output, e) (is.by_parser p q)
      went (err x) e = rw (with_output, e) (is.handled.stays p)
      went panicked e = rw (with_output, e) (is.handled.stays p)
      went exhausted e = rw (with_output, e) (is.handled.stays p)

  Goes-on_output : (read : PtyRead) → Goes R (on_output o read)
  unfolding on_output map_err
  Goes-on_output (pty_bytes []) p = is.handled.stays p
  Goes-on_output (pty_bytes (c ∷ cs)) p =
      Goes-bind R (with_output (λ q. parse_output q (c ∷ cs))) _ is.handled.goes_on
        (Goes-with_output (λ q. parse_output q (c ∷ cs)))
        (λ outs.
          Goes-bind R (handle_all o outs) _ is.handled.goes_on (Goes-handle_all o R is.handled outs)
            (λ _.
              Goes-bind R (with_history (flush_out o)) (λ _. pure true) is.handled.goes_on
                is.by_flush (λ _ p. is.handled.stays p)))
        p
  Goes-on_output pty_eio p = is.handled.stays p
  Goes-on_output (pty_failure e) p = is.handled.stays p

  pub Goes-handle_output : Goes R (handle_output o)
  unfolding handle_output
  Goes-handle_output p =
      let p0 = record p { history = read_pty ∷ p.history } in
      is.handled.goes_on p p0 (handle_output o p).1 (is.by_read p)
        (Goes-on_output (o.on_read_pty (read_pty ∷ p.history)) p0)
