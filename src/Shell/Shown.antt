-- ===== src/Shell/Shown.antt =====
-- llmsh/src/shell.rs, `handle_output`: the code does what the specification of Contexts says.
use mathlib.Core.List.{append-nil}
use llmsh.Base.{ℕ, List, [], ◌∷◌, ◌++◌, Bool, true, false, Bytes, ok, ◌≡◌, refl, sym, ap}
use llmsh.Effects.{bind-ok}
use llmsh.Outside.{Outside, pty_bytes, read_pty}
use mathlib.Core.Path.{subst, subst₃}
use llmsh.Shell.Bash.{BashParser, ParsedOutput, in_progress, parsed, parse_output}
use llmsh.Shell.Hermit.{flush_out}
use llmsh.Shell.Proxy.{
  ShellProxy, with_history, with_output, handle_parsed, handle_all, on_output, handle_output,
}
use llmsh.Shell.Contexts.{
  written, sent, steps, contexts, put_aside, Shows, Shows-nothing, Shows-append,
}
use llmsh.Shell.Showing.{with_output-ok, Shows-flush_out, Shows-handle_parsed}

steps_cons :
    (out : ParsedOutput) (outs : List ParsedOutput)
    → steps (out ∷ []) ++ steps outs ≡ steps (out ∷ outs)
steps_cons (in_progress step local) outs = ap (λ t. t ++ steps outs) (append-nil step)
steps_cons (parsed output_type step) outs = ap (λ t. t ++ steps outs) (append-nil step)

contexts_cons :
    (bytes : Bytes) (out : ParsedOutput) (outs : List ParsedOutput)
    → contexts bytes (out ∷ []) ++ contexts (put_aside bytes (out ∷ [])) outs
      ≡ contexts bytes (out ∷ outs)
contexts_cons bytes (in_progress step true) outs = refl
contexts_cons bytes (in_progress step false) outs = refl
contexts_cons bytes (parsed output_type step) outs = refl

put_aside_cons :
    (bytes : Bytes) (out : ParsedOutput) (outs : List ParsedOutput)
    → put_aside (put_aside bytes (out ∷ [])) outs ≡ put_aside bytes (out ∷ outs)
put_aside_cons bytes (in_progress step true) outs = refl
put_aside_cons bytes (in_progress step false) outs = refl
put_aside_cons bytes (parsed output_type step) outs = refl

module _ (o : Outside) where
  pub Shows-handle_all :
      (outs : List ParsedOutput) (p p' : ShellProxy)
      → handle_all o outs p ≡ (ok tt, p')
      → Shows o p
          (steps outs)
          (contexts p.output_aggregation outs)
          (put_aside p.output_aggregation outs)
          p'
  unfolding handle_all
  Shows-handle_all [] p p' e =
      subst (Shows o p [] [] p.output_aggregation) (ap (λ r. r.1) e) (Shows-nothing o p)
  Shows-handle_all (out ∷ outs) p p' e =
      let agg = p.output_aggregation in
      let (_, p1, first, rest) = bind-ok (handle_parsed o out) (λ _. handle_all o outs) p e in
      let a = Shows-handle_parsed o out p p1 first in
      let b = Shows-handle_all outs p1 p' rest in
      let c =
        subst (λ x. Shows o p1 (steps outs) (contexts x outs) (put_aside x outs) p') a.aside b in
      subst₃ (λ bytes saved left. Shows o p bytes saved left p') (steps_cons out outs)
        (contexts_cons agg out outs) (put_aside_cons agg out outs) (Shows-append o a c)

  Shows-on_output :
      (p p' : ShellProxy) (more : Bool) (c : ℕ) (cs : Bytes)
      → on_output o (pty_bytes (c ∷ cs)) p ≡ (ok more, p')
      → (outs : List ParsedOutput) × (q : BashParser) × (parse_output p.output_parser (c ∷ cs)
          ≡ ok (outs, q))
        × Shows o p
            (steps outs)
            (contexts p.output_aggregation outs)
            (put_aside p.output_aggregation outs)
            p'
  unfolding on_output
  Shows-on_output p p' more c cs e =
      let (outs, p1, parsing, e1) = bind-ok (with_output (λ q. parse_output q (c ∷ cs))) _ p e in
      let (_, p2, handling, e2) = bind-ok (handle_all o outs) _ p1 e1 in
      let (_, p3, flushing, e3) = bind-ok (with_history (flush_out o)) _ p2 e2 in
      let (q, is, same) = with_output-ok (λ q. parse_output q (c ∷ cs)) p p1 parsing in
      let agg = p.output_aggregation in
      let started = subst (Shows o p [] [] agg) (sym same) (record {
        to_terminal = sym (append-nil (written p.history));
        to_hermitd = sym (append-nil (sent p.history));
        session = refl;
        aside = refl;
      }) in
      let all =
        subst (λ x. Shows o p1 (steps outs) (contexts x outs) (put_aside x outs) p2) started.aside
          (Shows-handle_all outs p1 p2 handling) in
      let flushed = Shows-flush_out o p2 p3 flushing in
      let shows = Shows-append o started (Shows-append o all flushed) in
      (
        outs,
        q,
        is,
        subst (Shows o p (steps outs) (contexts agg outs) (put_aside agg outs)) (ap (λ r. r.1) e3) (
            subst₃ (λ bytes saved left. Shows o p bytes saved left p3) (append-nil (steps outs))
              (append-nil (contexts agg outs)) all.aside shows),
      )

  -- When output came in and `handle_output` returned, the terminal was written what the parser shows, in
  -- order and nothing else; hermitd was told exactly the contexts that Contexts says, in order; and what
  -- is aggregated is what is put aside.
  pub handle_output-Shows :
      (p p' : ShellProxy) (more : Bool) (c : ℕ) (cs : Bytes)
      → o.on_read_pty (read_pty ∷ p.history) ≡ pty_bytes (c ∷ cs)
      → handle_output o p ≡ (ok more, p')
      → (outs : List ParsedOutput) × (q : BashParser) × (parse_output p.output_parser (c ∷ cs)
          ≡ ok (outs, q))
        × Shows o p
            (steps outs)
            (contexts p.output_aggregation outs)
            (put_aside p.output_aggregation outs)
            p'
  unfolding handle_output on_output
  handle_output-Shows p p' more c cs read e =
      let p0 = record p { history = read_pty ∷ p.history } in
      let started : Shows o p [] [] p.output_aggregation p0 = record {
        to_terminal = sym (append-nil (written p.history));
        to_hermitd = sym (append-nil (sent p.history));
        session = refl;
        aside = refl;
      } in
      let (outs, q, is, shows) = Shows-on_output p0 p' more c cs (rw read at e) in
      (outs, q, is, Shows-append o started shows)
