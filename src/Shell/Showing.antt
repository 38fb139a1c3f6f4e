-- ===== src/Shell/Showing.antt =====
-- llmsh/src/shell.rs, the calls of `handle_output` one by one: what each shows and saves.
use mathlib.Core.List.{append_assoc, append-nil}
use llmsh.Base.{
  ℕ, List, [], ◌∷◌, ◌++◌, true, false, Option, none, some, Bytes, Outcome, ok, err, panicked, ◌≡◌,
  refl, sym, ap, ◌∙◌, arith, ok-injective,
}
use llmsh.Text.{Text}
use llmsh.Effects.{Method, bind-ok}
use llmsh.Outside.{
  Outside, History, Request, Response, write_stdout, flush_stdout, ShellOutputType, header, input,
  input_aborted,
}
use llmsh.Messages.{alive_msg, send_msg, saved_of, save_context}
use llmsh.Messages.Protocol.{send_msg-ok, exchanged, map_err-ok}
use mathlib.Core.Path.{subst, subst₂}
use llmsh.Shell.Input.{ShellInputState, activate, finish_shell_prompt}
use llmsh.Shell.Bash.{BashParser, ParsedOutput, in_progress, parsed}
use llmsh.Shell.Hermit.{write_out, flush_out}
use llmsh.Shell.Proxy.{
  ShellProxy, context_of, with_history, with_input, with_output, send_context, aggregate,
  on_output_type, take_context, handle_parsed,
}
use llmsh.Shell.Contexts.{
  written, sent, steps, Context, contexts, put_aside, json_text, Shows, Shows-nothing, Shows-append,
}

pub with_history-ok :
    {A : Type 0} (m : Method History A) (p p' : ShellProxy) {a : A}
    → with_history m p ≡ (ok a, p')
    → (h : History) × (m p.history ≡ (ok a, h)) × (record p { history = h } ≡ p')
with_history-ok m p p' e =
    let returned = ap (λ r. r.0) e in
    ((m p.history).1, (λ i. (returned i, (m p.history).1)), ap (λ r. r.1) e)

pub with_output-ok :
    {A : Type 0} (f : BashParser → Outcome (A × BashParser)) (p p' : ShellProxy) {a : A}
    → with_output f p ≡ (ok a, p')
    → (q : BashParser) × (f p.output_parser ≡ ok (a, q)) × (p' ≡ record p { output_parser = q })
with_output-ok {A} f p p' {a} e = split (f p.output_parser) refl
  where
    split :
        (r : Outcome (A × BashParser))
        → f p.output_parser ≡ r
        → (q : BashParser) × (f p.output_parser ≡ ok (a, q)) × (p' ≡ record p { output_parser = q })
    split (ok (b, q)) is =
        let e' : ◌≡◌ {A = Outcome A × ShellProxy} (ok b, record p { output_parser = q })
            (ok a, p') =
          rw (with_output, is) at e in
        (q, is ∙ ap (λ b. ok (b, q)) (ok-injective (ap (λ r. r.0) e')), sym (ap (λ r. r.1) e'))
    split (err x) is =
        let e' : ◌≡◌ {A = Outcome A × ShellProxy} (err x, p) (ok a, p') =
          rw (with_output, is) at e in
        cc
    split panicked is =
        let e' : ◌≡◌ {A = Outcome A × ShellProxy} (panicked, p) (ok a, p') =
          rw (with_output, is) at e in
        cc
    split Outcome.exhausted is =
        let e' : ◌≡◌ {A = Outcome A × ShellProxy} (Outcome.exhausted, p) (ok a, p') =
          rw (with_output, is) at e in
        cc

module _ (o : Outside) where
  write_out-ok :
      (bytes : Bytes) (h h' : History)
      → write_out o bytes h ≡ (ok tt, h')
      → h' ≡ write_stdout bytes ∷ h
  unfolding write_out
  write_out-ok bytes h h' e = (map_err-ok _ _ _ e).1

  flush_out-ok : (h h' : History) → flush_out o h ≡ (ok tt, h') → h' ≡ flush_stdout ∷ h
  unfolding flush_out
  flush_out-ok h h' e = (map_err-ok _ _ _ e).1

  saved_of-same : (reply : Response) (h h' : History) → saved_of o reply h ≡ (ok tt, h') → h' ≡ h
  unfolding saved_of
  saved_of-same reply h h' e = ground arith

  save_context-ok :
      (session_id : ℕ) (context_type : Option ShellOutputType) (context : Text) (h h' : History)
      → save_context o session_id context_type context h ≡ (ok tt, h')
      → h'
        ≡ exchanged
            (json_text o (o.to_json (Request.save_context session_id context_type context)))
            1000
            (exchanged alive_msg 500 h)
  unfolding save_context
  save_context-ok session_id context_type context h h' e =
      let request = Request.save_context session_id context_type context in
      let (reply, h1, sending, rest) = bind-ok (send_msg o request 1000) (saved_of o) h e in
      let (json, _, is_json, _, after, _, _) = send_msg-ok o request 1000 h h1 reply sending in
      saved_of-same reply h1 h' rest
      ∙ after
      ∙ ap (λ a. exchanged (json_text o a) 1000 (exchanged alive_msg 500 h)) (sym is_json)

  -- The new state is given by an equation.
  at_history :
      (p p' : ShellProxy) (h h' : History) (bytes : Bytes) (saved : List Context)
      → record p { history = h } ≡ p'
      → h ≡ h'
      → Shows o p bytes saved p.output_aggregation (record p { history = h' })
      → Shows o p bytes saved p.output_aggregation p'
  at_history p p' h h' bytes saved is same shows =
      subst (Shows o p bytes saved p.output_aggregation)
        (ap (λ h. record p { history = h }) (sym same) ∙ is) shows

  Shows-write_out :
      (bytes : Bytes) (p p' : ShellProxy)
      → with_history (write_out o bytes) p ≡ (ok tt, p')
      → Shows o p bytes [] p.output_aggregation p'
  Shows-write_out bytes p p' e =
      let (h, w, is) = with_history-ok (write_out o bytes) p p' e in
      at_history p p' h (write_stdout bytes ∷ p.history) bytes [] is
        (write_out-ok bytes p.history h w)
        (record {
          to_terminal = refl;
          to_hermitd = sym (append-nil (sent p.history));
          session = refl;
          aside = refl;
        })

  pub Shows-flush_out :
      (p p' : ShellProxy)
      → with_history (flush_out o) p ≡ (ok tt, p')
      → Shows o p [] [] p.output_aggregation p'
  Shows-flush_out p p' e =
      let (h, w, is) = with_history-ok (flush_out o) p p' e in
      at_history p p' h (flush_stdout ∷ p.history) [] [] is (flush_out-ok p.history h w) (record {
        to_terminal = sym (append-nil (written p.history));
        to_hermitd = sym (append-nil (sent p.history));
        session = refl;
        aside = refl;
      })

  Shows-send_context :
      (context_type : Option ShellOutputType) (bytes : Bytes) (p p' : ShellProxy)
      → send_context o context_type bytes p ≡ (ok tt, p')
      → Shows o p [] ((context_type, bytes) ∷ []) p.output_aggregation p'
  Shows-send_context context_type bytes p p' e =
      let context = context_of o bytes in
      let saving = save_context o p.session_id context_type context in
      let (h, w, is) = with_history-ok saving p p' e in
      at_history p p' h _ [] ((context_type, bytes) ∷ []) is
        (save_context-ok p.session_id context_type context p.history h w)
        (record {
          to_terminal = sym (append-nil (written p.history));
          to_hermitd = append_assoc (sent p.history) (alive_msg ∷ []) _;
          session = refl;
          aside = refl;
        })

  Shows-with_input :
      {A : Type 0} (m : Method ShellInputState A) (p p' : ShellProxy) {a : A}
      → with_input m p ≡ (ok a, p')
      → Shows o p [] [] p.output_aggregation p'
  Shows-with_input m p p' e =
      subst (Shows o p [] [] p.output_aggregation) (ap (λ r. r.1) e) (record {
        to_terminal = sym (append-nil (written p.history));
        to_hermitd = sym (append-nil (sent p.history));
        session = refl;
        aside = refl;
      })

  Shows-on_output_type :
      (output_type : ShellOutputType) (p p' : ShellProxy)
      → on_output_type o output_type p ≡ (ok tt, p')
      → Shows o p [] [] p.output_aggregation p'
  Shows-on_output_type header p p' e = Shows-with_input activate p p' e
  Shows-on_output_type input p p' e = Shows-with_input finish_shell_prompt p p' e
  Shows-on_output_type input_aborted p p' e = Shows-with_input finish_shell_prompt p p' e
  Shows-on_output_type ShellOutputType.output p p' e =
      subst (Shows o p [] [] p.output_aggregation) (ap (λ r. r.1) e) (Shows-nothing o p)

  take_context-ok :
      (step : Bytes) (p p' : ShellProxy) (bytes : Bytes)
      → take_context o step p ≡ (ok bytes, p')
      → (p.output_aggregation ++ step ≡ bytes) × Shows o p [] [] [] p'
  take_context-ok step p p' bytes e = taken p.output_aggregation refl
    where
      cleared : Shows o p [] [] [] (record p { output_aggregation = [] })
      cleared = record {
        to_terminal = sym (append-nil (written p.history));
        to_hermitd = sym (append-nil (sent p.history));
        session = refl;
        aside = refl;
      }

      taken :
          (agg : Bytes)
          → p.output_aggregation ≡ agg
          → (p.output_aggregation ++ step ≡ bytes) × Shows o p [] [] [] p'
      taken [] is =
          let e' : ◌≡◌ {A = Outcome Bytes × ShellProxy}
              (ok step, record p { output_aggregation = [] }) (ok bytes, p') =
            rw is at e in
          (
            ap (λ t. t ++ step) is ∙ ok-injective (ap (λ r. r.0) e'),
            subst (Shows o p [] [] []) (ap (λ r. r.1) e') cleared,
          )
      taken (c ∷ cs) is =
          let e' : ◌≡◌ {A = Outcome Bytes × ShellProxy}
              (ok ((c ∷ cs) ++ step), record p { output_aggregation = [] }) (ok bytes, p') =
            rw is at e in
          (
            ap (λ t. t ++ step) is ∙ ok-injective (ap (λ r. r.0) e'),
            subst (Shows o p [] [] []) (ap (λ r. r.1) e') cleared,
          )

  Shows-aggregate :
      (step : Bytes) (p p' : ShellProxy)
      → aggregate o step p ≡ (ok tt, p')
      → Shows o p [] [] (p.output_aggregation ++ step) p'
  Shows-aggregate step p p' e =
      subst (Shows o p [] [] (p.output_aggregation ++ step)) (ap (λ r. r.1) e) (record {
        to_terminal = sym (append-nil (written p.history));
        to_hermitd = sym (append-nil (sent p.history));
        session = refl;
        aside = refl;
      })

  pub Shows-handle_parsed :
      (out : ParsedOutput) (p p' : ShellProxy)
      → handle_parsed o out p ≡ (ok tt, p')
      → Shows o p
          (steps (out ∷ []))
          (contexts p.output_aggregation (out ∷ []))
          (put_aside p.output_aggregation (out ∷ []))
          p'
  unfolding handle_parsed
  Shows-handle_parsed (in_progress step true) p p' e =
      let (_, p1, writing, e1) =
        bind-ok (with_history (write_out o step)) (λ _. aggregate o step) p e in
      let a = Shows-write_out step p p1 writing in
      let b = Shows-aggregate step p1 p' e1 in
      subst (λ agg. Shows o p (step ++ []) [] (agg ++ step) p') a.aside (Shows-append o a b)
  Shows-handle_parsed (in_progress step false) p p' e =
      let (_, p1, writing, e1) =
        bind-ok (with_history (write_out o step)) (λ _. send_context o none step) p e in
      let a = Shows-write_out step p p1 writing in
      let b = Shows-send_context none step p1 p' e1 in
      subst (λ agg. Shows o p (step ++ []) ((none, step) ∷ []) agg p') a.aside (Shows-append o a b)
  Shows-handle_parsed (parsed output_type step) p p' e =
      let (_, p1, writing, e1) = bind-ok (with_history (write_out o step)) _ p e in
      let (_, p2, typing, e2) = bind-ok (on_output_type o output_type) _ p1 e1 in
      let (bytes, p3, taking, e3) = bind-ok (take_context o step) _ p2 e2 in
      let a = Shows-write_out step p p1 writing in
      let b = Shows-on_output_type output_type p1 p2 typing in
      let (is, c) = take_context-ok step p2 p3 bytes taking in
      let d = Shows-send_context (some output_type) bytes p3 p' e3 in
      subst₂ (λ bs rest. Shows o p (step ++ []) ((some output_type, bs) ∷ []) rest p')
        (sym is ∙ ap (λ agg. agg ++ step) (b.aside ∙ a.aside)) c.aside
        (Shows-append o a (Shows-append o b (Shows-append o c d)))
