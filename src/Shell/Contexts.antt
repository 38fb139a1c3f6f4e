-- ===== src/Shell/Contexts.antt =====
-- llmsh/src/shell.rs, `handle_output`: what reaches the terminal and hermitd. The specification is
-- a fold over the parsed outputs, with no errors and no calls of the outside.
use mathlib.Core.List.{append_assoc, append-nil}
use llmsh.Base.{
  ℕ, List, [], ◌∷◌, ◌++◌, Bool, true, false, Option, none, some, Bytes, ◌≡◌, refl, sym, ap, ◌∙◌,
}
use llmsh.Text.{Text}
use llmsh.Outside.{
  Outside, History, Answer, answer, failure, Request, write_stdout, send, ShellOutputType,
}
use llmsh.Messages.{alive_msg}
use llmsh.Shell.Bash.{ParsedOutput, in_progress, parsed}
use llmsh.Shell.Flags.{after, InOrder, next, some-injective}
use llmsh.Shell.Proxy.{ShellProxy, context_of}

-- The bytes that were written to the terminal, the oldest first.
abbrev pub written : History → Bytes
written [] = []
written (write_stdout bytes ∷ h) = written h ++ bytes
written (_ ∷ h) = written h

-- The messages that were sent to hermitd, the oldest first.
abbrev pub sent : History → List Text
sent [] = []
sent (send msg ∷ h) = sent h ++ (msg ∷ [])
sent (_ ∷ h) = sent h

abbrev pub steps : List ParsedOutput → Bytes
steps [] = []
steps (in_progress step local ∷ outs) = step ++ steps outs
steps (parsed output_type step ∷ outs) = step ++ steps outs

abbrev pub Context : Type 0
Context = Option ShellOutputType × Bytes

-- What is saved as context, when `bytes` were put aside before: the pieces of a command are saved
-- as one, with what ends the command.
abbrev pub contexts : Bytes → List ParsedOutput → List Context
contexts bytes [] = []
contexts bytes (in_progress step true ∷ outs) = contexts (bytes ++ step) outs
contexts bytes (in_progress step false ∷ outs) = (none, step) ∷ contexts bytes outs
contexts bytes (parsed output_type step ∷ outs) =
    (some output_type, bytes ++ step) ∷ contexts [] outs

-- What is put aside in the end.
abbrev pub put_aside : Bytes → List ParsedOutput → Bytes
put_aside bytes [] = bytes
put_aside bytes (in_progress step true ∷ outs) = put_aside (bytes ++ step) outs
put_aside bytes (in_progress step false ∷ outs) = put_aside bytes outs
put_aside bytes (parsed output_type step ∷ outs) = put_aside [] outs

abbrev pub saved_bytes : List Context → Bytes
saved_bytes [] = []
saved_bytes ((_, bytes) ∷ cs) = bytes ++ saved_bytes cs

module _ (o : Outside) where
  abbrev pub json_text : Answer Text → Text
  json_text (answer json) = json
  json_text (failure e) = []

  -- A context is saved by the question whether hermitd is alive, and the request's JSON.
  abbrev pub messages : ℕ → List Context → List Text
  messages session_id [] = []
  messages session_id ((context_type, bytes) ∷ cs) =
      alive_msg
      ∷ json_text (o.to_json (Request.save_context session_id context_type (context_of o bytes)))
      ∷ messages session_id cs

  pub messages-append :
      (session_id : ℕ) (cs ds : List Context)
      → messages session_id (cs ++ ds) ≡ messages session_id cs ++ messages session_id ds
  messages-append session_id [] ds = refl
  messages-append session_id ((context_type, bytes) ∷ cs) ds =
      ap
        (λ ms.
          alive_msg
          ∷ json_text
              (o.to_json (Request.save_context session_id context_type (context_of o bytes)))
          ∷ ms)
        (messages-append session_id cs ds)

  -- From `p` to `p'`, these bytes were written, these contexts saved, and this is put aside.
  pub record Shows (p : ShellProxy) (bytes : Bytes) (saved : List Context) (rest : Bytes)
      (p' : ShellProxy) : Type 0 where
    pub to_terminal : written p'.history ≡ written p.history ++ bytes
    pub to_hermitd : sent p'.history ≡ sent p.history ++ messages p.session_id saved
    pub session : p'.session_id ≡ p.session_id
    pub aside : p'.output_aggregation ≡ rest

  pub Shows-nothing : (p : ShellProxy) → Shows p [] [] p.output_aggregation p
  Shows-nothing p = record {
    to_terminal = sym (append-nil (written p.history));
    to_hermitd = sym (append-nil (sent p.history));
    session = refl;
    aside = refl;
  }

  pub Shows-append :
      {p p1 p2 : ShellProxy} {bytes bytes' : Bytes} {saved saved' : List Context}
      {rest rest' : Bytes}
      → Shows p bytes saved rest p1
      → Shows p1 bytes' saved' rest' p2
      → Shows p (bytes ++ bytes') (saved ++ saved') rest' p2
  Shows-append {p = p} {p1 = p1} {bytes = bytes} {bytes' = bytes'} {saved = saved} {saved' = saved'}
        a b =
      record {
        to_terminal =
            b.to_terminal
            ∙ ap (λ t. t ++ bytes') a.to_terminal
            ∙ append_assoc (written p.history) bytes bytes';
        to_hermitd =
            b.to_hermitd
            ∙ ap (λ t. t ++ messages p1.session_id saved') a.to_hermitd
            ∙ append_assoc (sent p.history) (messages p.session_id saved)
                (messages p1.session_id saved')
            ∙ ap (λ n. sent p.history ++ (messages p.session_id saved ++ messages n saved'))
                a.session
            ∙ ap (λ ms. sent p.history ++ ms) (sym (messages-append p.session_id saved saved'));
        session = b.session ∙ a.session;
        aside = b.aside;
      }

-- Nothing is lost and nothing is saved twice: the saved contexts and what is put aside make up, in
-- order, what was put aside before and the outputs, if no output is saved while something is put aside.
pub contexts-steps :
    {b d : Bool} (bytes : Bytes) (outs : List ParsedOutput)
    → InOrder b outs d
    → (b ≡ false → bytes ≡ [])
    → saved_bytes (contexts bytes outs) ++ put_aside bytes outs ≡ bytes ++ steps outs
unfolding after
contexts-steps bytes [] in_order none_aside = sym (append-nil bytes)
contexts-steps {b = true} bytes (in_progress step true ∷ outs) (next e in_order) none_aside =
    let now = some-injective e in
    contexts-steps (bytes ++ step) outs in_order (λ f. cc) ∙ append_assoc bytes step (steps outs)
contexts-steps {b = false} bytes (in_progress step true ∷ outs) (next e in_order) none_aside = cc
contexts-steps {b = true} bytes (in_progress step false ∷ outs) (next e in_order) none_aside = cc
contexts-steps {b = false} bytes (in_progress step false ∷ outs) (next e in_order) none_aside =
    let empty = none_aside refl in
    append_assoc step (saved_bytes (contexts bytes outs)) (put_aside bytes outs)
    ∙ ap (λ t. step ++ t)
        (contexts-steps bytes outs in_order (λ _. empty) ∙ ap (λ t. t ++ steps outs) empty)
    ∙ ap (λ t. t ++ (step ++ steps outs)) (sym empty)
contexts-steps {b = b} bytes (parsed output_type step ∷ outs) (next e in_order) none_aside =
    append_assoc (bytes ++ step) (saved_bytes (contexts [] outs)) (put_aside [] outs)
    ∙ ap (λ t. (bytes ++ step) ++ t) (contexts-steps [] outs in_order (λ _. refl))
    ∙ append_assoc bytes step (steps outs)
