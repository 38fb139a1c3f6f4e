-- ===== src/Shell/Coupling.antt =====
-- The proxy's two state machines stay together: the input's and the parser of bash's output.
use llmsh.Base.{
  ℕ, [], ◌∷◌, Option, some, Bool, true, false, Bytes, Outcome, ok, err, panicked, ◌≡◌, ◌≢◌, refl,
}
use mathlib.Core.Path.{subst}
use llmsh.Text.{Text}
use llmsh.Effects.{Method}
use llmsh.Effects.Contracts.{Holds, Keeps, Keeps-calm}
use llmsh.Outside.{
  Outside, History, Answer, answer, failure, ShellOutputType, header, input, input_aborted,
  pty_failure,
}
use llmsh.Messages.{save_context, map_err}
use llmsh.Messages.Calm.{calm-save_context}
use llmsh.Shell.Input.{
  ShellInputState, undetermined, hermit_input, shell_prompt, activate, finish_shell_prompt,
  at_prompt, idle,
}
use llmsh.Shell.Bash.{BashParser, parsed, bash_state_eq}
use llmsh.Shell.Flags.{some-injective, after}
use llmsh.Shell.Hermit.{write_out, flush_out}
use llmsh.Shell.Proxy.{
  ShellProxy, context_of, with_history, with_input, send_context, on_output_type, take_context,
}

-- An outside in which the terminal, the shell and hermitd do what they are asked.
pub record IsWorking (o : Outside) : Type 0 where
  pub writes : (h : History) → o.on_write h ≡ answer tt
  pub saves :
      (session_id : ℕ) (context_type : Option ShellOutputType) (context : Text) (h : History)
      → (save_context o session_id context_type context h).0 ≡ ok tt
  pub reads : (h : History) (e : Text) → o.on_read_pty h ≢ pty_failure e

-- The input's machine is at the prompt as `b` says, and at rest.
pub record IsAt (b : Bool) (p : ShellProxy) : Type 0 where
  pub prompt : at_prompt p.input_parser ≡ b
  pub at_rest : p.input_parser ≢ hermit_input

abbrev pub With : BashParser → Bool → ShellProxy → Type 0
With q b p = IsAt b p × (p.output_parser ≡ q)

-- Without a prompt nothing is aggregated.
abbrev pub After : BashParser → Bool → ShellProxy → Type 0
After q b p = With q b p × (b ≡ false → p.output_aggregation ≡ [])

abbrev pub Free : {A : Type 0} → A → History → Type 0
Free a h = Unit

pub Keeps-map_err :
    {A : Type 0} (works : Type 0) (a : Answer A) (msg : Text) (h : History)
    → (works → (b : A) × (a ≡ answer b))
    → Keeps works Free (map_err a msg) h
unfolding map_err
Keeps-map_err works (answer a) msg h k = tt
Keeps-map_err works (failure e) msg h k = λ w. let e = (k w).1 in cc

-- A method over the history keeps what does not depend on the history.
pub Keeps-with_history :
    {A : Type 0} (works : Type 0) (post : ShellProxy → Type 0) (m : Method History A)
    (p : ShellProxy)
    → Keeps works Free m p.history
    → ((h : History) → post (record p { history = h }))
    → Keeps works (λ _. post) (with_history m) p
Keeps-with_history {A = A} works post m p k kept = Holds-history (m p.history).0 (m p.history).1 k
  where
    Holds-history :
        (r : Outcome A) (h : History)
        → Holds works Free r h
        → Holds works (λ _. post) r (record p { history = h })
    Holds-history (ok a) h k = kept h
    Holds-history (err e) h k = k
    Holds-history panicked h k = k
    Holds-history Outcome.exhausted h k = k

-- A state of the input's machine that is at the prompt as `b` says, and at rest.
abbrev Rests : Bool → ShellInputState → Type 0
Rests b s = (at_prompt s ≡ b) × (s ≢ hermit_input)

Keeps-activate :
    (works : Type 0) (s : ShellInputState)
    → Rests false s
    → Keeps works (λ _. Rests true) activate s
unfolding activate
Keeps-activate works idle (prompt, at_rest) = (refl, λ e. cc)
Keeps-activate works undetermined (prompt, at_rest) = cc
Keeps-activate works hermit_input (prompt, at_rest) = cc
Keeps-activate works shell_prompt (prompt, at_rest) = cc

Keeps-finish :
    (works : Type 0) (s : ShellInputState)
    → Rests true s
    → Keeps works (λ _. Rests false) finish_shell_prompt s
unfolding finish_shell_prompt
Keeps-finish works idle (prompt, at_rest) = cc
Keeps-finish works undetermined (prompt, at_rest) = (refl, λ e. cc)
Keeps-finish works hermit_input (prompt, at_rest) = absurd (at_rest refl)
Keeps-finish works shell_prompt (prompt, at_rest) = (refl, λ e. cc)

pub Keeps-with_input :
    {A : Type 0} (works : Type 0) (q : BashParser) (c : Bool) (m : Method ShellInputState A)
    (p : ShellProxy)
    → p.output_parser ≡ q
    → Keeps works (λ _. Rests c) m p.input_parser
    → Keeps works (λ _. With q c) (with_input m) p
Keeps-with_input {A = A} works q c m p same k =
    Holds-input (m p.input_parser).0 (m p.input_parser).1 k
  where
    Holds-input :
        (r : Outcome A) (s : ShellInputState)
        → Holds works (λ _. Rests c) r s
        → Holds works (λ _. With q c) r (record p { input_parser = s })
    Holds-input (ok a) s (prompt, at_rest) = (record { prompt = prompt; at_rest = at_rest }, same)
    Holds-input (err e) s k = k
    Holds-input panicked s k = k
    Holds-input Outcome.exhausted s k = k

module _ (o : Outside) where
  pub Keeps-write_out :
      (bytes : Bytes) (h : History) → Keeps (IsWorking o) Free (write_out o bytes) h
  unfolding write_out
  Keeps-write_out bytes h = Keeps-map_err _ _ _ _ (λ w. (tt, w.writes _))

  pub Keeps-flush_out : (h : History) → Keeps (IsWorking o) Free (flush_out o) h
  unfolding flush_out
  Keeps-flush_out h = Keeps-map_err _ _ _ _ (λ w. (tt, w.writes _))

  Keeps-save_context :
      (session_id : ℕ) (context_type : Option ShellOutputType) (context : Text) (h : History)
      → Keeps (IsWorking o) Free (save_context o session_id context_type context) h
  Keeps-save_context session_id context_type context h =
      Keeps-calm (IsWorking o) Free (save_context o session_id context_type context) h
        (calm-save_context o session_id context_type context h)
        (λ e failed works. let w = works.saves session_id context_type context h in cc) (λ a. tt)

  -- What is kept by a method that moves the history alone.
  pub With-history :
      (q : BashParser) (b : Bool) (p : ShellProxy) (h : History)
      → With q b p
      → With q b (record p { history = h })
  With-history q b p h (is, same) = (record { prompt = is.prompt; at_rest = is.at_rest }, same)

  pub Keeps-send_context :
      (q : BashParser) (b : Bool) (context_type : Option ShellOutputType) (bytes : Bytes)
      (p : ShellProxy)
      → After q b p
      → Keeps (IsWorking o) (λ _. After q b) (send_context o context_type bytes) p
  Keeps-send_context q b context_type bytes p (with_q, clear) =
      Keeps-with_history _ (After q b)
        (save_context o p.session_id context_type (context_of o bytes)) p
        (Keeps-save_context p.session_id context_type (context_of o bytes) p.history)
        (λ h. (With-history q b p h with_q, clear))

  pub Keeps-on_output_type :
      (q : BashParser) (b c : Bool) (output_type : ShellOutputType) (step : Bytes) (p : ShellProxy)
      → With q b p
      → after b (parsed output_type step) ≡ some c
      → Keeps (IsWorking o) (λ _. With q c) (on_output_type o output_type) p
  unfolding after
  Keeps-on_output_type q false c header step p (is, same) is_next =
      Keeps-with_input (IsWorking o) q c activate p same (
        subst (λ c. Keeps (IsWorking o) (λ _. Rests c) activate p.input_parser)
          (some-injective is_next)
          (Keeps-activate (IsWorking o) p.input_parser (is.prompt, is.at_rest)))
  Keeps-on_output_type q true c input step p (is, same) is_next =
      Keeps-with_input (IsWorking o) q c finish_shell_prompt p same (
        subst (λ c. Keeps (IsWorking o) (λ _. Rests c) finish_shell_prompt p.input_parser)
          (some-injective is_next)
          (Keeps-finish (IsWorking o) p.input_parser (is.prompt, is.at_rest)))
  Keeps-on_output_type q true c input_aborted step p (is, same) is_next =
      Keeps-with_input (IsWorking o) q c finish_shell_prompt p same (
        subst (λ c. Keeps (IsWorking o) (λ _. Rests c) finish_shell_prompt p.input_parser)
          (some-injective is_next)
          (Keeps-finish (IsWorking o) p.input_parser (is.prompt, is.at_rest)))
  Keeps-on_output_type q false c ShellOutputType.output step p with_q is_next =
      subst (λ c. With q c p) (some-injective is_next) with_q
  Keeps-on_output_type q true c header step p with_q is_next = cc
  Keeps-on_output_type q false c input step p with_q is_next = cc
  Keeps-on_output_type q false c input_aborted step p with_q is_next = cc
  Keeps-on_output_type q true c ShellOutputType.output step p with_q is_next = cc

  pub Keeps-take_context :
      (q : BashParser) (b : Bool) (step : Bytes) (p : ShellProxy)
      → With q b p
      → Keeps (IsWorking o) (λ _. After q b) (take_context o step) p
  Keeps-take_context q b step p with_q = taken p.output_aggregation refl
    where
      taken :
          (bytes : Bytes)
          → p.output_aggregation ≡ bytes
          → Keeps (IsWorking o) (λ _. After q b) (take_context o step) p
      taken [] is_empty =
          rw is_empty
            ((record { prompt = with_q.0.prompt; at_rest = with_q.0.at_rest }, with_q.1), λ _. refl)
      taken (c ∷ cs) is_full =
          rw is_full
            ((record { prompt = with_q.0.prompt; at_rest = with_q.0.at_rest }, with_q.1), λ _. refl)
