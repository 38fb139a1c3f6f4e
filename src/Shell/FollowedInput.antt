-- ===== src/Shell/FollowedInput.antt =====
-- llmsh/src/shell.rs, `handle_input`: how it changes the proxy, by how its calls do.
use mathlib.Core.Path.{subst}
use llmsh.Base.{[], ◌∷◌, Bytes}
use llmsh.Text.{Text, into_bytes}
use llmsh.Util.{fix_newlines}
use llmsh.Effects.{◌>>◌}
use llmsh.Effects.Contracts.{Goes, goes-after, Goes-bind}
use llmsh.Outside.{Outside, Answer, answer, failure, read_stdin}
use llmsh.Messages.{map_err}
use llmsh.Shell.Input
use llmsh.Shell.Input.{
  ShellInputTarget, ShellInputActions, stdout, pty, hermit, pass_through, finish_hermit_inputs,
  ShellInputState,
}
use llmsh.Shell.Hermit.{write_out, flush_out, write_parent, handle_hermit}
use llmsh.Shell.Proxy.{
  ShellProxy, with_history, with_input, hermit_action, handle_input_action, handle_input_actions,
  on_input, handle_input,
}

-- A relation of proxies, before and after, that the calls of `handle_input` keep.
pub record IsFollowedInput (o : Outside) (R : ShellProxy → ShellProxy → Type 0) : Type 0 where
  pub stays : (p : ShellProxy) → R p p
  pub goes_on : (p p1 p2 : ShellProxy) → R p p1 → R p1 p2 → R p p2
  pub by_read : (p : ShellProxy) → R p (record p { history = read_stdin ∷ p.history })
  pub by_input : (p : ShellProxy) (s : ShellInputState) → R p (record p { input_parser = s })
  pub by_write : (bytes : Bytes) → Goes R (with_history (write_out o bytes))
  pub by_flush : Goes R (with_history (flush_out o))
  pub by_shell : (bytes : Bytes) → Goes R (with_history (write_parent o bytes))
  pub by_dialogue : (p : ShellProxy) → R p (with_history (handle_hermit o p.session_id) p).1

module _ (o : Outside) (R : ShellProxy → ShellProxy → Type 0) (is : IsFollowedInput o R) where
  Goes-hermit_action : Goes R (hermit_action o)
  unfolding hermit_action
  Goes-hermit_action p =
      let rest = λ (typed : Text).
        with_input finish_hermit_inputs >> with_history (write_parent o (into_bytes typed)) in
      let talk = with_history (handle_hermit o p.session_id) in
      goes-after R talk rest p (is.by_dialogue p) (λ typed p1 talked.
        is.goes_on p p1 (rest typed p1).1 (subst (λ r. R p r.1) talked (is.by_dialogue p)) (
          Goes-bind R (with_input finish_hermit_inputs)
            (λ _. with_history (write_parent o (into_bytes typed))) is.goes_on
            (λ p. is.by_input p (finish_hermit_inputs p.input_parser).1)
            (λ _. is.by_shell (into_bytes typed)) p1))

  Goes-handle_input_action :
      (read : Bytes) (action : ShellInputTarget × Bytes)
      → Goes R (handle_input_action o read action)
  unfolding handle_input_action
  Goes-handle_input_action read (stdout, bytes) =
      Goes-bind R (with_history (write_out o (fix_newlines bytes)))
        (λ _. with_history (flush_out o)) is.goes_on (is.by_write (fix_newlines bytes))
        (λ _. is.by_flush)
  Goes-handle_input_action read (hermit, bytes) = Goes-hermit_action
  Goes-handle_input_action read (pty, bytes) = is.by_shell bytes
  Goes-handle_input_action read (pass_through, bytes) = is.by_shell read

  Goes-handle_input_actions :
      (read : Bytes) (actions : ShellInputActions) → Goes R (handle_input_actions o read actions)
  unfolding handle_input_actions
  Goes-handle_input_actions read [] p = is.stays p
  Goes-handle_input_actions read (action ∷ actions) p =
      Goes-bind R (handle_input_action o read action) (λ _. handle_input_actions o read actions)
        is.goes_on (Goes-handle_input_action read action)
        (λ _. Goes-handle_input_actions read actions) p

  Goes-on_input : (read : Answer Bytes) → Goes R (on_input o read)
  unfolding on_input map_err
  Goes-on_input (answer []) p = is.stays p
  Goes-on_input (answer (c ∷ cs)) p =
      Goes-bind R (with_input (Input.handle_input (c ∷ cs))) (handle_input_actions o (c ∷ cs))
        is.goes_on (λ p. is.by_input p (Input.handle_input (c ∷ cs) p.input_parser).1)
        (Goes-handle_input_actions (c ∷ cs)) p
  Goes-on_input (failure e) p = is.stays p

  pub Goes-handle_input : Goes R (handle_input o)
  unfolding handle_input
  Goes-handle_input p =
      let p0 = record p { history = read_stdin ∷ p.history } in
      is.goes_on p p0 (handle_input o p).1 (is.by_read p)
        (Goes-on_input (o.on_read_stdin (read_stdin ∷ p.history)) p0)
