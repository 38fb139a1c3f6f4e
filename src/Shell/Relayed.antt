-- ===== src/Shell/Relayed.antt =====
-- llmsh/src/shell.rs: what reaches the shell in any sequence of calls of `handle_input` and
-- `handle_output`, whatever they come to.
use mathlib.Core.Path.{subst}
use mathlib.Core.List.{append-nil}
use llmsh.Base.{ℕ, [], ◌∷◌, ◌++◌, Bytes, ◌≡◌, ◌⊎◌, inl, inr, refl, sym, ap, ◌∙◌, codes, Bool-cases}
use llmsh.Text.{into_bytes}
use llmsh.Effects.{Method, ◌>>◌, pure}
use llmsh.Effects.Contracts.{Goes, goes-after}
use llmsh.Outside.{Outside, History, Answer, answer, failure, read_stdin, write_pty}
use llmsh.Messages.{map_err}
use llmsh.Shell.Input
use llmsh.Shell.Input.{
  ShellInputState, undetermined, hermit_input, shell_prompt, idle, contains_colon,
  handle_undetermined, handle_shell_prompt, finish_hermit_inputs,
}
use llmsh.Shell.Hermit.{write_parent, handle_hermit}
use llmsh.Shell.Proxy.{
  ShellProxy, with_history, with_input, hermit_action, handle_input_action, handle_input_actions,
  on_input, handle_input, handle_output,
}
use llmsh.Shell.Relays.{
  Piece, typed, entered, nothing, done, then_input, then_output, IsRelayed, of_calls,
}
use llmsh.Shell.Quiet.{to_shell, IsQuiet-handle_hermit, IsQuiet-map_err}
use llmsh.Shell.QuietOutput.{IsQuiet-handle_output}
use llmsh.Shell.Chosen.{Entered-handle_hermit}
use llmsh.Shell.Showing.{with_history-ok}
use llmsh.Shell.Colons.{Opens, Opens-colon, Opens-none, Opens-not}

module _ (o : Outside) where
  -- Afterwards the shell was given a piece of `p` more than before `p`.
  abbrev Sent : ShellProxy → ShellProxy → Type 0
  Sent p p' =
      (bytes : Bytes) × Piece o p bytes × (to_shell p'.history ≡ to_shell p.history ++ bytes)

  Sent-nothing :
      (p p' : ShellProxy)
      → ((c : ℕ) (cs : Bytes)
          → o.on_read_stdin (read_stdin ∷ p.history) ≡ answer (c ∷ cs)
          → Opens (c ∷ cs) p.input_parser ⊎ (p.input_parser ≡ hermit_input))
      → to_shell p'.history ≡ to_shell p.history
      → Sent p p'
  Sent-nothing p p' why e = ([], nothing why, e ∙ sym (append-nil (to_shell p.history)))

  -- What is handed to `write_all` for the shell's terminal counts as given, also if that fails.
  sent-write_parent :
      (bytes : Bytes) (h : History) → to_shell (write_parent o bytes h).1 ≡ to_shell h ++ bytes
  unfolding write_parent
  sent-write_parent bytes h =
      IsQuiet-map_err (o.on_write (write_pty bytes ∷ h)) (codes "Failed to write to parent_fd")
        (write_pty bytes ∷ h)

  Sent-write_parent :
      (p p0 : ShellProxy) (bytes : Bytes)
      → Piece o p bytes
      → to_shell p0.history ≡ to_shell p.history
      → Sent p (with_history (write_parent o bytes) p0).1
  Sent-write_parent p p0 bytes piece same =
      (bytes, piece, sent-write_parent bytes p0.history ∙ ap (λ t. t ++ bytes) same)

  -- The method's end adds nothing.
  Sent-last :
      (p p0 : ShellProxy) (m : Method ShellProxy (Unit {0}))
      → Sent p (m p0).1
      → Sent p ((m >> pure tt) p0).1
  Sent-last p p0 m sent =
      goes-after (λ _ p'. Sent p p') m (λ _. pure tt) p0 sent
        (λ _ p1 is. subst (λ r. Sent p r.1) is sent)

  -- A dialogue, and what it comes to.
  Sent-hermit_action :
      (p : ShellProxy) (opening : Bytes)
      → o.on_read_stdin (read_stdin ∷ p.history) ≡ answer opening
      → Opens opening p.input_parser
      → Sent p
          (hermit_action o
            (record p { history = read_stdin ∷ p.history; input_parser = hermit_input })).1
  unfolding hermit_action
  Sent-hermit_action p opening read opens =
      let p0 = record p { history = read_stdin ∷ p.history; input_parser = hermit_input } in
      let talk = with_history (handle_hermit o p.session_id) in
      let silent = IsQuiet-handle_hermit o p.session_id (read_stdin ∷ p.history) in
      let opened = opening-Opens p opening read opens in
      goes-after (λ _ p'. Sent p p') talk _ p0 (Sent-nothing p (talk p0).1 opened silent)
        (λ text p1 talked.
          let (h, talked', _) = with_history-ok (handle_hermit o p.session_id) p0 p1 talked in
          let chosen =
            Entered-handle_hermit o p.session_id (read_stdin ∷ p.history) h text talked' in
          let quiet = ap (λ r. to_shell r.1.history) (sym talked) ∙ silent in
          goes-after (λ _ p'. Sent p p') (with_input finish_hermit_inputs)
            (λ _. with_history (write_parent o (into_bytes text))) p1
            (Sent-nothing p (with_input finish_hermit_inputs p1).1 opened quiet)
            (λ _ p2 finishing.
              Sent-write_parent p p2 (into_bytes text) (entered opening text read opens chosen refl)
                (ap (λ r. to_shell r.1.history) (sym finishing) ∙ quiet)))
    where
      opening-Opens :
          (p : ShellProxy) (opening : Bytes)
          → o.on_read_stdin (read_stdin ∷ p.history) ≡ answer opening
          → Opens opening p.input_parser
          → (c : ℕ) (cs : Bytes) → o.on_read_stdin (read_stdin ∷ p.history) ≡ answer (c ∷ cs)
          → Opens (c ∷ cs) p.input_parser ⊎ (p.input_parser ≡ hermit_input)
      opening-Opens p opening read opens c cs also =
          let same : opening ≡ c ∷ cs = cc in inl (subst (λ t. Opens t p.input_parser) same opens)

  Sent-passed :
      (p : ShellProxy) (s : ShellInputState) (bytes : Bytes)
      → o.on_read_stdin (read_stdin ∷ p.history) ≡ answer bytes
      → ¬ Opens bytes p.input_parser
      → Sent p
          ((with_history (write_parent o bytes) >> pure tt)
            (record p { history = read_stdin ∷ p.history; input_parser = s })).1
  Sent-passed p s bytes read opens_none =
      let p0 = record p { history = read_stdin ∷ p.history; input_parser = s } in
      Sent-last p p0 (with_history (write_parent o bytes))
        (Sent-write_parent p p0 bytes (typed read opens_none) refl)

  Sent-same : {q p : ShellProxy} (p' : ShellProxy) → q ≡ p → Sent p p' → Sent q p'
  Sent-same p' same sent = subst (λ q. Sent q p') (sym same) sent

  -- `q` is `p`, kept apart from what is rewritten.
  Sent-typed :
      (q p : ShellProxy) (s : ShellInputState) (c : ℕ) (cs : Bytes)
      → q ≡ p
      → p.input_parser ≡ s
      → o.on_read_stdin (read_stdin ∷ p.history) ≡ answer (c ∷ cs)
      → Sent q (on_input o (answer (c ∷ cs)) (record p { history = read_stdin ∷ p.history })).1
  unfolding on_input Input.handle_input handle_input_actions handle_input_action handle_undetermined
      handle_shell_prompt
  Sent-typed q p idle c cs same is read =
      rw (with_input, is)
        (Sent-same
          ((((with_history (write_parent o (c ∷ cs))) >> pure tt)
            (record p { history = read_stdin ∷ p.history; input_parser = idle })).1)
          same (Sent-passed p idle (c ∷ cs) read (Opens-not (c ∷ cs) p.input_parser is (λ h. h))))
  Sent-typed q p shell_prompt c cs same is read =
      rw (with_input, is)
        (Sent-same
          ((((with_history (write_parent o (c ∷ cs))) >> pure tt)
            (record p { history = read_stdin ∷ p.history; input_parser = shell_prompt })).1)
          same
          (Sent-passed p shell_prompt (c ∷ cs) read
            (Opens-not (c ∷ cs) p.input_parser is (λ h. h))))
  Sent-typed q p hermit_input c cs same is read =
      rw (with_input, is)
        (Sent-same ((record p { history = read_stdin ∷ p.history; input_parser = hermit_input }))
          same
          (Sent-nothing p
            (record p { history = read_stdin ∷ p.history; input_parser = hermit_input })
            (λ _ _ _. inr is) refl))
  Sent-typed q p undetermined c cs same is read = elim (Bool-cases (contains_colon (c ∷ cs))) [
    | inl colon ↦
        rw (with_input, is, colon)
          (Sent-same
            ((((hermit_action o) >> pure tt)
              (record p { history = read_stdin ∷ p.history; input_parser = hermit_input })).1)
            same
            (Sent-last p
              (record p { history = read_stdin ∷ p.history; input_parser = hermit_input })
              (hermit_action o)
              (Sent-hermit_action p (c ∷ cs) read (Opens-colon (c ∷ cs) p.input_parser is colon))))
    | inr none_there ↦
        rw (with_input, is, none_there)
          (Sent-same
            ((((with_history (write_parent o (c ∷ cs))) >> pure tt)
              (record p { history = read_stdin ∷ p.history; input_parser = shell_prompt })).1)
            same
            (Sent-passed p shell_prompt (c ∷ cs) read
              (Opens-none (c ∷ cs) p.input_parser is none_there)))
  ]

  Sent-on_input :
      (p : ShellProxy) (read : Answer Bytes)
      → o.on_read_stdin (read_stdin ∷ p.history) ≡ read
      → Sent p (on_input o read (record p { history = read_stdin ∷ p.history })).1
  unfolding on_input map_err
  Sent-on_input p (answer []) is =
      Sent-nothing p (record p { history = read_stdin ∷ p.history }) (λ c cs also. cc) refl
  Sent-on_input p (answer (c ∷ cs)) is = Sent-typed p p p.input_parser c cs refl refl is
  Sent-on_input p (failure e) is =
      Sent-nothing p (record p { history = read_stdin ∷ p.history }) (λ c cs also. cc) refl

  pub Goes-handle_input : Goes (IsRelayed o) (handle_input o)
  unfolding handle_input
  Goes-handle_input p =
      let (bytes, piece, e) = Sent-on_input p (o.on_read_stdin (read_stdin ∷ p.history)) refl in
      of_calls o (then_input piece e done)

  pub Goes-handle_output : Goes (IsRelayed o) (handle_output o)
  Goes-handle_output p = of_calls o (then_output (IsQuiet-handle_output o p) done)
