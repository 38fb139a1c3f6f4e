-- ===== src/MainLoop/Exits.antt =====
-- llmsh/src/main.rs, `safe_handle_terminal`: when the loop ends, by the value of `handle_output`.
use llmsh.Base.{
  Bytes, ok-injective, ℕ, zero, suc, List, [], ◌∷◌, Bool, true, false, ok, exhausted, ◌≡◌, refl,
  sym, ap, ◌∙◌,
}
use llmsh.Effects.{bind-ok, pure}
use llmsh.Outside.{
  Outside, History, events, poll, wait_child, other_status, read_pty, pty_eio, pty_bytes,
}
use llmsh.Shell.Proxy.{ShellProxy, handle_output, on_output, handle_all, with_output, with_history}
use llmsh.Shell.Bash.{parse_output}
use llmsh.Shell.Hermit.{flush_out}
use llmsh.Pty.{parent_tok}
use llmsh.MainLoop.{
  continue, handle_events, check_child, on_polled, round, rounds, safe_handle_terminal,
}

module _ (o : Outside) where
  -- Output that is handled is never taken for the end.
  pub handle_output-true :
      (p p' : ShellProxy) (more : Bool) (c : ℕ) (cs : Bytes)
      → o.on_read_pty (read_pty ∷ p.history) ≡ pty_bytes (c ∷ cs)
      → handle_output o p ≡ (ok more, p')
      → handle_output o p ≡ (ok true, p')
  unfolding handle_output on_output
  handle_output-true p p' more c cs read e =
      let (outs, p1, _, e1) =
        bind-ok (with_output (λ q. parse_output q (c ∷ cs))) _ _ (rw read at e) in
      let (_, p2, _, e2) = bind-ok (handle_all o outs) _ p1 e1 in
      let (_, p3, _, e3) = bind-ok (with_history (flush_out o)) (λ _. pure true) p2 e2 in
      let same : true ≡ more = ok-injective (ap (λ r. r.0) e3) in e ∙ (λ i. (ok (sym same i), p'))

  -- After output the events behind it in the batch are left: neither what was typed nor more output is
  -- handled in this round.
  pub handle_events-output :
      (tokens : List ℕ) (child_exited : Bool) (p p' : ShellProxy)
      → handle_output o p ≡ (ok true, p')
      → handle_events o (parent_tok ∷ tokens) child_exited p ≡ (ok true, p')
  unfolding handle_events
  handle_events-output tokens child_exited p p' e = rw e refl

  -- If output comes in and `handle_output` handles it, and the child is no longer alive, the loop ends in that
  -- round, with no error, and with no call but `poll`, those of `handle_output`, and `waitpid`: the events
  -- behind the output in the batch are left.
  pub safe_handle_terminal-ends :
      (fuel : ℕ) (tokens : List ℕ) (p p' : ShellProxy)
      → o.on_poll (poll ∷ p.history) ≡ events (parent_tok ∷ tokens)
      → handle_output o (record p { history = poll ∷ p.history }) ≡ (ok true, p')
      → o.on_wait (wait_child ∷ p'.history) ≡ other_status
      → safe_handle_terminal o (suc fuel) p
        ≡ (ok tt, record p' { history = wait_child ∷ p'.history })
  unfolding safe_handle_terminal rounds round on_polled check_child
  safe_handle_terminal-ends fuel tokens p p' polled handled exited =
      rw polled (rw (handle_events-output tokens false _ p' handled) (rw exited refl))

  module _ (polls : (h : History) → o.on_poll h ≡ events (parent_tok ∷ []))
      (closed : (h : History) → o.on_read_pty h ≡ pty_eio) where
    round-closed :
        (r : ℕ) (p : ShellProxy)
        → round o (record { child_exited = false; retry_counter = r }) p ≡ (
          ok (continue (record { child_exited = false; retry_counter = 0 })),
          record p { history = read_pty ∷ poll ∷ p.history },
        )
    unfolding round on_polled handle_events check_child handle_output on_output
    round-closed r p = rw (polls (poll ∷ p.history), closed (read_pty ∷ poll ∷ p.history)) refl

    rounds-closed :
        (fuel r : ℕ) (p : ShellProxy)
        → (rounds o fuel (record { child_exited = false; retry_counter = r }) p).0 ≡ exhausted
    unfolding rounds
    rounds-closed zero r p = refl
    rounds-closed (suc fuel) r p =
        rw (round-closed r p)
          (rounds-closed fuel 0 (record p { history = read_pty ∷ poll ∷ p.history }))

    -- When the shell has closed its side, so that every read is EIO, and `poll` reports it again and again,
    -- no number of rounds ends the loop, whatever `waitpid` would answer.
    pub safe_handle_terminal-closed :
        (fuel : ℕ) (p : ShellProxy) → (safe_handle_terminal o fuel p).0 ≡ exhausted
    unfolding safe_handle_terminal
    safe_handle_terminal-closed fuel p = rounds-closed fuel 0 p
