-- ===== src/MainLoop/Interrupts.antt =====
-- Interrupted calls of `poll` are tried again, ten times in a row at most.
use llmsh.Base.{
  ℕ, zero, suc, ◌+◌, ◌-◌, ◌≤◌, ◌<◌, ◌∷◌, true, false, ok, err, ltb, arith, ◌≡◌, refl, ◌∙◌, ap,
}
use llmsh.Text.{Text}
use llmsh.Outside.{Outside, History, interrupted, poll, sleep_millis}
use llmsh.Shell.Proxy.{ShellProxy}
use llmsh.MainLoop.{
  max_eintr_retry, Loop, continue, on_polled, round, rounds, safe_handle_terminal, repeatedly,
}

-- The history after `k` polls, each with a pause behind it.
abbrev pub retried : ℕ → History → History
retried zero h = h
retried (suc k) h = retried k (sleep_millis 100 ∷ poll ∷ h)

module _ (o : Outside) (e : Text) (interrupts : (h : History) → o.on_poll h ≡ interrupted e) where
  abbrev counted : ℕ → Loop
  counted r = record { child_exited = false; retry_counter = r }

  round-retries :
      (r : ℕ) (p : ShellProxy)
      → r < max_eintr_retry
      → round o (counted r) p ≡ (
        ok (continue (counted (r + 1))),
        record p { history = sleep_millis 100 ∷ poll ∷ p.history },
      )
  unfolding round on_polled
  round-retries r p lt =
      let more : ltb r max_eintr_retry ≡ true = ground arith in
      rw (interrupts (poll ∷ p.history)) (rw more refl)

  round-gives_up :
      (p : ShellProxy)
      → round o (counted max_eintr_retry) p
        ≡ (err (repeatedly e), record p { history = poll ∷ p.history })
  unfolding round on_polled
  round-gives_up p = rw (interrupts (poll ∷ p.history)) refl

  rounds-interrupted :
      (k r fuel : ℕ) (p : ShellProxy)
      → r + k ≡ max_eintr_retry
      → rounds o (suc (k + fuel)) (counted r) p
        ≡ (err (repeatedly e), record p { history = poll ∷ retried k p.history })
  unfolding rounds
  rounds-interrupted zero r fuel p is =
      let at_end : r ≡ max_eintr_retry = omega arith in rw at_end (rw (round-gives_up p) refl)
  rounds-interrupted (suc k) r fuel p is =
      let one_less : suc k + fuel ≡ suc (k + fuel) = omega arith in
      rw (round-retries r p (omega arith)) (
        ap
          (λ n.
            rounds o n (counted (r + 1))
              (record p { history = sleep_millis 100 ∷ poll ∷ p.history }))
          one_less
        ∙ rounds-interrupted k (r + 1) fuel
            (record p { history = sleep_millis 100 ∷ poll ∷ p.history }) (omega arith))

  -- If every poll is interrupted, the loop ends with an error, after eleven polls and ten pauses between
  -- them, and nothing else: eleven rounds are enough.
  pub safe_handle_terminal-interrupted :
      (fuel : ℕ) (p : ShellProxy)
      → 11 ≤ fuel
      → safe_handle_terminal o fuel p
        ≡ (err (repeatedly e), record p { history = poll ∷ retried max_eintr_retry p.history })
  unfolding safe_handle_terminal
  safe_handle_terminal-interrupted fuel p enough =
      let is : fuel ≡ suc (10 + (fuel - 11)) = omega arith in
      ap (λ n. rounds o n (counted 0) p) is ∙ rounds-interrupted 10 0 (fuel - 11) p refl
