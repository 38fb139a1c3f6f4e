-- ===== src/MainLoop/Followed.antt =====
-- llmsh/src/main.rs, `safe_handle_terminal`: what its rounds change, by what both handlers do.
use llmsh.Base.{
  ℕ, zero, suc, List, [], ◌∷◌, Bool, true, false, ◌==◌, ltb, if◌then◌else◌, Bool-cases, inl, inr,
}
use llmsh.Effects.{Method, ◌>>=◌, pure, panic}
use llmsh.Effects.Contracts.{Goes, Goes-bind}
use llmsh.Outside.{
  Outside, PollResult, events, interrupted, poll_failure, poll, sleep_millis, wait_child,
}
use llmsh.Shell.Proxy.{ShellProxy, handle_input, handle_output}
use llmsh.Pty.{parent_tok, stdin_tok}
use llmsh.MainLoop.{
  Loop, Next, continue, finished, handle_events, check_child, on_polled, round, rounds, go_on,
  max_eintr_retry, safe_handle_terminal,
}

-- A relation of proxies, before and after, that both handlers and the loop's own calls keep.
pub record IsFollowedLoop (o : Outside) (R : ShellProxy → ShellProxy → Type 0) : Type 0 where
  pub stays : (p : ShellProxy) → R p p
  pub goes_on : (p p1 p2 : ShellProxy) → R p p1 → R p1 p2 → R p p2
  pub by_input : Goes R (handle_input o)
  pub by_output : Goes R (handle_output o)
  pub by_poll : (p : ShellProxy) → R p (record p { history = poll ∷ p.history })
  pub by_sleep : (p : ShellProxy) → R p (record p { history = sleep_millis 100 ∷ p.history })
  pub by_wait : (p : ShellProxy) → R p (record p { history = wait_child ∷ p.history })

module _ (o : Outside) (R : ShellProxy → ShellProxy → Type 0) (is : IsFollowedLoop o R) where
  Goes-pure : {A : Type 0} (a : A) → Goes R (pure a)
  Goes-pure a p = is.stays p

  Goes-if :
      {A : Type 0} (b : Bool) (m n : Method ShellProxy A)
      → Goes R m
      → Goes R n
      → Goes R (if b then m else n)
  Goes-if true m n first second = first
  Goes-if false m n first second = second

  Goes-handle_events :
      (tokens : List ℕ) (child_exited : Bool) → Goes R (handle_events o tokens child_exited)
  unfolding handle_events
  Goes-handle_events [] child_exited p = Goes-pure child_exited p
  Goes-handle_events (token ∷ tokens) child_exited p =
      Goes-if (token == parent_tok)
        (handle_output o >>= λ exited. if exited then pure true else handle_events o tokens false)
        (if token == stdin_tok
          then (handle_input o >>= λ _. handle_events o tokens child_exited)
          else panic)
        (Goes-bind R (handle_output o) _ is.goes_on is.by_output (λ exited.
          Goes-if exited (pure true) (handle_events o tokens false) (Goes-pure true)
            (Goes-handle_events tokens false)))
        (Goes-if (token == stdin_tok) (handle_input o >>= λ _. handle_events o tokens child_exited)
          panic
          (Goes-bind R (handle_input o) _ is.goes_on is.by_input
            (λ _. Goes-handle_events tokens child_exited))
          (λ p. is.stays p))
        p

  Goes-check_child : (l : Loop) → Goes R (check_child o l)
  unfolding check_child
  Goes-check_child l p = elim (Bool-cases l.child_exited) [
    | inl exited ↦ rw exited (is.by_wait p)
    | inr runs ↦ rw runs (is.stays p)
  ]

  Goes-on_polled : (l : Loop) (polled : PollResult) → Goes R (on_polled o l polled)
  unfolding on_polled
  Goes-on_polled l (events tokens) p =
      Goes-bind R (handle_events o tokens l.child_exited)
        (λ child_exited. check_child o (record { child_exited = child_exited; retry_counter = 0 }))
        is.goes_on (Goes-handle_events tokens l.child_exited)
        (λ child_exited.
          Goes-check_child (record { child_exited = child_exited; retry_counter = 0 }))
        p
  Goes-on_polled l (interrupted e) p = elim (Bool-cases (ltb l.retry_counter max_eintr_retry)) [
    | inl more ↦ rw more (is.by_sleep p)
    | inr enough ↦ rw enough (is.stays p)
  ]
  Goes-on_polled l (poll_failure e) p = is.stays p

  Goes-round : (l : Loop) → Goes R (round o l)
  unfolding round
  Goes-round l p =
      let p0 = record p { history = poll ∷ p.history } in
      is.goes_on p p0 (round o l p).1 (is.by_poll p)
        (Goes-on_polled l (o.on_poll (poll ∷ p.history)) p0)

  Goes-rounds : (fuel : ℕ) (l : Loop) → Goes R (rounds o fuel l)
  unfolding rounds
  Goes-rounds zero l p = is.stays p
  Goes-rounds (suc fuel) l p =
      Goes-bind R (round o l) (go_on o (rounds o fuel)) is.goes_on (Goes-round l)
        (Goes-go_on (λ l1. Goes-rounds fuel l1)) p
    where
      Goes-go_on :
          ((l1 : Loop) → Goes R (rounds o fuel l1))
          → (next : Next) → Goes R (go_on o (rounds o fuel) next)
      Goes-go_on later (continue l1) = later l1
      Goes-go_on later finished = Goes-pure tt

  pub Goes-safe_handle_terminal : (fuel : ℕ) → Goes R (safe_handle_terminal o fuel)
  unfolding safe_handle_terminal
  Goes-safe_handle_terminal fuel =
      Goes-rounds fuel (record { child_exited = false; retry_counter = 0 })
