-- ===== src/MainLoop/Safety.antt =====
-- llmsh/src/main.rs, `safe_handle_terminal`: its rounds and panics.
use llmsh.Base.{
  ℕ, zero, suc, List, [], ◌∷◌, Bool, true, false, Outcome, ok, err, panicked, exhausted, All,
  if◌then◌else◌, ◌≡◌, ◌≢◌, ◌⊎◌, inl, inr, Bool-cases, ltb, Bytes,
}
use llmsh.Effects.{Method, proceed, pure}
use llmsh.Effects.Contracts.{Keeps, Keeps-bind, Holds}
use llmsh.Outside.{Outside, History, PollResult, events, interrupted, poll_failure, poll}
use llmsh.Shell.Proxy.{ShellProxy, handle_input, handle_output}
use llmsh.Shell.Output.{IsCoupled, handle_output-IsCoupled}
use llmsh.Shell.Typed.{handle_input-IsCoupled}
use llmsh.Pty.{parent_tok, stdin_tok}
use llmsh.MainLoop.{
  Loop, Next, continue, finished, handle_events, check_child, on_polled, round, rounds, go_on,
  max_eintr_retry, safe_handle_terminal,
}

-- `poll` answers with the two tokens that were registered.
abbrev pub IsRegistered : ℕ → Type 0
IsRegistered token = (token ≡ parent_tok) ⊎ (token ≡ stdin_tok)

abbrev pub IsPolled : PollResult → Type 0
IsPolled (events tokens) = All IsRegistered tokens
IsPolled (interrupted e) = Unit
IsPolled (poll_failure e) = Unit

module _ {S A : Type 0} where
  Keeps-any :
      (works : Type 0) (post : A → S → Type 0) (m : Method S A) (s : S)
      → Keeps works post m s
      → Keeps ⊥ post m s
  Keeps-any works post m s k = Holds-any (m s).0 k
    where
      Holds-any : (r : Outcome A) → Holds works post r (m s).1 → Holds ⊥ post r (m s).1
      Holds-any (ok a) k = k
      Holds-any (err e) k = λ e. e
      Holds-any panicked k = k
      Holds-any exhausted k = k

module _ (m n : Bytes) (o : Outside) where
  abbrev Safe : {A : Type 0} → A → ShellProxy → Type 0
  Safe a p = IsCoupled m n p

  Keeps-break :
      (tokens : List ℕ) (exited : Bool) (p : ShellProxy)
      → IsCoupled m n p
      → ((p' : ShellProxy) → IsCoupled m n p' → Keeps ⊥ Safe (handle_events o tokens false) p')
      → Keeps ⊥ Safe (if exited then pure true else handle_events o tokens false) p
  Keeps-break tokens true p is k = is
  Keeps-break tokens false p is k = k p is

  Keeps-handle_events :
      (tokens : List ℕ) (child_exited : Bool) (p : ShellProxy)
      → All IsRegistered tokens
      → IsCoupled m n p
      → Keeps ⊥ Safe (handle_events o tokens child_exited) p
  unfolding handle_events
  Keeps-handle_events [] child_exited p registered is = is
  Keeps-handle_events (token ∷ tokens) child_exited p (inl e, registered) is = rw e (
      Keeps-bind ⊥ Safe Safe (handle_output o) _ p
        (Keeps-any _ Safe (handle_output o) p (handle_output-IsCoupled m n o p is))
        (λ exited p1 is1.
          Keeps-break tokens exited p1 is1
            (λ p2 is2. Keeps-handle_events tokens false p2 registered is2)))
  Keeps-handle_events (token ∷ tokens) child_exited p (inr e, registered) is = rw e (
      Keeps-bind ⊥ Safe Safe (handle_input o) _ p
        (Keeps-any _ Safe (handle_input o) p (handle_input-IsCoupled o m n p is))
        (λ _ p1 is1. Keeps-handle_events tokens child_exited p1 registered is1))

  -- What does not depend on the history.
  IsCoupled-history :
      (p : ShellProxy) (h : History) → IsCoupled m n p → IsCoupled m n (record p { history = h })
  IsCoupled-history p h (bash, ((is, same), clear)) =
      (bash, ((record { prompt = is.prompt; at_rest = is.at_rest }, same), clear))

  Keeps-check_child :
      (l : Loop) (p : ShellProxy) → IsCoupled m n p → Keeps ⊥ Safe (check_child o l) p
  unfolding check_child
  Keeps-check_child l p is = elim (Bool-cases l.child_exited) [
    | inl exited ↦ rw exited (IsCoupled-history p _ is)
    | inr runs ↦ rw runs is
  ]

  Keeps-on_polled :
      (l : Loop) (polled : PollResult) (p : ShellProxy)
      → IsPolled polled
      → IsCoupled m n p
      → Keeps ⊥ Safe (on_polled o l polled) p
  unfolding on_polled
  Keeps-on_polled l (events tokens) p registered is =
      Keeps-bind ⊥ Safe Safe (handle_events o tokens l.child_exited)
        (λ child_exited. check_child o (record { child_exited = child_exited; retry_counter = 0 }))
        p (Keeps-handle_events tokens l.child_exited p registered is)
        (λ child_exited p1 is1.
          Keeps-check_child (record { child_exited = child_exited; retry_counter = 0 }) p1 is1)
  Keeps-on_polled l (interrupted e) p registered is =
      elim (Bool-cases (ltb l.retry_counter max_eintr_retry)) [
        | inl more ↦ rw more (IsCoupled-history p _ is)
        | inr enough ↦ rw enough (λ e. e)
      ]
  Keeps-on_polled l (poll_failure e) p registered is = λ e. e

  module _ (registered : (h : History) → IsPolled (o.on_poll h)) where
    Keeps-round : (l : Loop) (p : ShellProxy) → IsCoupled m n p → Keeps ⊥ Safe (round o l) p
    unfolding round
    Keeps-round l p is =
        Keeps-on_polled l _ _ (registered (poll ∷ p.history)) (IsCoupled-history p _ is)

    rounds-safe :
        (fuel : ℕ) (l : Loop) (p : ShellProxy) → IsCoupled m n p → (rounds o fuel l p).0 ≢ panicked
    unfolding rounds
    rounds-safe zero l p is = λ e. cc
    rounds-safe (suc fuel) l p is =
        next-safe (round o l p) (Keeps-round l p is) (λ l' p' is'. rounds-safe fuel l' p' is')
      where
        next-safe :
            (r : Outcome Next × ShellProxy)
            → Holds ⊥ Safe r.0 r.1
            → ((l' : Loop) (p' : ShellProxy)
                → IsCoupled m n p'
                → (rounds o fuel l' p').0 ≢ panicked)
            → (proceed r.0 (λ next. go_on o (rounds o fuel) next) r.1).0 ≢ panicked
        next-safe (ok (continue l'), p') k later = later l' p' k
        next-safe (ok finished, p') k later = λ e. cc
        next-safe (err x, p') k later = λ e. cc
        next-safe (panicked, p') k later = absurd k
        next-safe (exhausted, p') k later = absurd k

    -- From a coupled proxy on, the loop panics in no round, whatever the outside does, as long as `poll`
    -- reports registered tokens alone.
    pub safe_handle_terminal-safe :
        (fuel : ℕ) (p : ShellProxy) → IsCoupled m n p → (safe_handle_terminal o fuel p).0 ≢ panicked
    unfolding safe_handle_terminal
    safe_handle_terminal-safe fuel p is = rounds-safe fuel _ p is
