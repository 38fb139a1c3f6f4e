-- ===== src/Pty/Signals.antt =====
-- llmsh/src/pty.rs, the thread of `setup_signal_handlers`: which signals the shell's jobs get.
use llmsh.Base.{
  zero, suc, ◌≢◌, get_elem?, ℕ, List, [], ◌∷◌, some, true, Outcome, ok, err, panicked, exhausted,
  ◌≡◌, refl, arith, ap, ◌∙◌,
}
use llmsh.Effects.{proceed}
use llmsh.Outside.{
  Platform, History, answer, WinSize, SystemSignal, sigint, sigtstp, sigquit, sigwinch,
  other_signal, killpg, stat_process, open_process, get_size, set_size,
}
use llmsh.Messages.{map_err}
use llmsh.Pty.{
  handled_signals, pass_signal, sync_terminal_size, handle_signal, handle_signals, ignore,
}

-- One of the signals that `setup_signal_handlers` asks for.
abbrev pub IsHandled : SystemSignal → Type 0
IsHandled sig = (i : ℕ) × (get_elem? handled_signals i ≡ some sig)

-- So the arm that is `unreachable!` is not reached.
other-unhandled : (n i : ℕ) → get_elem? handled_signals i ≢ some (other_signal n)
other-unhandled n zero e = cc
other-unhandled n (suc zero) e = cc
other-unhandled n (suc (suc zero)) e = cc
other-unhandled n (suc (suc (suc zero))) e = cc
other-unhandled n (suc (suc (suc (suc i)))) e = cc

abbrev pub AreHandled : List SystemSignal → Type 0
AreHandled [] = Unit {0}
AreHandled (sig ∷ sigs) = IsHandled sig × AreHandled sigs

-- A signal from the keyboard; the other that is handled is the change of the window.
abbrev pub keyboard : List SystemSignal → List SystemSignal
keyboard [] = []
keyboard (sigwinch ∷ sigs) = keyboard sigs
keyboard (sig ∷ sigs) = sig ∷ keyboard sigs

-- The signals that were sent, the latest first.
unfoldable pub sent : History → List SystemSignal
sent [] = []
sent (killpg pgid sig ∷ h) = sig ∷ sent h
sent (_ ∷ h) = sent h

unfoldable pub reversed : List SystemSignal → List SystemSignal → List SystemSignal
reversed [] ys = ys
reversed (x ∷ xs) ys = reversed xs (x ∷ ys)

module _ (s : Platform) where
  abbrev IsForeground : ℕ → ℕ → History → Type 0
  IsForeground pid pgid (stat_process p ∷ h) =
      (p ≡ pid) × (s.on_stat_process (stat_process p ∷ h) ≡ answer pgid)
  IsForeground pid pgid _ = ⊥

  -- Each signal went to the group that procfs had just given as the foreground group of the terminal of
  -- process `pid`.
  unfoldable pub AreForeground : ℕ → History → Type 0
  AreForeground pid [] = Unit {0}
  AreForeground pid (killpg pgid sig ∷ h) = IsForeground pid pgid h × AreForeground pid h
  AreForeground pid (_ ∷ h) = AreForeground pid h

  pass_signal-AreForeground :
      (pid : ℕ) (sig : SystemSignal) (h : History)
      → AreForeground pid h
      → AreForeground pid (ignore (pass_signal s pid sig) h).1
  unfolding pass_signal map_err AreForeground
  pass_signal-AreForeground pid sig h k = ground arith

  sync_terminal_size-AreForeground :
      (pid parent_fd child_fd : ℕ) (h : History)
      → AreForeground pid h
      → AreForeground pid (sync_terminal_size s parent_fd child_fd h).1
  unfolding sync_terminal_size AreForeground
  sync_terminal_size-AreForeground pid parent_fd child_fd h k = ground arith

  handle_signal-AreForeground :
      (parent_fd child_fd pid : ℕ) (sig : SystemSignal) (h : History)
      → AreForeground pid h
      → AreForeground pid (handle_signal s parent_fd child_fd pid sig h).1
  unfolding handle_signal
  handle_signal-AreForeground parent_fd child_fd pid sigint h k =
      pass_signal-AreForeground pid sigint h k
  handle_signal-AreForeground parent_fd child_fd pid sigtstp h k =
      pass_signal-AreForeground pid sigtstp h k
  handle_signal-AreForeground parent_fd child_fd pid sigquit h k =
      pass_signal-AreForeground pid sigquit h k
  handle_signal-AreForeground parent_fd child_fd pid sigwinch h k =
      sync_terminal_size-AreForeground pid parent_fd child_fd h k
  handle_signal-AreForeground parent_fd child_fd pid (other_signal n) h k = k

  -- If each signal so far went to the group that procfs, asked directly before, gave as the foreground
  -- group of the terminal of the shell (as when none was sent), then so does each that the thread sends,
  -- whatever the system answers.
  pub handle_signals-AreForeground :
      (parent_fd child_fd pid : ℕ) (sigs : List SystemSignal) (h : History)
      → AreForeground pid h
      → AreForeground pid (handle_signals s parent_fd child_fd pid sigs h).1
  unfolding handle_signals
  handle_signals-AreForeground parent_fd child_fd pid [] h k = k
  handle_signals-AreForeground parent_fd child_fd pid (sig ∷ sigs) h k =
      then-AreForeground (handle_signal s parent_fd child_fd pid sig h).0
        (handle_signal s parent_fd child_fd pid sig h).1
        (handle_signal-AreForeground parent_fd child_fd pid sig h k)
        (λ h1 k1. handle_signals-AreForeground parent_fd child_fd pid sigs h1 k1)
    where
      then-AreForeground :
          (r : Outcome (Unit {0})) (h1 : History)
          → AreForeground pid h1
          → ((h1 : History)
              → AreForeground pid h1
              → AreForeground pid (handle_signals s parent_fd child_fd pid sigs h1).1)
          → AreForeground pid (proceed r (λ _. handle_signals s parent_fd child_fd pid sigs) h1).1
      then-AreForeground (ok a) h1 k rest = rest h1 k
      then-AreForeground (err e) h1 k rest = k
      then-AreForeground panicked h1 k rest = k
      then-AreForeground exhausted h1 k rest = k

  -- Procfs always answers, and so do the calls of the terminals' sizes.
  pub record Answers (child_fd pid : ℕ) : Type 0 where
    pub opens : (h : History) → s.on_open_process (open_process pid ∷ h) ≡ answer tt
    pub group : History → ℕ
    pub stats : (h : History) → s.on_stat_process (stat_process pid ∷ h) ≡ answer (group h)
    pub size : History → WinSize
    pub gets : (h : History) → s.on_get_size (get_size child_fd ∷ h) ≡ some (size h)
    pub sets : (h : History) → s.on_set_size h ≡ true

  abbrev delivered : SystemSignal → History → List SystemSignal
  delivered sigwinch h = sent h
  delivered sig h = sig ∷ sent h

  pass_signal-sent :
      (child_fd pid : ℕ) (sig : SystemSignal) (h : History)
      → Answers child_fd pid
      → let r = ignore (pass_signal s pid sig) h in (r.0 ≡ ok tt) × (sent r.1 ≡ sig ∷ sent h)
  unfolding pass_signal map_err sent
  pass_signal-sent child_fd pid sig h a = ground (arith, a.opens h, a.stats (open_process pid ∷ h))

  sync_terminal_size-sent :
      (parent_fd child_fd pid : ℕ) (h : History)
      → Answers child_fd pid
      → let r = sync_terminal_size s parent_fd child_fd h in (r.0 ≡ ok tt) × (sent r.1 ≡ sent h)
  unfolding sync_terminal_size sent
  sync_terminal_size-sent parent_fd child_fd pid h a =
      ground (arith, a.gets h, a.sets (set_size parent_fd (a.size h) ∷ get_size child_fd ∷ h))

  handle_signal-sent :
      (parent_fd child_fd pid : ℕ) (sig : SystemSignal) (h : History)
      → Answers child_fd pid
      → IsHandled sig
      → let r = handle_signal s parent_fd child_fd pid sig h in
        (r.0 ≡ ok tt) × (sent r.1 ≡ delivered sig h)
  unfolding handle_signal
  handle_signal-sent parent_fd child_fd pid sigint h a k = pass_signal-sent child_fd pid sigint h a
  handle_signal-sent parent_fd child_fd pid sigtstp h a k =
      pass_signal-sent child_fd pid sigtstp h a
  handle_signal-sent parent_fd child_fd pid sigquit h a k =
      pass_signal-sent child_fd pid sigquit h a
  handle_signal-sent parent_fd child_fd pid sigwinch h a k =
      sync_terminal_size-sent parent_fd child_fd pid h a
  handle_signal-sent parent_fd child_fd pid (other_signal n) h a k =
      absurd (other-unhandled n k.0 k.1)

  reversed-delivered :
      (sig : SystemSignal) (sigs : List SystemSignal) (h : History)
      → IsHandled sig
      → reversed (keyboard sigs) (delivered sig h) ≡ reversed (keyboard (sig ∷ sigs)) (sent h)
  unfolding reversed
  reversed-delivered sigint sigs h k = refl
  reversed-delivered sigtstp sigs h k = refl
  reversed-delivered sigquit sigs h k = refl
  reversed-delivered sigwinch sigs h k = refl
  reversed-delivered (other_signal n) sigs h k = absurd (other-unhandled n k.0 k.1)

  -- While procfs and the calls of the sizes answer, the thread never panics over signals that it has
  -- asked for, and each signal of the keyboard is sent on once, in the order in which they came, also
  -- if the sending fails, and no other signal is sent.
  pub handle_signals-sent :
      (parent_fd child_fd pid : ℕ) (sigs : List SystemSignal) (h : History)
      → Answers child_fd pid
      → AreHandled sigs
      → let r = handle_signals s parent_fd child_fd pid sigs h in
        (r.0 ≡ ok tt) × (sent r.1 ≡ reversed (keyboard sigs) (sent h))
  unfolding handle_signals reversed
  handle_signals-sent parent_fd child_fd pid [] h a k = (refl, refl)
  handle_signals-sent parent_fd child_fd pid (sig ∷ sigs) h a k =
      let (done, now) = handle_signal-sent parent_fd child_fd pid sig h a k.0 in
      let h1 = (handle_signal s parent_fd child_fd pid sig h).1 in
      let (rest, after) = handle_signals-sent parent_fd child_fd pid sigs h1 a k.1 in
      rw done (rest, after ∙ ap (reversed (keyboard sigs)) now ∙ reversed-delivered sig sigs h k.0)
