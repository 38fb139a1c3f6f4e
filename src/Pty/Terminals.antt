-- ===== src/Pty/Terminals.antt =====
-- llmsh/src/pty.rs: raw mode and back, the size of the shell's terminal, and what is polled.
use llmsh.Base.{
  ℕ, [], ◌∷◌, true, ok, ok-injective, ◌==◌, ==_refl, if◌then◌else◌, ◌≡◌, refl, sym, ap, ◌∙◌,
}
use mathlib.Core.Path.{subst}
use llmsh.Outside.{
  Platform, History, Answer, answer, failure, Termios, get_attributes, set_attributes,
}
use llmsh.Messages.Protocol.{attempt-ok, map_err-ok}
use llmsh.Pty.{set_raw_mode, restore_terminal}

answer-injective : {a b : Termios} → answer a ≡ answer b → a ≡ b
answer-injective h = cc

module _ (s : Platform) where
  -- The attributes of the terminals, as tcsetattr(3) says, when they were `t` at first.
  abbrev on_set : Answer (Unit {0}) → ℕ → Termios → (ℕ → Termios) → ℕ → Termios
  on_set (answer tt) fd termios t k = if k == fd then termios else t k
  on_set (failure e) fd termios t k = t k

  unfoldable pub attributes : (ℕ → Termios) → History → ℕ → Termios
  attributes t [] = t
  attributes t (set_attributes fd termios ∷ h) =
      on_set (s.on_set_attributes (set_attributes fd termios ∷ h)) fd termios (attributes t h)
  attributes t (_ ∷ h) = attributes t h

  set_raw_mode-calls :
      (fd : ℕ) (h h' : History) (original : Termios)
      → set_raw_mode s fd h ≡ (ok original, h')
      → let raw = record (s.cfmakeraw original) { isig = true } in
        (s.on_get_attributes (get_attributes fd ∷ h) ≡ answer original)
        × (s.on_set_attributes (set_attributes fd raw ∷ get_attributes fd ∷ h) ≡ answer tt)
        × (h' ≡ set_attributes fd raw ∷ get_attributes fd ∷ h)
  unfolding set_raw_mode
  set_raw_mode-calls fd h h' original e =
      let (got, has, e1) = attempt-ok (s.on_get_attributes (get_attributes fd ∷ h)) _ _ _ e in
      let (_, done, e2) = attempt-ok (s.on_set_attributes _) _ _ _ e1 in
      let same : got ≡ original = ok-injective (ap (λ r. r.0) e2) in
      let raw = λ (t : Termios). record (s.cfmakeraw t) { isig = true } in
      (
        has ∙ ap answer same,
        subst
            (λ t.
              s.on_set_attributes (set_attributes fd (raw t) ∷ get_attributes fd ∷ h) ≡ answer tt)
            same done,
        sym (ap (λ r. r.1) e2) ∙ ap (λ t. set_attributes fd (raw t) ∷ get_attributes fd ∷ h) same,
      )

  restore_terminal-calls :
      (fd : ℕ) (termios : Termios) (h h' : History)
      → restore_terminal s fd termios h ≡ (ok tt, h')
      → (s.on_set_attributes (set_attributes fd termios ∷ h) ≡ answer tt)
        × (h' ≡ set_attributes fd termios ∷ h)
  unfolding restore_terminal
  restore_terminal-calls fd termios h h' e =
      map_err-ok (s.on_set_attributes (set_attributes fd termios ∷ h)) _ _ e

  -- If the terminal's attributes are what tcgetattr reports at the call of `set_raw_mode`, and
  -- that returns, then it returned these attributes and the terminal is raw with ISIG on; and after any
  -- calls, once `restore_terminal` with what was returned succeeds, the attributes are those from before.
  pub restore_terminal-set_raw_mode :
      (t : ℕ → Termios) (fd : ℕ) (h h1 h2 h3 : History) (original : Termios)
      → s.on_get_attributes (get_attributes fd ∷ h) ≡ answer (attributes t h fd)
      → set_raw_mode s fd h ≡ (ok original, h1)
      → restore_terminal s fd original h2 ≡ (ok tt, h3)
      → (attributes t h1 fd ≡ record (s.cfmakeraw original) { isig = true })
        × (original ≡ attributes t h fd)
        × (attributes t h3 fd ≡ attributes t h fd)
  unfolding attributes
  restore_terminal-set_raw_mode t fd h h1 h2 h3 original reported e e' =
      let (got, done, after) = set_raw_mode-calls fd h h1 original e in
      let (done', after') = restore_terminal-calls fd original h2 h3 e' in
      let same : original ≡ attributes t h fd = answer-injective (sym got ∙ reported) in
      (
        ap (λ h. attributes t h fd) after ∙ rw (done, ==_refl fd) refl,
        same,
        ap (λ h. attributes t h fd) after' ∙ rw (done', ==_refl fd) same,
      )
