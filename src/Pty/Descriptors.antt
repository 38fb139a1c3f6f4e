-- ===== src/Pty/Descriptors.antt =====
-- llmsh/src/pty.rs, `setup_child_pty`: where the shell's descriptors lead.
use llmsh.Base.{
  ℕ, ◌<◌, [], ◌∷◌, Option, none, some, ok, ◌==◌, leb, if◌then◌else◌, ◌≡◌, refl, sym, ap, ◌∙◌, arith,
}
use llmsh.Text.{Text}
use llmsh.Outside.{Platform, History, Answer, answer, failure, setsid, open_terminal, dup2, close}
use llmsh.Messages.Protocol.{attempt-ok, map_err-ok}
use llmsh.Pty.{setup_child_pty}

answer-injective : {a b : ℕ} → answer a ≡ answer b → a ≡ b
answer-injective h = cc

-- The terminal that a descriptor leads to, if it is open.
abbrev pub Table : Type 0
Table = ℕ → Option Text

abbrev pub update : Table → ℕ → Option Text → Table
update t fd name k = if k == fd then name else t k

abbrev pub on_opened : Answer ℕ → Text → Table → Table
on_opened (answer fd) name t = update t fd (some name)
on_opened (failure e) name t = t

abbrev pub on_done : Answer (Unit {0}) → ℕ → Option Text → Table → Table
on_done (answer tt) fd name t = update t fd name
on_done (failure e) fd name t = t

module _ (s : Platform) where
  -- What the system does to the descriptors `t` in a history, as open(2), dup(2) and close(2) say.
  unfoldable pub descriptors : Table → History → Table
  descriptors t [] = t
  descriptors t (open_terminal name ∷ h) =
      on_opened (s.on_open (open_terminal name ∷ h)) name (descriptors t h)
  descriptors t (dup2 old new ∷ h) =
      on_done (s.on_dup2 (dup2 old new ∷ h)) new (descriptors t h old) (descriptors t h)
  descriptors t (close fd ∷ h) = on_done (s.on_close (close fd ∷ h)) fd none (descriptors t h)
  descriptors t (_ ∷ h) = descriptors t h

  -- The calls in their order, the last first.
  abbrev child_calls : Text → ℕ → History → History
  child_calls name fd h =
      close fd ∷ dup2 fd 2 ∷ dup2 fd 1 ∷ dup2 fd 0 ∷ open_terminal name ∷ setsid ∷ h

  record Succeeded (name : Text) (fd : ℕ) (h : History) : Type 0 where
    opened : s.on_open (open_terminal name ∷ setsid ∷ h) ≡ answer fd
    to_stdin : s.on_dup2 (dup2 fd 0 ∷ open_terminal name ∷ setsid ∷ h) ≡ answer tt
    to_stdout : s.on_dup2 (dup2 fd 1 ∷ dup2 fd 0 ∷ open_terminal name ∷ setsid ∷ h) ≡ answer tt
    to_stderr :
        s.on_dup2 (dup2 fd 2 ∷ dup2 fd 1 ∷ dup2 fd 0 ∷ open_terminal name ∷ setsid ∷ h) ≡ answer tt
    closed : s.on_close (child_calls name fd h) ≡ answer tt

  setup_child_pty-calls :
      (name : Text) (h h' : History)
      → setup_child_pty s name h ≡ (ok tt, h')
      → (fd : ℕ) × (h' ≡ child_calls name fd h) × Succeeded name fd h
  unfolding setup_child_pty
  setup_child_pty-calls name h h' e =
      let (_, _, e1) = attempt-ok (s.on_setsid (setsid ∷ h)) _ _ _ e in
      let (fd, opened, e2) = attempt-ok (s.on_open _) _ _ _ e1 in
      let (_, to_stdin, e3) = attempt-ok (s.on_dup2 _) _ _ _ e2 in
      let (_, to_stdout, e4) = attempt-ok (s.on_dup2 _) _ _ _ e3 in
      let (_, to_stderr, e5) = attempt-ok (s.on_dup2 _) _ _ _ e4 in
      let (closed, after) = map_err-ok (s.on_close _) _ _ e5 in
      (
        fd,
        after,
        record {
          opened = opened;
          to_stdin = to_stdin;
          to_stdout = to_stdout;
          to_stderr = to_stderr;
          closed = closed;
        },
      )

  -- The table behind all the calls.
  final : Text → ℕ → Table → Table
  final name fd t =
      let t1 = update t fd (some name) in
      let t2 = update t1 0 (t1 fd) in
      let t3 = update t2 1 (t2 fd) in let t4 = update t3 2 (t3 fd) in update t4 fd none

  descriptors-final :
      (name : Text) (fd : ℕ) (h : History) (t : Table)
      → Succeeded name fd h
      → descriptors t (child_calls name fd h) ≡ final name fd (descriptors t h)
  unfolding descriptors final
  descriptors-final name fd h t done =
      rw (done.closed, done.to_stderr, done.to_stdout, done.to_stdin, done.opened) refl

  final-cases :
      (name : Text) (fd : ℕ) (t : Table) (k : ℕ)
      → 2 < fd
      → final name fd t k ≡ (if leb k 2 then some name else if k == fd then none else t k)
  unfolding final
  final-cases name fd t k lt = ground arith

  -- If the terminal is opened with a descriptor that is none of 0, 1 and 2 (the Rust runtime opens these
  -- at the start of a program), then after `setup_child_pty` has returned with no error these three lead to
  -- the shell's terminal, that descriptor is closed, and every other is as it was.
  pub setup_child_pty-redirects :
      (name : Text) (h h' : History) (t : Table) (fd k : ℕ)
      → s.on_open (open_terminal name ∷ setsid ∷ h) ≡ answer fd
      → 2 < fd
      → setup_child_pty s name h ≡ (ok tt, h')
      → descriptors t h' k
        ≡ (if leb k 2 then some name else if k == fd then none else descriptors t h k)
  setup_child_pty-redirects name h h' t fd k opened lt e =
      let (fd', after, done) = setup_child_pty-calls name h h' e in
      let same = answer-injective (sym done.opened ∙ opened) in
      ap (λ h. descriptors t h k) after
      ∙ ap (λ f. f k) (descriptors-final name fd' h t done)
      ∙ ap (λ fd. final name fd (descriptors t h) k) same
      ∙ final-cases name fd (descriptors t h) k lt
