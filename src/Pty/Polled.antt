-- ===== src/Pty/Polled.antt =====
-- llmsh/src/pty.rs, `setup_parent_pty`: what is polled, and the size of the shell's terminal.
use llmsh.Base.{
  ℕ, List, [], ◌∷◌, Option, none, some, Bool, true, false, ok, ◌==◌, ==_refl, ◌||◌, ◌&&◌,
  if◌then◌else◌, ◌≡◌, refl, sym, ap, ◌∙◌,
}
use llmsh.Effects.{Method, proceed, pure, panic}
use llmsh.Outside.{
  Platform, History, Answer, answer, failure, WinSize, get_size, set_size, register,
  set_nonblocking, new_poll,
}
use llmsh.Messages.Protocol.{attempt-ok}
use llmsh.Pty.{parent_tok, stdin_tok, setup_parent_pty, sync_terminal_size, or_panic}

or-true : (b : Bool) → (b || true) ≡ true
or-true true = refl
or-true false = refl

abbrev on_registered : Answer (Unit {0}) → ℕ × ℕ → List (ℕ × ℕ) → List (ℕ × ℕ)
on_registered (answer tt) source sources = source ∷ sources
on_registered (failure e) source sources = sources

abbrev is_done : Answer (Unit {0}) → Bool
is_done (answer tt) = true
is_done (failure e) = false

abbrev on_sized : Bool → ℕ → WinSize → (ℕ → WinSize) → ℕ → WinSize
on_sized true fd ws sizes k = if k == fd then ws else sizes k
on_sized false fd ws sizes k = sizes k

or_panic-ok :
    {B : Type 0} (a : Option WinSize) (f : WinSize → Method History B) (h h' : History) (b : B)
    → proceed (or_panic a h).0 f (or_panic a h).1 ≡ (ok b, h')
    → (ws : WinSize) × (a ≡ some ws) × (f ws h ≡ (ok b, h'))
or_panic-ok none f h h' b e = cc
or_panic-ok (some ws) f h h' b e = (ws, refl, e)

module _ (s : Platform) where
  -- The descriptors of the newest `Poll`, with their tokens.
  unfoldable pub registered : History → List (ℕ × ℕ)
  registered [] = []
  registered (new_poll ∷ h) = []
  registered (register fd token ∷ h) =
      on_registered (s.on_register (register fd token ∷ h)) (fd, token) (registered h)
  registered (_ ∷ h) = registered h

  unfoldable pub is_nonblocking : ℕ → History → Bool
  is_nonblocking fd [] = false
  is_nonblocking fd (set_nonblocking fd' ∷ h) =
      (fd' == fd && is_done (s.on_set_nonblocking (set_nonblocking fd' ∷ h))) || is_nonblocking fd h
  is_nonblocking fd (_ ∷ h) = is_nonblocking fd h

  -- The sizes of the terminals, as ioctl(2) sets them, when they were `sizes` at first.
  unfoldable pub sizes_after : (ℕ → WinSize) → History → ℕ → WinSize
  sizes_after sizes [] = sizes
  sizes_after sizes (set_size fd ws ∷ h) =
      on_sized (s.on_set_size (set_size fd ws ∷ h)) fd ws (sizes_after sizes h)
  sizes_after sizes (_ ∷ h) = sizes_after sizes h

  sync_terminal_size-calls :
      (parent_fd child_fd : ℕ) (h h' : History)
      → sync_terminal_size s parent_fd child_fd h ≡ (ok tt, h')
      → (ws : WinSize) × (s.on_get_size (get_size child_fd ∷ h) ≡ some ws)
        × (s.on_set_size (set_size parent_fd ws ∷ get_size child_fd ∷ h) ≡ true)
        × (h' ≡ set_size parent_fd ws ∷ get_size child_fd ∷ h)
  unfolding sync_terminal_size
  sync_terminal_size-calls parent_fd child_fd h h' e =
      let (ws, got, rest) = or_panic-ok (s.on_get_size (get_size child_fd ∷ h)) _ _ _ _ e in
      let (did, after) =
        set-ok (s.on_set_size (set_size parent_fd ws ∷ get_size child_fd ∷ h)) _ _ rest in
      (ws, got, did, after)
    where
      set-ok :
          (b : Bool) (h h' : History)
          → (if b then pure tt else panic) h ≡ (ok tt, h')
          → (b ≡ true) × (h' ≡ h)
      set-ok true h h' e = (refl, sym (ap (λ r. r.1) e))
      set-ok false h h' e = cc

  -- The calls in their order, the last first.
  abbrev parent_calls : ℕ → ℕ → WinSize → History → History
  parent_calls parent_fd stdin_fd ws h =
      set_size parent_fd ws
      ∷ get_size stdin_fd
      ∷ register stdin_fd stdin_tok
      ∷ register parent_fd parent_tok
      ∷ set_nonblocking stdin_fd
      ∷ set_nonblocking parent_fd
      ∷ new_poll
      ∷ h

  record Succeeded (parent_fd stdin_fd : ℕ) (ws : WinSize) (h : History) : Type 0 where
    parent_set : s.on_set_nonblocking (set_nonblocking parent_fd ∷ new_poll ∷ h) ≡ answer tt
    stdin_set :
        s.on_set_nonblocking (set_nonblocking stdin_fd ∷ set_nonblocking parent_fd ∷ new_poll ∷ h)
        ≡ answer tt
    parent_registered :
        s.on_register (
          register parent_fd parent_tok
          ∷ set_nonblocking stdin_fd
          ∷ set_nonblocking parent_fd
          ∷ new_poll
          ∷ h)
        ≡ answer tt
    stdin_registered :
        s.on_register (
          register stdin_fd stdin_tok
          ∷ register parent_fd parent_tok
          ∷ set_nonblocking stdin_fd
          ∷ set_nonblocking parent_fd
          ∷ new_poll
          ∷ h)
        ≡ answer tt
    got :
        s.on_get_size (
          get_size stdin_fd
          ∷ register stdin_fd stdin_tok
          ∷ register parent_fd parent_tok
          ∷ set_nonblocking stdin_fd
          ∷ set_nonblocking parent_fd
          ∷ new_poll
          ∷ h)
        ≡ some ws
    is_set : s.on_set_size (parent_calls parent_fd stdin_fd ws h) ≡ true

  setup_parent_pty-calls :
      (parent_fd stdin_fd : ℕ) (h h' : History)
      → setup_parent_pty s parent_fd stdin_fd h ≡ (ok tt, h')
      → (ws : WinSize) × (h' ≡ parent_calls parent_fd stdin_fd ws h)
        × Succeeded parent_fd stdin_fd ws h
  unfolding setup_parent_pty
  setup_parent_pty-calls parent_fd stdin_fd h h' e =
      let (_, _, e1) = attempt-ok (s.on_new_poll (new_poll ∷ h)) _ _ _ e in
      let (_, parent_set, e2) = attempt-ok (s.on_set_nonblocking _) _ _ _ e1 in
      let (_, stdin_set, e3) = attempt-ok (s.on_set_nonblocking _) _ _ _ e2 in
      let (_, parent_registered, e4) = attempt-ok (s.on_register _) _ _ _ e3 in
      let (_, stdin_registered, e5) = attempt-ok (s.on_register _) _ _ _ e4 in
      let (ws, got, is_set, after) = sync_terminal_size-calls parent_fd stdin_fd _ _ e5 in
      (
        ws,
        after,
        record {
          parent_set = parent_set;
          stdin_set = stdin_set;
          parent_registered = parent_registered;
          stdin_registered = stdin_registered;
          got = got;
          is_set = is_set;
        },
      )

  -- If the size of the terminal is what ioctl reports at the call, then after `setup_parent_pty` has
  -- returned with no error exactly the shell's end and the standard input are polled, with their tokens, both are
  -- non-blocking, and the shell's terminal has the size of the user's.
  pub setup_parent_pty-polls :
      (sizes : ℕ → WinSize) (parent_fd stdin_fd : ℕ) (h h' : History)
      → ((h : History) (ws : WinSize)
          → s.on_get_size (get_size stdin_fd ∷ h) ≡ some ws
          → ws ≡ sizes_after sizes h stdin_fd)
      → setup_parent_pty s parent_fd stdin_fd h ≡ (ok tt, h')
      → (registered h' ≡ (stdin_fd, stdin_tok) ∷ (parent_fd, parent_tok) ∷ [])
        × (is_nonblocking parent_fd h' ≡ true)
        × (is_nonblocking stdin_fd h' ≡ true)
        × (sizes_after sizes h' parent_fd ≡ sizes_after sizes h stdin_fd)
  unfolding registered is_nonblocking sizes_after
  setup_parent_pty-polls sizes parent_fd stdin_fd h h' reported e =
      let (ws, after, done) = setup_parent_pty-calls parent_fd stdin_fd h h' e in
      (
        ap registered after ∙ rw (done.stdin_registered, done.parent_registered) refl,
        ap (is_nonblocking parent_fd) after ∙ rw (done.parent_set, ==_refl parent_fd) (or-true _),
        ap (is_nonblocking stdin_fd) after ∙ rw (done.stdin_set, ==_refl stdin_fd) refl,
        ap (λ h. sizes_after sizes h parent_fd) after
            ∙ rw (done.is_set, ==_refl parent_fd) (reported _ ws done.got),
      )
