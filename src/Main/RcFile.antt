-- ===== src/Main/RcFile.antt =====
-- llmsh/src/main.rs and shell.rs: the strings for `exec`, and what the rc file holds after `inject_markers`.
use llmsh.Base.{
  List, [], ◌∷◌, ◌++◌, Bool-cases, inl, inr, ok, ok-injective, codes, ◌==◌, ◌≡◌, refl, ap, sym, ◌∙◌,
  Bytes,
}
use mathlib.Core.Path.{ap₂}
use llmsh.Text.{Text, into_bytes}
use llmsh.Effects.{bind-ok}
use llmsh.Outside.{
  Outside, Platform, History, Answer, answer, failure, write_rc, new_temp_file, read_env,
}
use llmsh.Pty.Descriptors.{Table, descriptors}
use llmsh.Shell.Start.{
  Bash, c_string, on_variable, get_shell_variable, inject_markers, marked_prompt,
}
use llmsh.Main.{c_strings}

pub c_string-ok :
    {S : Type 0} (text t : Text) (h h' : S) → c_string text h ≡ (ok t, h') → (t ≡ text) × (h' ≡ h)
unfolding c_string
c_string-ok [] t h h' e = (sym (ok-injective (ap (λ r. r.0) e)), sym (ap (λ r. r.1) e))
c_string-ok (c ∷ text) t h h' e = elim (Bool-cases (c == 0)) [
  | inl nul ↦ let e' = rw nul at e in cc
  | inr other ↦
      let (rest, h1, is, e1) = bind-ok (c_string text) _ h (rw other at e) in
      let (same, after) = c_string-ok text rest h h1 is in
      (sym (ok-injective (ap (λ r. r.0) e1)) ∙ ap (λ t. c ∷ t) same, sym (ap (λ r. r.1) e1) ∙ after)
]

pub c_strings-ok :
    (texts ts : List Text) (h h' : History)
    → c_strings texts h ≡ (ok ts, h')
    → (ts ≡ texts) × (h' ≡ h)
unfolding c_strings
c_strings-ok [] ts h h' e = (sym (ok-injective (ap (λ r. r.0) e)), sym (ap (λ r. r.1) e))
c_strings-ok (text ∷ texts) ts h h' e =
    let (first, h1, is, e1) = bind-ok (c_string text) _ h e in
    let (rest, h2, are, e2) = bind-ok (c_strings texts) _ h1 e1 in
    let (same, after) = c_string-ok text first h h1 is in
    let (sames, afters) = c_strings-ok texts rest h1 h2 are in
    (
      sym (ok-injective (ap (λ r. r.0) e2)) ∙ ap₂ ◌∷◌ same sames,
      sym (ap (λ r. r.1) e2) ∙ afters ∙ after,
    )

module _ (s : Platform) where
  abbrev on_written : Answer (Unit {0}) → Bytes → Bytes → Bytes
  on_written (answer tt) bytes file = file ++ bytes
  on_written (failure e) bytes file = file

  -- What the newest temporary file holds.
  unfoldable pub rc : History → Bytes
  rc [] = []
  rc (new_temp_file ∷ h) = []
  rc (write_rc bytes ∷ h) = on_written (s.on_write_rc (write_rc bytes ∷ h)) bytes (rc h)
  rc (_ ∷ h) = rc h

  pub rc_write :
      ((h : History) → s.on_write_rc h ≡ answer tt)
      → (bytes : Bytes) (h : History) {file : Bytes} → rc h ≡ file
      → rc (write_rc bytes ∷ h) ≡ file ++ bytes
  unfolding rc
  rc_write writes bytes h e = rw (writes (write_rc bytes ∷ h)) (ap (λ t. t ++ bytes) e)

  module _ (o : Outside) where
    on_variable-ok :
        (path name : Text) (t : Table) (a : Answer Text) (h : History)
        → (value : Text) × ((on_variable s o path name a h).0 ≡ ok value)
          × (rc (on_variable s o path name a h).1 ≡ rc h)
          × (descriptors s t (on_variable s o path name a h).1 ≡ descriptors s t h)
    unfolding rc descriptors
    on_variable-ok path name t (answer value) h = (value, refl, refl, refl)
    on_variable-ok path name t (failure e) h = (_, refl, refl, refl)

    get_shell_variable-ok :
        (path name : Text) (t : Table) (h : History)
        → (value : Text) × ((get_shell_variable s o path name h).0 ≡ ok value)
          × (rc (get_shell_variable s o path name h).1 ≡ rc h)
          × (descriptors s t (get_shell_variable s o path name h).1 ≡ descriptors s t h)
    unfolding get_shell_variable rc descriptors
    get_shell_variable-ok path name t h =
        on_variable-ok path name t (o.on_read_env (read_env name ∷ h)) (read_env name ∷ h)

    -- The prompts that are written, and the text of the file behind what was there.
    pub record Injected (b : Bash) (t : Table) (h : History) : Type 0 where
      pub ps0 : Text
      pub ps1 : Text
      pub is_ok : (inject_markers s o b h).0 ≡ ok tt
      pub in_file :
          (file : Bytes)
          → rc h ≡ file
          → rc (inject_markers s o b h).1
            ≡ file
              ++ into_bytes (codes "export PS0=\"" ++ b.input_end_marker ++ ps0 ++ codes "\"\n")
              ++ into_bytes (
                  codes "export PS1=\"" ++ b.output_end_marker ++ marked_prompt ps1 ++ codes "\"\n")
      pub same : descriptors s t (inject_markers s o b h).1 ≡ descriptors s t h

    pub inject_markers-Injected :
        (b : Bash) (t : Table) (h : History)
        → ((h : History) → s.on_write_rc h ≡ answer tt)
        → Injected b t h
    unfolding inject_markers rc descriptors
    inject_markers-Injected b t h writes =
        let (ps0, got0, file0, same0) = get_shell_variable-ok b.shell_pathname (codes "PS0") t h in
        let h0 = (get_shell_variable s o b.shell_pathname (codes "PS0") h).1 in
        let (ps1, got1, file1, same1) = get_shell_variable-ok b.shell_pathname (codes "PS1") t h0 in
        record {
          ps0 = ps0;
          ps1 = ps1;
          is_ok = rw (got0, got1) refl;
          in_file = λ file e.
              rw (got0, got1) (rc_write writes _ _ (rc_write writes _ _ (file1 ∙ file0 ∙ e)));
          same = rw (got0, got1) (same1 ∙ same0);
        }
