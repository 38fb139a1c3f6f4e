-- ===== src/Main/Child.antt =====
-- llmsh/src/main.rs, `main` in the process that becomes the shell: its descriptors and its rc file.
use llmsh.Base.{
  ℕ, ◌<◌, List, [], ◌∷◌, ◌++◌, map, Option, none, some, true, ok, ok-injective, codes, leb, ◌≡◌,
  refl, ap, sym, ◌∙◌, arith,
}
use llmsh.Text.{Text, into_bytes}
use llmsh.Outside.{
  Outside, Platform, History, answer, write_rc, new_temp_file, list_env, stat_rc, exec, setsid,
  open_terminal,
}
use llmsh.Pty.{setup_child_pty, or_panic}
use llmsh.Pty.Descriptors.{Table, descriptors, setup_child_pty-redirects}
use llmsh.Shell.Start.{Bash, c_string, get_path, get_rcfile, inject_markers, marked_prompt}
use llmsh.Shell.Prompts.{Replaced, marked_prompt-Replaced}
use llmsh.Main.{replaced, assignment, c_strings, run_child, ran}
use llmsh.Main.Following.{expected-then, expect_answer-then, settled-then}
use llmsh.Main.RcFile.{c_string-ok, c_strings-ok, inject_markers-Injected, rc, rc_write}

module _ (s : Platform) (o : Outside) where
  -- What the process came to.
  pub record Executed (b : Bash) (name : Text) (h h' : History) : Type 0 where
    pub h_redirected : History
    pub redirected : setup_child_pty s name h ≡ (ok tt, h_redirected)
    pub temp_filename : Text
    pub vars : List (Text × Text)
    pub listed : s.on_list_env (list_env ∷ h_redirected) ≡ some vars
    pub created :
        s.on_new_temp_file (new_temp_file ∷ list_env ∷ h_redirected) ≡ answer (some temp_filename)
    pub before : History
    pub executed :
        h'
        ≡ exec b.shell_pathname
            (b.shell_pathname ∷ codes "--rcfile" ∷ temp_filename ∷ [])
            (map assignment vars)
          ∷ stat_rc
          ∷ before
    pub ps0 : Text
    pub prompt : Text
    pub ps1 : Text
    pub from_ps1 : Replaced ps1 prompt
    pub in_file :
        rc s h'
        ≡ into_bytes (codes "source " ++ get_rcfile b ++ codes "\n")
          ++ into_bytes (codes "source ~/.llmshrc\n")
          ++ into_bytes (codes "export PS0=\"" ++ b.input_end_marker ++ ps0 ++ codes "\"\n")
          ++ into_bytes (codes "export PS1=\"" ++ b.output_end_marker ++ prompt ++ codes "\"\n")
    pub same : (t : Table) → descriptors s t h' ≡ descriptors s t h_redirected

  ran-replaced : (r : Option Text) (h h' : History) → ran s o r h ≡ (replaced, h') → h' ≡ h
  ran-replaced none h h' e = sym (ap (λ r. r.1) e)
  ran-replaced (some x) h h' e = ground arith

  or_panic-ok :
      {A : Type 0} (r : Option A) (a : A) (h h' : History)
      → or_panic r h ≡ (ok a, h')
      → (r ≡ some a) × (h' ≡ h)
  or_panic-ok none a h h' e = cc
  or_panic-ok (some b) a h h' e = (ap some (ok-injective (ap (λ r. r.0) e)), sym (ap (λ r. r.1) e))

  -- The file with its first two lines.
  abbrev started : Bash → History → History
  started b h =
      write_rc (into_bytes (codes "source ~/.llmshrc\n"))
      ∷ write_rc (into_bytes (codes "source " ++ get_rcfile b ++ codes "\n"))
      ∷ new_temp_file
      ∷ h

  -- The calls that were passed, as they follow each other.
  record Steps (b : Bash) (name : Text) (h h' : History) : Type 0 where
    h1 : History
    redirected : setup_child_pty s name h ≡ (ok tt, h1)
    path : Text
    h2 : History
    is_path : get_path b h1 ≡ (ok path, h2)
    vars : List (Text × Text)
    h3 : History
    listing : or_panic (s.on_list_env (list_env ∷ h2)) (list_env ∷ h2) ≡ (ok vars, h3)
    env : List Text
    h4 : History
    is_env : c_strings (map assignment vars) h3 ≡ (ok env, h4)
    temp_rc : Option Text
    created : s.on_new_temp_file (new_temp_file ∷ h4) ≡ answer temp_rc
    h5 : History
    injected : inject_markers s o b (started b h4) ≡ (ok tt, h5)
    temp : Text
    h6 : History
    naming : or_panic temp_rc (stat_rc ∷ h5) ≡ (ok temp, h6)
    arg : Text
    h7 : History
    is_arg : c_string temp h6 ≡ (ok arg, h7)
    ended : h' ≡ exec path (path ∷ codes "--rcfile" ∷ arg ∷ []) env ∷ h7

  run_child-Steps :
      (b : Bash) (name : Text) (h h' : History)
      → run_child s o b name h ≡ (replaced, h')
      → Steps b name h h'
  unfolding run_child
  run_child-Steps b name h h' e =
      let (_, h1, redirected, e1) =
        expected-then o (setup_child_pty s name) _ h h' replaced _ refl e in
      let (path, h2, is_path, e2) = settled-then o (get_path b) _ h1 h' replaced refl e1 in
      let (vars, h3, listing, e3) =
        settled-then o (or_panic (s.on_list_env (list_env ∷ h2))) _ (list_env ∷ h2) h' replaced refl
          e2 in
      let (env, h4, is_env, e4) =
        settled-then o (c_strings (map assignment vars)) _ h3 h' replaced refl e3 in
      let (temp_rc, created, e5) =
        expect_answer-then o _ (new_temp_file ∷ h4) h' replaced _
          (s.on_new_temp_file (new_temp_file ∷ h4)) refl e4 in
      let (_, h5, injected, e6) =
        settled-then o (inject_markers s o b) _ (started b h4) h' replaced refl e5 in
      let (_, _, e7) =
        expect_answer-then o _ (stat_rc ∷ h5) h' replaced _ (s.on_stat_rc (stat_rc ∷ h5)) refl e6 in
      let (temp, h6, naming, e8) =
        settled-then o (or_panic temp_rc) _ (stat_rc ∷ h5) h' replaced refl e7 in
      let (arg, h7, is_arg, e9) = settled-then o (c_string temp) _ h6 h' replaced refl e8 in
      record {
        h1 = h1;
        redirected = redirected;
        path = path;
        h2 = h2;
        is_path = is_path;
        vars = vars;
        h3 = h3;
        listing = listing;
        env = env;
        h4 = h4;
        is_env = is_env;
        temp_rc = temp_rc;
        created = created;
        h5 = h5;
        injected = injected;
        temp = temp;
        h6 = h6;
        naming = naming;
        arg = arg;
        h7 = h7;
        is_arg = is_arg;
        ended =
            ran-replaced (s.on_exec (exec path (path ∷ codes "--rcfile" ∷ arg ∷ []) env ∷ h7))
              (exec path (path ∷ codes "--rcfile" ∷ arg ∷ []) env ∷ h7) h' e9;
      }

  Executed-Steps :
      (b : Bash) (name : Text) (h h' : History)
      → ((h : History) → s.on_write_rc h ≡ answer tt)
      → Steps b name h h'
      → Executed b name h h'
  unfolding get_path rc descriptors
  Executed-Steps b name h h' writes r =
      let (same_path, at_h2) = c_string-ok b.shell_pathname r.path r.h1 r.h2 r.is_path in
      let (is_vars, at_h3) =
        or_panic-ok (s.on_list_env (list_env ∷ r.h2)) r.vars (list_env ∷ r.h2) r.h3 r.listing in
      let (same_env, after_env) = c_strings-ok (map assignment r.vars) r.env r.h3 r.h4 r.is_env in
      let at_h4 : r.h4 ≡ list_env ∷ r.h1 =
        after_env ∙ at_h3 ∙ ap (λ (h : History). list_env ∷ h) at_h2 in
      let (is_temp, at_h6) = or_panic-ok r.temp_rc r.temp (stat_rc ∷ r.h5) r.h6 r.naming in
      let (same_arg, after_arg) = c_string-ok r.temp r.arg r.h6 r.h7 r.is_arg in
      let at_h7 : r.h7 ≡ stat_rc ∷ r.h5 = after_arg ∙ at_h6 in
      let injected : (inject_markers s o b (started b r.h4)).1 ≡ r.h5 = ap (λ x. x.1) r.injected in
      let in_rc = inject_markers-Injected s o b (λ _. none) (started b r.h4) writes in
      let executed : h'
          ≡ exec b.shell_pathname (b.shell_pathname ∷ codes "--rcfile" ∷ r.temp ∷ [])
              (map assignment r.vars)
            ∷ stat_rc
            ∷ r.h5 =
        r.ended ∙ (λ i.
          exec (same_path i) (same_path i ∷ codes "--rcfile" ∷ same_arg i ∷ []) (same_env i)
          ∷ at_h7 i) in
      record {
        h_redirected = r.h1;
        redirected = r.redirected;
        temp_filename = r.temp;
        vars = r.vars;
        listed = ap (λ h. s.on_list_env (list_env ∷ h)) (sym at_h2) ∙ is_vars;
        created =
            ap (λ h. s.on_new_temp_file (new_temp_file ∷ h)) (sym at_h4)
            ∙ r.created
            ∙ ap (λ x. answer x) is_temp;
        before = r.h5;
        executed = executed;
        ps0 = in_rc.ps0;
        ps1 = in_rc.ps1;
        prompt = marked_prompt in_rc.ps1;
        from_ps1 = marked_prompt-Replaced in_rc.ps1;
        in_file =
            ap (rc s) executed
            ∙ ap (rc s) (sym injected)
            ∙ in_rc.in_file _ (rc_write s writes _ _ (rc_write s writes _ _ refl));
        same = λ t.
            ap (descriptors s t) executed
            ∙ ap (descriptors s t) (sym injected)
            ∙ (inject_markers-Injected s o b t (started b r.h4) writes).same
            ∙ ap (descriptors s t) at_h4;
      }

  -- If a process becomes the shell, with every write to its rc file done and its terminal opened with a
  -- descriptor above 2, then it is the shell at the path that was asked for, its `--rcfile` is the path of
  -- the temporary file that was created, and its environment the one that was there; this file sources the shell's own rc file and `~/.llmshrc` before it sets the
  -- two prompts, each behind its marker; and descriptors 0, 1 and 2 are the shell's terminal.
  pub run_child-executes :
      (b : Bash) (name : Text) (h h' : History) (t : Table) (fd k : ℕ)
      → ((h : History) → s.on_write_rc h ≡ answer tt)
      → s.on_open (open_terminal name ∷ setsid ∷ h) ≡ answer fd
      → 2 < fd
      → k < 3
      → run_child s o b name h ≡ (replaced, h')
      → Executed b name h h' × (descriptors s t h' k ≡ some name)
  run_child-executes b name h h' t fd k writes opened above standard e =
      let x = Executed-Steps b name h h' writes (run_child-Steps b name h h' e) in
      let at : leb k 2 ≡ true = omega_leb k standard in
      (
        x,
        ap (λ f. f k) (x.same t)
            ∙ setup_child_pty-redirects s name h x.h_redirected t fd k opened above x.redirected
            ∙ rw at refl,
      )
    where
      omega_leb : (k : ℕ) → k < 3 → leb k 2 ≡ true
      omega_leb k lt = ground arith
