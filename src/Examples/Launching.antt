-- ===== src/Examples/Launching.antt =====
-- The start of the program at concrete inputs: a platform that works, a bash, and a shell that ends at once.
use llmsh.Base.{
  ℕ, [], ◌∷◌, ◌++◌, some, none, true, false, codes, ok, ◌==◌, if◌then◌else◌, ◌≡◌, refl, sym, ap,
  ◌∙◌, arith, bytes_eq,
}
use llmsh.Text.{Text}
use llmsh.Outside.{
  Outside, Platform, History, answer, failure, Termios, WinSize, parent, set_attributes,
  get_attributes, new_uuid, get_size, set_size, pty_bytes, other_status, setup_success, sigint,
  sigwinch,
}
use llmsh.Pty.{
  setup_child_pty, setup_parent_pty, set_raw_mode, restore_terminal, handle_signals, parent_tok,
  stdin_tok,
}
use llmsh.Pty.Descriptors.{Table, descriptors, setup_child_pty-redirects}
use llmsh.Pty.Terminals.{attributes, restore_terminal-set_raw_mode}
use llmsh.Pty.Polled.{registered, is_nonblocking, sizes_after, setup_parent_pty-polls}
use llmsh.Shell.Flags.{some-injective}
use llmsh.Shell.Strings.{rfind, replace_last}
use llmsh.Pty.Signals.{
  reversed, AreForeground, sent, handle_signals-AreForeground, handle_signals-sent,
}
use llmsh.Shell.Start.{Bash, marked_prompt, get_shell}
use llmsh.Shell.Launched.{IsUuid}
use llmsh.Shell.Prompts.{Replaced, marked_prompt-Replaced}
use llmsh.Examples.Witnesses.{outside}

abbrev pub cooked : Termios
cooked = record { isig = true; others = 5 }

-- The attributes of the standard input.
abbrev pub current : History → Termios
current [] = cooked
current (set_attributes fd termios ∷ h) = if 0 == fd then termios else current h
current (_ ∷ h) = current h

abbrev pub size : WinSize
size = record { ws_row = 24; ws_col = 80; ws_xpixel = 0; ws_ypixel = 0 }

-- The size of the terminal of the standard input.
abbrev pub current_size : History → WinSize
current_size [] = size
current_size (set_size fd ws ∷ h) = if 0 == fd then ws else current_size h
current_size (_ ∷ h) = current_size h

abbrev pub platform : Platform
platform = record {
  on_openpt = λ h. answer 3;
  on_grantpt = λ h. answer tt;
  on_unlockpt = λ h. answer tt;
  on_ptsname = λ h. answer (codes "/dev/pts/1");
  on_setsid = λ h. answer tt;
  on_open = λ h. answer 4;
  on_dup2 = λ h. answer tt;
  on_close = λ h. answer tt;
  on_new_poll = λ h. answer tt;
  on_set_nonblocking = λ h. answer tt;
  on_register = λ h. answer tt;
  on_get_size = λ h. some (current_size h);
  on_set_size = λ h. true;
  on_get_attributes = λ h. answer (current h);
  on_set_attributes = λ h. answer tt;
  cfmakeraw = λ t. record { isig = false; others = 0 };
  on_watch_signals = λ h. answer tt;
  on_spawn_thread = λ h. some tt;
  on_open_process = λ h. answer tt;
  on_stat_process = λ h. answer 77;
  on_killpg = λ h. answer tt;
  on_new_uuid = λ h. codes "0123456789abcdef0123456789abcdef0123";
  on_run_command = λ h. failure [];
  on_write_rc = λ h. answer tt;
  on_touch = λ h. answer tt;
  on_fork = λ h. answer (parent 50);
  on_list_env = λ h. some ((codes "USER", codes "me") ∷ []);
  on_new_temp_file = λ h. answer (some (codes "/tmp/rc"));
  on_stat_rc = λ h. answer tt;
  on_exec = λ h. none;
}

abbrev pub table : Table
table k = none

abbrev pub name : Text
name = codes "/dev/pts/1"

setup_child_pty-redirects_example :
    descriptors platform table (setup_child_pty platform name []).1 1 ≡ some name
unfolding setup_child_pty
setup_child_pty-redirects_example =
    setup_child_pty-redirects platform name [] _ table 4 1 refl (omega arith) refl

unfoldable pub at_first : ℕ → Termios
at_first fd = cooked

pub reports : (h : History) → attributes platform at_first h 0 ≡ current h
unfolding attributes at_first
reports [] = refl
reports (set_attributes fd termios ∷ h) = ap (λ t. if 0 == fd then termios else t) (reports h)
reports (_ ∷ h) = reports h

sized : (h : History) → current_size h ≡ sizes_after platform (λ fd. size) h 0
unfolding sizes_after
sized [] = refl
sized (set_size fd ws ∷ h) = ap (λ t. if 0 == fd then ws else t) (sized h)
sized (_ ∷ h) = sized h

setup_parent_pty-polls_example :
    let h' = (setup_parent_pty platform 3 0 []).1 in
    (registered platform h' ≡ (0, stdin_tok) ∷ (3, parent_tok) ∷ [])
    × (is_nonblocking platform 3 h' ≡ true)
    × (is_nonblocking platform 0 h' ≡ true)
    × (sizes_after platform (λ fd. size) h' 3 ≡ size)
unfolding setup_parent_pty sizes_after
setup_parent_pty-polls_example =
    setup_parent_pty-polls platform (λ fd. size) 3 0 [] (setup_parent_pty platform 3 0 []).1
      (λ h ws e. some-injective (sym e) ∙ sized h) refl

restore_terminal-set_raw_mode_example :
    (attributes platform at_first
        (set_attributes 0 (record { isig = true; others = 0 }) ∷ get_attributes 0 ∷ [])
        0
      ≡ record { isig = true; others = 0 })
    × (cooked ≡ cooked)
    × (attributes platform at_first (set_attributes 0 cooked ∷ []) 0 ≡ cooked)
unfolding set_raw_mode restore_terminal attributes at_first
restore_terminal-set_raw_mode_example =
    restore_terminal-set_raw_mode platform at_first 0 [] _ [] _ cooked refl refl refl

handle_signals-AreForeground_example :
    AreForeground platform 50 (handle_signals platform 3 0 50 (sigint ∷ sigwinch ∷ []) []).1
unfolding AreForeground
handle_signals-AreForeground_example =
    handle_signals-AreForeground platform 3 0 50 (sigint ∷ sigwinch ∷ []) [] tt

handle_signals-sent_example :
    let r = handle_signals platform 3 0 50 (sigint ∷ sigwinch ∷ []) [] in
    (r.0 ≡ ok tt) × (sent r.1 ≡ sigint ∷ [])
unfolding reversed sent
handle_signals-sent_example =
    handle_signals-sent platform 3 0 50 (sigint ∷ sigwinch ∷ []) []
      (record {
        opens = λ h. refl;
        group = λ h. 77;
        stats = λ h. refl;
        size = λ h. current_size (get_size 0 ∷ h);
        gets = λ h. refl;
        sets = λ h. refl;
      })
      ((0, refl), ((3, refl), tt))

marked_prompt-Replaced_example :
    Replaced (codes "me\\$ ") (codes "me" ++ (0x1F41A ∷ []) ++ codes " ")
unfolding marked_prompt rfind replace_last bytes_eq
marked_prompt-Replaced_example = marked_prompt-Replaced (codes "me\\$ ")

-- hermitd sets the session up, and the shell has ended when its output is read.
abbrev pub launching : Outside
launching = record outside {
  on_read_pty = λ h. pty_bytes [];
  on_wait = λ h. other_status;
  to_json = λ r. answer (codes "u");
  from_json = λ t. answer (setup_success 5 (codes "hi"));
}

abbrev pub chosen : Bash
chosen = record {
  shell_name = codes "bash";
  shell_pathname = codes "/bin/bash";
  input_end_marker = codes "0123456789abcdef0123456789abcdef0123\n";
  output_end_marker = codes "0123456789abcdef0123456789abcdef0123\n";
}

pub is_chosen :
    get_shell platform launching (some (codes "/bin/bash")) []
    ≡ (ok chosen, new_uuid ∷ new_uuid ∷ [])
unfolding get_shell
is_chosen = refl

pub are_uuids : (h : History) → IsUuid (platform.on_new_uuid h)
are_uuids h = ground arith
