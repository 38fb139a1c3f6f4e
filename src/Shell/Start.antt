-- ===== src/Shell/Start.antt =====
-- shell.rs: which shell is started, with which markers, and what is written to its rc file.
use llmsh.Base.{
  ℕ, List, [], ◌∷◌, ◌++◌, ◌||◌, Option, none, some, Bytes, codes, Outcome, ok, err, panicked,
  exhausted, failed, bytes_eq, ◌==◌, if◌then◌else◌,
}
use llmsh.Text.{Text, into_bytes, from_utf8_lossy}
use llmsh.Effects.{Method, ◌>>=◌, ◌>>◌, pure, raise, panic}
use llmsh.Outside.{
  Outside, Platform, History, Answer, answer, failure, CommandOutput, read_env, new_uuid,
  run_command, write_rc,
}
use llmsh.Messages.{call, map_err}
use llmsh.Shell.Bash.{new}
use llmsh.Shell.Proxy.{ShellProxy}
use llmsh.Shell.Sessions.{create_proxy}
use llmsh.Shell.Strings.{rfind, replace_last}

-- '/'
abbrev slash : ℕ
slash = 47

abbrev lengthen : ℕ → List Text → List Text
lengthen c [] = (c ∷ []) ∷ []
lengthen c (name ∷ names) = (c ∷ name) ∷ names

-- The components of a path between its slashes.
unfoldable pub components : Text → List Text
components [] = [] ∷ []
components (c ∷ path) =
    let names = components path in if c == slash then [] ∷ names else lengthen c names

-- The last component that is not empty and no `.`.
unfoldable pub last_component : List Text → Option Text
unfolding bytes_eq
last_component [] = none
last_component (name ∷ names) = elim (last_component names) [
  | some last ↦ some last
  | none ↦ if bytes_eq name [] || bytes_eq name (codes ".") then none else some name
]

-- `Path::file_name`
unfoldable pub file_name : Text → Option Text
unfolding components last_component
file_name path = elim (last_component (components path)) [
  | some name ↦ if bytes_eq name (codes "..") then none else some name
  | none ↦ none
]

pub record Bash : Type 0 where
  pub shell_name : Text
  pub shell_pathname : Text
  pub input_end_marker : Text
  pub output_end_marker : Text

-- The markers' bytes.
abbrev pub input_marker : Bash → Bytes
input_marker b = into_bytes b.input_end_marker

abbrev pub output_marker : Bash → Bytes
output_marker b = into_bytes b.output_end_marker

-- `ShellCreator::create_proxy`
unfoldable pub create_bash_proxy : Bash → History → ℕ → Outcome ShellProxy
unfolding create_proxy
create_bash_proxy b history session_id = elim (new (input_marker b) (output_marker b)) [
  | ok output_parser ↦ ok (create_proxy history session_id output_parser)
  | err e ↦ err e
  | panicked ↦ panicked
  | exhausted ↦ exhausted
]

-- "🐚"
abbrev pub crab : Text
crab = 0x1F41A ∷ []

-- "\$"
abbrev pub dollar : Text
dollar = codes "\\$"

-- `CString::new(s).unwrap()`: no character may be NUL.
unfoldable pub c_string : {S : Type 0} → Text → Method S Text
c_string [] = pure []
c_string (c ∷ s) = if c == 0 then panic else (c_string s >>= λ rest. pure (c ∷ rest))

unfoldable pub get_path : {S : Type 0} → Bash → Method S Text
unfolding c_string
get_path b = c_string b.shell_pathname

unfoldable pub get_rcfile : Bash → Text
get_rcfile b = codes "~/." ++ b.shell_name ++ codes "rc"

-- The prompt, with the shell's sign in place of the last `\$`, or at its end.
unfoldable pub marked_prompt : Text → Text
unfolding rfind replace_last
marked_prompt orig_ps1 = elim (rfind dollar orig_ps1) [
  | some _ ↦ replace_last orig_ps1 dollar crab
  | none ↦ orig_ps1 ++ crab
]

module _ (s : Platform) where
  open s use {on_new_uuid, on_run_command, on_write_rc}

  unfoldable pub new_bash : Text → Text → Method History Bash
  new_bash shell_pathname shell_name = do
    input_id ← call new_uuid on_new_uuid
    output_id ← call new_uuid on_new_uuid
    pure (record {
      shell_name = shell_name;
      shell_pathname = shell_pathname;
      input_end_marker = input_id ++ codes "\n";
      output_end_marker = output_id ++ codes "\n";
    })

  -- What is written is not waited for, nor is its result.
  abbrev write_all : Text → Method History (Unit {0})
  write_all text = do _ ← call (write_rc (into_bytes text)) on_write_rc; pure tt

  abbrev on_echo : Answer CommandOutput → Text
  on_echo (answer output) = if output.is_success then from_utf8_lossy output.stdout else []
  on_echo (failure e) = []

  abbrev echo_variable : Text → Text → Method History Text
  echo_variable shell_pathname variable_name = do
    echo_output ←
        call
          (run_command shell_pathname
            (codes "-ic" ∷ (codes "printf '%s' \"$" ++ variable_name ++ codes "\"") ∷ []))
          on_run_command
    pure (on_echo echo_output)

  module _ (o : Outside) where
    open o use {on_read_env}

    abbrev pub on_variable : Text → Text → Answer Text → Method History Text
    on_variable shell_pathname variable_name (answer value) = pure value
    on_variable shell_pathname variable_name (failure e) =
        echo_variable shell_pathname variable_name

    unfoldable pub get_shell_variable : Text → Text → Method History Text
    get_shell_variable shell_pathname variable_name = do
      env_res ← call (read_env variable_name) on_read_env
      on_variable shell_pathname variable_name env_res

    abbrev pub named_shell : Option Text → Method History Text
    named_shell (some name) = pure name
    named_shell none = do
      shell ← call (read_env (codes "SHELL")) on_read_env
      map_err shell (codes "$SHELL is not set")

    -- A shell of any other name than `csh` is taken for a bash.
    abbrev pub shell_of : Text → Option Text → Method History Bash
    shell_of shell_pathname none = raise (failed (codes "the SHELL path terminates in '..'"))
    shell_of shell_pathname (some name) =
        if bytes_eq name (codes "csh") then panic else new_bash shell_pathname name

    unfoldable pub get_shell : Option Text → Method History Bash
    unfolding file_name new_bash map_err bytes_eq
    get_shell shell_name = do
      shell_pathname ← named_shell shell_name
      shell_of shell_pathname (file_name shell_pathname)

    unfoldable pub inject_markers : Bash → Method History (Unit {0})
    unfolding get_shell_variable marked_prompt into_bytes
    inject_markers b = do
      orig_ps0 ← get_shell_variable b.shell_pathname (codes "PS0")
      orig_ps1 ← get_shell_variable b.shell_pathname (codes "PS1")
      write_all (codes "export PS0=\"" ++ b.input_end_marker ++ orig_ps0 ++ codes "\"\n")
      write_all
          (codes "export PS1=\"" ++ b.output_end_marker ++ marked_prompt orig_ps1 ++ codes "\"\n")
