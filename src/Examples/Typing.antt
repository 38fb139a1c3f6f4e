-- ===== src/Examples/Typing.antt =====
-- What is typed at a prompt, at a concrete input.
use llmsh.Base.{[], ◌∷◌, ◌++◌, Bool, Bytes, codes, ok, ◌≡◌, ◌≢◌, ◌⊎◌, refl, sym, ap, ◌∙◌, bytes_eq}
use llmsh.Outside.{Outside, Effect, pty_bytes}
use llmsh.Messages.{save_context, generate_command}
use llmsh.Shell.Input.{hermit_input, idle}
use llmsh.Shell.Bash.{bash_state_eq, make_string_id, shell_prompt_input_start}
use llmsh.Shell.Flags.{in_input}
use llmsh.Shell.Dialogue.{IsInteractive}
use llmsh.Shell.Output.{IsCoupled}
use llmsh.Shell.Proxy.{ShellProxy, handle_input, handle_output}
use llmsh.Shell.Colons.{Opens}
use llmsh.Shell.Passing.{IsPassed, IsDialogue, handle_input-Passes}
use llmsh.Shell.Prompted.{ReadsPrompt, handle_input-prompted}
use llmsh.Shell.Relays.{IsRelayed}
use llmsh.MainLoop.{safe_handle_terminal}
use llmsh.MainLoop.Relayed.{safe_handle_terminal-IsRelayed, safe_handle_terminal-IsOurs}
use llmsh.Shell.InSession.{IsOurs}
use llmsh.Base.{List, All}
use llmsh.Examples.Witnesses.{in_marker, out_marker, markers, outside}
use llmsh.Examples.Prompts.{hi, waiting, waiting_bash, prompted}

abbrev behind : Bytes
behind = codes "i<on>me" ++ shell_prompt_input_start

behind_is : b'h' ∷ behind ≡ hi
unfolding make_string_id
behind_is = refl

-- The shell ends an output and prints a prompt; "ls :" is typed.
abbrev prompting : Outside
prompting = record outside { on_read_pty = λ h. pty_bytes (b'h' ∷ behind) }

prompting-IsInteractive : IsInteractive prompting
unfolding save_context generate_command bytes_eq
prompting-IsInteractive = record {
  works = record {
    writes = λ h. refl;
    saves = λ session_id context_type context h. refl;
    reads = λ h e r. cc;
  };
  stdin = λ h. (_, refl);
  lines = λ h. (_, refl);
  generates = λ session_id prompt h. (_, refl);
}

abbrev pub fresh : ShellProxy
fresh = record {
  history = [];
  session_id = 7;
  input_parser = idle;
  output_parser = waiting.0;
  output_aggregation = [];
}

pub idle-ne-hermit_input : idle ≢ hermit_input
idle-ne-hermit_input e = cc

abbrev pub fresh_IsCoupled : IsCoupled in_marker out_marker fresh
fresh_IsCoupled = (
  waiting_bash,
  (
    (record { prompt = sym (ap in_input waiting.4); at_rest = idle-ne-hermit_input }, refl),
    λ _. refl,
  ),
)

reads_prompt : ReadsPrompt in_marker out_marker prompting fresh b'h' behind
reads_prompt = record {
  coupled = fresh_IsCoupled;
  waits = waiting.4;
  read = refl;
  out = codes "hi";
  prompt = codes "me";
  given = ap (λ t. t ++ (b'h' ∷ behind)) waiting.3 ∙ behind_is;
  prompted = prompted;
}

abbrev opened :
    (more : Bool) × (p1 p2 : ShellProxy) × (handle_output prompting fresh ≡ (ok more, p1))
    × (handle_input prompting p1 ≡ (ok tt, p2))
    × IsDialogue prompting p1 p2
    × IsCoupled in_marker out_marker p2
opened =
    handle_input-prompted in_marker out_marker prompting fresh b'h' behind b'l' (codes "s :")
      markers prompting-IsInteractive reads_prompt (λ h. refl) (3, refl)

handle_input-prompted_example :
    (more : Bool) × (p1 p2 : ShellProxy) × (handle_output prompting fresh ≡ (ok more, p1))
    × (handle_input prompting p1 ≡ (ok tt, p2))
    × IsDialogue prompting p1 p2
    × IsCoupled in_marker out_marker p2
handle_input-prompted_example =
    handle_input-prompted in_marker out_marker prompting fresh b'h' behind b'l' (codes "s :")
      markers prompting-IsInteractive reads_prompt (λ h. refl) (3, refl)

handle_input-Passes_example :
    ((¬ Opens (codes "ls :") opened.1.input_parser)
      × IsPassed prompting (codes "ls :") opened.1 opened.2)
    ⊎ (Opens (codes "ls :") opened.1.input_parser × IsDialogue prompting opened.1 opened.2)
handle_input-Passes_example =
    handle_input-Passes prompting opened.1 opened.2 b'l' (codes "s :") refl opened.4

-- Two rounds of the loop.
safe_handle_terminal-IsRelayed_example :
    IsRelayed prompting fresh (safe_handle_terminal prompting 2 fresh).1
safe_handle_terminal-IsRelayed_example = safe_handle_terminal-IsRelayed prompting 2 fresh

safe_handle_terminal-IsOurs_example :
    (called : List Effect) × All (IsOurs prompting fresh.session_id) called
    × ((safe_handle_terminal prompting 2 fresh).1.history ≡ called ++ fresh.history)
safe_handle_terminal-IsOurs_example = safe_handle_terminal-IsOurs prompting 2 fresh
