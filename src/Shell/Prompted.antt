-- ===== src/Shell/Prompted.antt =====
-- llmsh/src/shell.rs: from the prompt that bash prints to the dialogue that a typed colon opens.
use llmsh.Base.{ℕ, ◌∷◌, ◌++◌, Bool, Bytes, ok, ◌≡◌, inl, inr, sym, ap, ◌∙◌, ok-injective}
use mathlib.Core.Path.{subst}
use llmsh.Outside.{Outside, History, answer, pty_bytes, read_pty, read_stdin}
use llmsh.Parsing.Chunks.{changes}
use llmsh.Shell.Input.{undetermined}
use llmsh.Shell.Bash.{BashState, cmd_input, bash_state_eq}
use llmsh.Shell.Sessions.{AreMarkers}
use llmsh.Shell.Coupling.{IsWorking}
use llmsh.Shell.Dialogue.{IsInteractive}
use llmsh.Shell.Proxy.{ShellProxy, handle_input, handle_output}
use llmsh.Shell.Output.{IsCoupled, handle_output-works}
use llmsh.Shell.Typed.{handle_input-works}
use llmsh.Shell.Cycle.{printed, IsPrompted, parse-prompt}
use llmsh.Shell.Moved.{moved}
use llmsh.Shell.Reading.{handle_output-parsed}
use llmsh.Shell.Colons.{HasColon, Opens}
use llmsh.Shell.Passing.{IsDialogue, handle_input-Passes}

module _ (m n : Bytes) (o : Outside) where
  -- A coupled proxy that waits for the end of a command's output reads, in the last piece, that end and
  -- a prompt with the shell's sign, with no marker and no sign before these.
  pub record ReadsPrompt (p : ShellProxy) (c : ℕ) (cs : Bytes) : Type 0 where
    pub coupled : IsCoupled m n p
    pub waits : p.output_parser.state ≡ BashState.output
    pub read : o.on_read_pty (read_pty ∷ p.history) ≡ pty_bytes (c ∷ cs)
    pub out : Bytes
    pub prompt : Bytes
    pub given : coupled.0.valid.reader.text ++ (c ∷ cs) ≡ printed m n out prompt
    pub prompted : IsPrompted m n out prompt

  -- Where the outside works, with markers of 1 to 127 bytes, `handle_output` that reads a prompt returns;
  -- then the parser reads a command, the input's machine is undetermined, which is the one state where
  -- a colon opens a dialogue, and the proxy is coupled.
  pub handle_output-prompts :
      (p : ShellProxy) (c : ℕ) (cs : Bytes)
      → AreMarkers m n
      → IsWorking o
      → ReadsPrompt p c cs
      → (more : Bool) × (p' : ShellProxy) × (handle_output o p ≡ (ok more, p'))
        × IsCoupled m n p'
        × (p'.output_parser.state ≡ cmd_input)
        × (p'.input_parser ≡ undetermined)
  handle_output-prompts p c cs are works is =
      let (more, p', returned, coupled') = handle_output-works m n o p is.coupled works in
      let (results, parsed, followed, _) = handle_output-parsed o p p' c cs is.read returned in
      let (results', q, parsed', events, at_input) =
        parse-prompt m n p.output_parser (c ∷ cs) is.out is.prompt are is.coupled.0 is.waits
          is.given is.prompted in
      let same = ok-injective (sym parsed ∙ parsed') in
      (
        more,
        p',
        returned,
        coupled',
        ap (λ r. r.1.state) same ∙ at_input,
        followed
            ∙ ap (λ r. moved (changes r.0) p.input_parser) same
            ∙ ap (λ events. moved events p.input_parser) events,
      )

  -- With markers of 1 to 127 bytes, where the terminal, the line editor, the shell and hermitd work: when
  -- a coupled proxy that waits for the end of a command's output reads, in the last piece of it, that end
  -- and a prompt with the shell's sign, and the bytes that the next read of the user's input gives hold
  -- a colon, wherever it stands in them, then both handlers return, these bytes open a dialogue, the shell is sent what the dialogue
  -- comes to and none of these bytes, and the proxy is coupled again.
  pub handle_input-prompted :
      (p : ShellProxy) (c : ℕ) (cs : Bytes) (d : ℕ) (ds : Bytes)
      → AreMarkers m n
      → IsInteractive o
      → ReadsPrompt p c cs
      → ((h : History) → o.on_read_stdin h ≡ answer (d ∷ ds))
      → HasColon (d ∷ ds)
      → (more : Bool) × (p1 p2 : ShellProxy) × (handle_output o p ≡ (ok more, p1))
        × (handle_input o p1 ≡ (ok tt, p2))
        × IsDialogue o p1 p2
        × IsCoupled m n p2
  handle_input-prompted p c cs d ds are works is typed colon =
      let (more, p1, returned, coupled1, _, at_prompt) =
        handle_output-prompts p c cs are works.works is in
      let (p2, returned2, coupled2) = handle_input-works o m n p1 coupled1 works in
      (
        more,
        p1,
        p2,
        returned,
        returned2,
        elim (handle_input-Passes o p1 p2 d ds (typed (read_stdin ∷ p1.history)) returned2) [
          | inl (opens_none, _) ↦ absurd (opens_none (subst (Opens (d ∷ ds)) (sym at_prompt) colon))
          | inr (_, dialogue) ↦ dialogue
        ],
        coupled2,
      )
