-- ===== src/Shell/Relays.antt =====
-- llmsh/src/shell.rs and main.rs: sequences of calls of both handlers, and what each gives to the shell.
use mathlib.Core.List.{append_assoc, append-nil}
use llmsh.Base.{ℕ, List, [], ◌∷◌, ◌++◌, Bytes, ◌≡◌, ◌⊎◌, sym, ap, ◌∙◌}
use llmsh.Text.{Text, into_bytes}
use llmsh.Outside.{Outside, answer, read_stdin, Effect, poll, sleep_millis, wait_child}
use llmsh.Shell.Input.{hermit_input}
use llmsh.Shell.Proxy.{ShellProxy, handle_input, handle_output}
use llmsh.Shell.Quiet.{to_shell}
use llmsh.Shell.Chosen.{Entered}
use llmsh.Shell.Colons.{Opens}

module _ (o : Outside) where
  -- What a call of `handle_input` on this proxy gives to the shell: the bytes that it read, where they
  -- open no dialogue; what the dialogue came to that they open; or nothing, which needs that nothing
  -- was read, or that what was read opens a dialogue, or that a dialogue was still open.
  pub data Piece (p : ShellProxy) : Bytes → Type 0 where
    typed :
        {bytes : Bytes}
        → o.on_read_stdin (read_stdin ∷ p.history) ≡ answer bytes
        → ¬ Opens bytes p.input_parser
        → Piece p bytes
    entered :
        {bytes : Bytes} (opening : Bytes) (text : Text)
        → o.on_read_stdin (read_stdin ∷ p.history) ≡ answer opening
        → Opens opening p.input_parser
        → Entered o p.session_id (read_stdin ∷ p.history) text
        → bytes ≡ into_bytes text
        → Piece p bytes
    nothing :
        ((c : ℕ) (cs : Bytes)
          → o.on_read_stdin (read_stdin ∷ p.history) ≡ answer (c ∷ cs)
          → Opens (c ∷ cs) p.input_parser ⊎ (p.input_parser ≡ hermit_input))
        → Piece p []

  abbrev pub joined : List Bytes → Bytes
  joined [] = []
  joined (bytes ∷ rest) = bytes ++ joined rest

  -- The calls of the loop itself.
  pub data IsLoopCall : Effect → Type 0 where
    polls : IsLoopCall poll
    sleeps : IsLoopCall (sleep_millis 100)
    waits : IsLoopCall wait_child

  -- Calls of both handlers and of the loop, one after the other, with the piece that each call of
  -- `handle_input` gives to the shell; nothing else gives it anything.
  pub data Relays : ShellProxy → ShellProxy → List Bytes → Type 0 where
    done : {p : ShellProxy} → Relays p p []
    then_input :
        {p p' : ShellProxy} {bytes : Bytes} {pieces : List Bytes}
        → Piece p bytes
        → to_shell (handle_input o p).1.history ≡ to_shell p.history ++ bytes
        → Relays (handle_input o p).1 p' pieces
        → Relays p p' (bytes ∷ pieces)
    then_output :
        {p p' : ShellProxy} {pieces : List Bytes}
        → to_shell (handle_output o p).1.history ≡ to_shell p.history
        → Relays (handle_output o p).1 p' pieces
        → Relays p p' pieces
    then_call :
        {p p' : ShellProxy} {effect : Effect} {pieces : List Bytes}
        → IsLoopCall effect
        → Relays (record p { history = effect ∷ p.history }) p' pieces
        → Relays p p' pieces

  -- From `p` to `p'` the shell was given the pieces of the calls in between.
  abbrev pub IsRelayed : ShellProxy → ShellProxy → Type 0
  IsRelayed p p' =
      (pieces : List Bytes) × Relays p p' pieces
      × (to_shell p'.history ≡ to_shell p.history ++ joined pieces)

  Relays-given :
      {p p' : ShellProxy} {pieces : List Bytes}
      → Relays p p' pieces
      → to_shell p'.history ≡ to_shell p.history ++ joined pieces
  Relays-given (done {p = p}) = sym (append-nil (to_shell p.history))
  Relays-given (then_input {p = p} {p' = p'} {bytes = bytes} {pieces = pieces} piece e rest) =
      Relays-given rest
      ∙ ap (λ t. t ++ joined pieces) e
      ∙ append_assoc (to_shell p.history) bytes (joined pieces)
  Relays-given (then_output {p = p} {p' = p'} {pieces = pieces} e rest) =
      Relays-given rest ∙ ap (λ t. t ++ joined pieces) e
  Relays-given (then_call {p = p} polls rest) = Relays-given rest
  Relays-given (then_call {p = p} sleeps rest) = Relays-given rest
  Relays-given (then_call {p = p} waits rest) = Relays-given rest

  pub of_calls : {p p' : ShellProxy} {pieces : List Bytes} → Relays p p' pieces → IsRelayed p p'
  of_calls {p = p} {p' = p'} {pieces = pieces} calls = (pieces, calls, Relays-given calls)

  Relays-then :
      {p p1 p2 : ShellProxy} {front back : List Bytes}
      → Relays p p1 front
      → Relays p1 p2 back
      → Relays p p2 (front ++ back)
  Relays-then done later = later
  Relays-then (then_input piece e rest) later = then_input piece e (Relays-then rest later)
  Relays-then (then_output e rest) later = then_output e (Relays-then rest later)
  Relays-then (then_call is rest) later = then_call is (Relays-then rest later)

  pub IsRelayed-stays : (p : ShellProxy) → IsRelayed p p
  IsRelayed-stays p = of_calls done

  pub IsRelayed-then : (p p1 p2 : ShellProxy) → IsRelayed p p1 → IsRelayed p1 p2 → IsRelayed p p2
  IsRelayed-then p p1 p2 (front, before, _) (back, after, _) = of_calls (Relays-then before after)

  pub IsRelayed-call :
      {effect : Effect}
      → IsLoopCall effect
      → (p : ShellProxy) → IsRelayed p (record p { history = effect ∷ p.history })
  IsRelayed-call is p = of_calls (then_call is done)
