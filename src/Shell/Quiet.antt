-- ===== src/Shell/Quiet.antt =====
-- What reaches the shell, and the calls that send it nothing: those of the dialogue with the user and
-- hermitd, and of a saved context (llmsh/src/shell.rs).
use llmsh.Base.{ℕ, List, [], ◌∷◌, ◌++◌, Option, Bytes, All, ◌≡◌, refl, ap, ◌∙◌}
use llmsh.Text.{Text}
use llmsh.Effects.{Method}
use llmsh.Effects.Contracts.{Leaves}
use llmsh.Outside.{Outside, History, Effect, write_pty, Answer, answer, failure, ShellOutputType}
use llmsh.Messages.{map_err, save_context}
use llmsh.Messages.Footprints.{Adds, AllowsMessages, Adds-save_context}
use llmsh.Shell.Hermit.{write_out, flush_out, handle_hermit}
use llmsh.Shell.Footprints.{AllowsDialogue, Adds-write_out, Adds-flush_out, Adds-handle_hermit}

-- The bytes that were written to the shell, the oldest first.
abbrev pub to_shell : History → Bytes
to_shell [] = []
to_shell (write_pty bytes ∷ h) = to_shell h ++ bytes
to_shell (_ ∷ h) = to_shell h

-- Whatever the method comes to, the shell was sent nothing.
abbrev pub IsQuiet : {A : Type 0} → Method History A → Type 0
IsQuiet m = Leaves to_shell m

-- An effect that sends the shell nothing.
abbrev NotToShell : Effect → Type 0
NotToShell (write_pty bytes) = ⊥
NotToShell _ = Unit {0}

to_shell-NotToShell : (e : Effect) → NotToShell e → (h : History) → to_shell (e ∷ h) ≡ to_shell h
to_shell-NotToShell (write_pty bytes) never h = absurd never
to_shell-NotToShell _ p h = refl

to_shell-Adds : (h h' : History) → Adds NotToShell h h' → to_shell h' ≡ to_shell h
to_shell-Adds h h' (new, are, is) = ap to_shell is ∙ unsent new are
  where
    unsent : (new : List Effect) → All NotToShell new → to_shell (new ++ h) ≡ to_shell h
    unsent [] are = refl
    unsent (e ∷ new) (p, are) = to_shell-NotToShell e p (new ++ h) ∙ unsent new are

pub IsQuiet-map_err : {A : Type 0} (a : Answer A) (msg : Text) → IsQuiet (map_err a msg)
unfolding map_err
IsQuiet-map_err (answer a) msg h = refl
IsQuiet-map_err (failure e) msg h = refl

module _ (o : Outside) where
  messages_quiet : (session_id : ℕ) → AllowsMessages o NotToShell session_id
  messages_quiet session_id = record { sends = λ msg is. tt; sets_time = λ n. tt; receives = tt }

  dialogue_quiet : (session_id : ℕ) → AllowsDialogue o NotToShell session_id
  dialogue_quiet session_id = record {
    messages = messages_quiet session_id;
    writes = λ bytes. tt;
    flushes = tt;
    lines = tt;
  }

  pub IsQuiet-save_context :
      (session_id : ℕ) (context_type : Option ShellOutputType) (context : Text)
      → IsQuiet (save_context o session_id context_type context)
  IsQuiet-save_context session_id context_type context h =
      to_shell-Adds h (save_context o session_id context_type context h).1 (
        Adds-save_context o NotToShell session_id (messages_quiet session_id) context_type context
          h)

  pub IsQuiet-write_out : (bytes : Bytes) → IsQuiet (write_out o bytes)
  IsQuiet-write_out bytes h =
      to_shell-Adds h (write_out o bytes h).1
        (Adds-write_out o NotToShell 0 (dialogue_quiet 0) bytes h)

  pub IsQuiet-flush_out : IsQuiet (flush_out o)
  IsQuiet-flush_out h =
      to_shell-Adds h (flush_out o h).1 (Adds-flush_out o NotToShell 0 (dialogue_quiet 0) h)

  pub IsQuiet-handle_hermit : (session_id : ℕ) → IsQuiet (handle_hermit o session_id)
  IsQuiet-handle_hermit session_id h =
      to_shell-Adds h (handle_hermit o session_id h).1
        (Adds-handle_hermit o NotToShell session_id (dialogue_quiet session_id) h)
