-- ===== src/Shell/InSession.antt =====
-- llmsh/src/shell.rs: every message that the proxy sends belongs to its session with hermitd.
use mathlib.Core.Path.{subst}
use llmsh.Base.{ℕ, [], ◌∷◌, Bytes, ◌≡◌, refl, sym, codes}
use llmsh.Effects.{Method}
use llmsh.Effects.Contracts.{Goes}
use llmsh.Outside.{
  Outside, History, Effect, write_stdout, flush_stdout, write_pty, read_stdin, read_pty, read_line,
  send, set_rcvtimeo, recv_string, poll, sleep_millis, wait_child,
}
use llmsh.Messages.{save_context}
use llmsh.Messages.Footprints.{
  Adds, Adds-nothing, Adds-then, IsMessage, AllowsMessages, Adds-save_context,
}
use llmsh.Shell.Hermit.{write_out, flush_out, write_parent, handle_hermit}
use llmsh.Shell.Footprints.{
  AllowsDialogue, Adds-effect, Adds-write_out, Adds-flush_out, Adds-handle_hermit,
}
use llmsh.Shell.Proxy.{ShellProxy, context_of, with_history, handle_input, handle_output}
use llmsh.Shell.Followed.{IsFollowed, Goes-handle_output}
use llmsh.Shell.FollowedInput.{Goes-handle_input}

module _ (o : Outside) (session_id : ℕ) where
  -- What the loop may call: the terminal, the line editor, the shell, `poll`, `waitpid`, and hermitd,
  -- which is sent messages of this session alone.
  abbrev pub IsOurs : Effect → Type 0
  IsOurs (send msg) = IsMessage o session_id msg
  IsOurs (write_stdout bytes) = Unit {0}
  IsOurs flush_stdout = Unit {0}
  IsOurs (write_pty bytes) = Unit {0}
  IsOurs read_stdin = Unit {0}
  IsOurs read_pty = Unit {0}
  IsOurs read_line = Unit {0}
  IsOurs (set_rcvtimeo n) = Unit {0}
  IsOurs recv_string = Unit {0}
  IsOurs poll = Unit {0}
  IsOurs (sleep_millis n) = Unit {0}
  IsOurs wait_child = Unit {0}
  IsOurs _ = ⊥

  -- A proxy of this session stays one, and all that it called is ours.
  abbrev pub KeepsSession : ShellProxy → ShellProxy → Type 0
  KeepsSession p p' =
      p.session_id ≡ session_id → Adds IsOurs p.history p'.history × (p'.session_id ≡ session_id)

  pub KeepsSession-refl : (p : ShellProxy) → KeepsSession p p
  KeepsSession-refl p is = (Adds-nothing IsOurs p.history, is)

  pub KeepsSession-trans :
      (p p1 p2 : ShellProxy) → KeepsSession p p1 → KeepsSession p1 p2 → KeepsSession p p2
  KeepsSession-trans p p1 p2 a b is =
      let (adds, is1) = a is in
      let (adds', is2) = b is1 in (Adds-then IsOurs p.history p1.history p2.history adds adds', is2)

  messages-IsOurs : AllowsMessages o IsOurs session_id
  messages-IsOurs = record { sends = λ msg is. is; sets_time = λ n. tt; receives = tt }

  dialogue-IsOurs : AllowsDialogue o IsOurs session_id
  dialogue-IsOurs = record {
    messages = messages-IsOurs;
    writes = λ bytes. tt;
    flushes = tt;
    lines = tt;
  }

  pub KeepsSession-effect :
      (e : Effect)
      → IsOurs e
      → (p : ShellProxy) → KeepsSession p (record p { history = e ∷ p.history })
  KeepsSession-effect e ours p is = ((e ∷ [], (ours, tt), refl), is)

  KeepsSession-with_history :
      {A : Type 0} (m : Method History A)
      → Goes (Adds IsOurs) m
      → Goes KeepsSession (with_history m)
  KeepsSession-with_history m adds p is = (adds p.history, is)

  IsFollowed-KeepsSession : IsFollowed o KeepsSession
  IsFollowed-KeepsSession = record {
    stays = KeepsSession-refl;
    goes_on = KeepsSession-trans;
    by_write = λ bytes.
        KeepsSession-with_history (write_out o bytes)
          (Adds-write_out o IsOurs session_id dialogue-IsOurs bytes);
    by_context = λ context_type bytes p is. (
      subst
          (λ n.
            Adds IsOurs p.history (save_context o n context_type (context_of o bytes) p.history).1)
          (sym is)
          (Adds-save_context o IsOurs session_id messages-IsOurs context_type (context_of o bytes)
            p.history),
      is,
    );
    by_input = λ p s is. (Adds-nothing IsOurs p.history, is);
    by_aggregation = λ p bytes is. (Adds-nothing IsOurs p.history, is);
  }

  pub KeepsSession-handle_output : Goes KeepsSession (handle_output o)
  KeepsSession-handle_output = Goes-handle_output o KeepsSession (record {
    handled = IsFollowed-KeepsSession;
    by_parser = λ p q is. (Adds-nothing IsOurs p.history, is);
    by_flush =
        KeepsSession-with_history (flush_out o)
          (Adds-flush_out o IsOurs session_id dialogue-IsOurs);
    by_read = KeepsSession-effect read_pty tt;
  })

  Adds-write_parent : (bytes : Bytes) → Goes (Adds IsOurs) (write_parent o bytes)
  unfolding write_parent
  Adds-write_parent bytes h =
      Adds-effect o IsOurs session_id dialogue-IsOurs (write_pty bytes)
        (o.on_write (write_pty bytes ∷ h)) (codes "Failed to write to parent_fd") tt h

  pub KeepsSession-handle_input : Goes KeepsSession (handle_input o)
  KeepsSession-handle_input = Goes-handle_input o KeepsSession (record {
    stays = KeepsSession-refl;
    goes_on = KeepsSession-trans;
    by_read = KeepsSession-effect read_stdin tt;
    by_input = λ p s is. (Adds-nothing IsOurs p.history, is);
    by_write = IsFollowed-KeepsSession.by_write;
    by_flush =
        KeepsSession-with_history (flush_out o)
          (Adds-flush_out o IsOurs session_id dialogue-IsOurs);
    by_shell = λ bytes. KeepsSession-with_history (write_parent o bytes) (Adds-write_parent bytes);
    by_dialogue = λ p is. (
      subst (λ n. Adds IsOurs p.history (handle_hermit o n p.history).1) (sym is)
          (Adds-handle_hermit o IsOurs session_id dialogue-IsOurs p.history),
      is,
    );
  })
