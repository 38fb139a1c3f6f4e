-- ===== src/Shell/QuietOutput.antt =====
-- llmsh/src/shell.rs, `handle_output`: it sends the shell nothing.
use llmsh.Base.{Bytes, refl, ◌∙◌}
use llmsh.Effects.{Method}
use llmsh.Effects.Contracts.{Same, Leaves}
use llmsh.Outside.{Outside, History}
use llmsh.Shell.Hermit.{write_out, flush_out}
use llmsh.Shell.Proxy.{ShellProxy, context_of, with_history, handle_output}
use llmsh.Shell.Quiet.{
  to_shell, IsQuiet, IsQuiet-write_out, IsQuiet-flush_out, IsQuiet-save_context,
}
use llmsh.Shell.Followed.{IsFollowedOutput, Goes-handle_output}

abbrev pub shell_of : ShellProxy → Bytes
shell_of p = to_shell p.history

pub IsQuiet-with_history :
    {A : Type 0} (m : Method History A) → IsQuiet m → Leaves shell_of (with_history m)
IsQuiet-with_history m quiet p = quiet p.history

module _ (o : Outside) where
  IsFollowedOutput-shell_of : IsFollowedOutput o (Same shell_of)
  IsFollowedOutput-shell_of = record {
    handled = record {
      stays = λ p. refl;
      goes_on = λ p p1 p2 a b. b ∙ a;
      by_write = λ bytes. IsQuiet-with_history (write_out o bytes) (IsQuiet-write_out o bytes);
      by_context = λ context_type bytes p.
          IsQuiet-save_context o p.session_id context_type (context_of o bytes) p.history;
      by_input = λ p s. refl;
      by_aggregation = λ p bytes. refl;
    };
    by_parser = λ p q. refl;
    by_flush = IsQuiet-with_history (flush_out o) (IsQuiet-flush_out o);
    by_read = λ p. refl;
  }

  pub IsQuiet-handle_output : Leaves shell_of (handle_output o)
  IsQuiet-handle_output = Goes-handle_output o (Same shell_of) IsFollowedOutput-shell_of
