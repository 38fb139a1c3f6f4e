-- ===== src/Shell/Conserved.antt =====
-- llmsh/src/shell.rs, `handle_output`: what is shown and what is saved as context are the same bytes.
use llmsh.Outside.{Outside}
use llmsh.Shell.Bash.{bash_state_eq}
