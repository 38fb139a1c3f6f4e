-- ===== src/Shell.antt =====
-- llmsh/src/shell.rs, in parts: the state machine of the input, the parser of bash's output, and the
-- proxy that connects them with the terminal, the shell and hermitd.
pub mod Input
pub mod Bash
pub mod Flags
pub mod Strings
pub mod Hermit
pub mod Proxy
pub mod Coupling
pub mod Stepping
pub mod Footprints
pub mod Quiet
pub mod Chosen
pub mod Colons
pub mod Passing
pub mod Output
pub mod Dialogue
pub mod Typed
pub mod Sessions
pub mod Followed
pub mod FollowedInput
pub mod InSession
pub mod Reading
pub mod Moved
pub mod Prompted
pub mod Screen
pub mod QuietOutput
pub mod Relays
pub mod Relayed
pub mod Selections
pub mod Numerals
pub mod Numbers
pub mod Offered
pub mod Contexts
pub mod Showing
pub mod Shown
pub mod Conserved
pub mod Plain
pub mod Cycle
pub mod Start
pub mod Prompts
pub mod Launched
