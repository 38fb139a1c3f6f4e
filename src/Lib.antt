-- ===== src/Lib.antt =====
-- llmsh: a wrapper of an interactive shell, with a prompt at which the user asks hermitd.
--
-- The program (llmsh/src) runs a shell on a pseudo terminal. The shell's prompts carry markers, and the
-- buffer parser (parsing.rs) finds them in the shell's output, also where a read cuts them in two. The
-- proxy (shell.rs) passes input and output on, keeps a state machine for the input, sends what is shown
-- to hermitd as context (messages.rs), and on input with a `:` in what a read at a fresh prompt gives holds a
-- dialogue with the user and hermitd.
--
-- Files, and the code that they are about:
--   Parsing       llmsh/src/parsing.rs, BufferParser: `new`, `buffer`, `step`, `parse`. A `&mut self`
--                 method takes the parser and returns the new one. Its child modules hold the proofs:
--                 Reference is the specification, a reader of the whole text since the last transition;
--                 Simulation, Steps, Together and Total relate the parser with its bounded history to
--                 the reader; Chunks, Streams, Cuts and Pieces are about an input that comes in pieces;
--                 Screens, Cleaned, Hidden and Stuck are about what a terminal shows of hidden
--                 identifiers; Parses, Leads, Construct and Visible hold the contract.
--   Ansi          llmsh/src/parsing.rs, strip_ansi_escape_sequences, its regular expression as matchers;
--                 Ansi/Bells says what is left of a text.
--   Util, Base    llmsh/src/util.rs: fix_newlines, and the error type and its texts (Base/Results).
--   Text          the standard library's lossy decoding of UTF-8, and encoding; Utf8 relates them.
--   Outside       what is not part of the program: the terminal, the pseudo terminal, the line editor,
--                 ZeroMQ, JSON, poll, and (Platform) system calls, processes and files at the start. A
--                 call is noted in a history, and its answer is a function of the history, so that any
--                 outside is an instance.
--   Effects       methods with a state and errors; Effects/Contracts their contracts and what they
--                 leave as it is.
--   Messages      llmsh/src/messages.rs, HermitdClient; Protocol, Calm, Setup, Footprints
--                 and Closing hold the proofs.
--   Shell         llmsh/src/shell.rs: Input is ShellInputStateMachine, Bash is BashParser, Hermit the
--                 dialogue, Proxy ShellProxy with handle_input and handle_output. Flags, Coupling,
--                 Stepping, Output, Dialogue, Typed and Sessions hold the proofs about the two state machines,
--                 Selections, Numerals, Numbers and Offered those about the choice of a command, Contexts, Showing, Shown,
--                 Conserved and Plain those about what is shown and what is sent to hermitd, Quiet,
--                 QuietOutput, Chosen, Colons, Passing, Relays and Relayed those about what the shell is sent,
--                 Moved, Reading and Screen those about the terminal's screen, and Cycle and Prompted
--                 those about a prompt and the dialogue that may follow it. Footprints, Followed and
--                 FollowedInput say what a call may change by what its parts may, and InSession which
--                 messages hermitd is sent. Start is the choice of the shell, its markers and its
--                 rc file; Prompts and Launched hold the proofs about it.
--   Pty           llmsh/src/pty.rs: the pseudo terminal, raw mode, sizes, signals. Descriptors, Terminals,
--                 Polled and Signals say what its calls do to the system, as the manual pages tell it.
--   MainLoop      llmsh/src/main.rs, safe_handle_terminal: one round of the loop, and rounds on fuel, since
--                 the loop runs as long as the shell; Interrupts, Safety, Followed, Relayed and Exits
--                 hold the proofs.
--   Main          llmsh/src/main.rs, main: the process that stays, the one that becomes the shell, and how each
--                 ends, with an exit code, as another program, or with a panic; `env::vars` and
--                 `thread::spawn` may panic, too. Following, Parent, Calls, Calm,
--                 RcFile and Child hold the proofs; the macro `expect!` of util.rs is here.
--   Examples      tests and the theorems at concrete inputs.
--
-- Numbers are natural numbers, and an unsigned subtraction that would go below 0 is a panic or stops at
-- 0 (saturating_sub), as the code says; buffer lengths are not bounded by the machine's words. A panic
-- of an index, of a slice, of `unwrap`, of `panic!` or of `assert!` is an outcome. The loop of `parse` has
-- fuel for two more steps than the buffer has bytes: every step but the last two drains a byte.
-- The buffer of a read (4096 bytes) is the argument of what uses it. A `write_all` is noted with all of its
-- bytes, also where it fails after a part of them.
--
-- Not modelled: the parsing of the arguments (clap), logging and the log file of debug builds, how bash
-- reads the rc file, which is beyond llmsh's code, the interleaving of the signal handler's thread with
-- the main loop, which share no state but the outside's, and hermitd, a separate service in Python.
pub mod Base
pub mod Parsing
pub mod Ansi
pub mod Text
pub mod Util
pub mod Outside
pub mod Effects
pub mod Messages
pub mod Shell
pub mod Pty
pub mod MainLoop
pub mod Main
pub mod Examples
