-- ===== src/Shell/Sessions.antt =====
-- The proxy from its creation on: any sequence of calls of `handle_input` and `handle_output`.
use llmsh.Base.{
  ℕ, List, [], Bool, false, Bytes, ok, ◌<◌, ◌≡◌, refl, sym, ap, length, get, some, arith,
}
use llmsh.Effects.Contracts.{Keeps-ok}
use llmsh.Outside.{Outside, History, ShellOutputType}
use llmsh.Parsing.{Transition}
use llmsh.Parsing.Construct.{new-IsValid, AreComplete, AreShort, EachEntry}
use llmsh.Shell.Input
use llmsh.Shell.Bash
use llmsh.Shell.Bash.{
  BashState, idle, cmd_input, make_string_id, BashParser, transitions, echoes, input_end,
  output_end, bash_state_eq,
}
use llmsh.Shell.Flags.{in_input}
use llmsh.Shell.Proxy.{ShellProxy, handle_input, handle_output}
use llmsh.Shell.Output.{IsCoupled, handle_output-IsCoupled}
use llmsh.Shell.Typed.{handle_input-IsCoupled}

-- The proxy that `create_proxy` builds around a parser.
unfoldable pub create_proxy : History → ℕ → BashParser → ShellProxy
unfolding Input.new
create_proxy history session_id output_parser = record {
  history = history;
  session_id = session_id;
  input_parser = Input.new;
  output_parser = output_parser;
  output_aggregation = [];
}

-- The loop's calls, in any order, each of which returned.
pub data Handled (o : Outside) : ShellProxy → ShellProxy → Type 0 where
  unhandled : {p : ShellProxy} → Handled o p p
  input_handled :
      {p p1 p2 : ShellProxy} → handle_input o p ≡ (ok tt, p1) → Handled o p1 p2 → Handled o p p2
  output_handled :
      {p p1 p2 : ShellProxy} {more : Bool}
      → handle_output o p ≡ (ok more, p1)
      → Handled o p1 p2
      → Handled o p p2

module _ (m n : Bytes) where
  -- Each marker has a byte, and fewer than 128 when its newlines are sent as two.
  abbrev pub AreMarkers : Type 0
  AreMarkers =
      (0 < length (input_end m n))
      × (length (input_end m n) < 128)
      × (0 < length (output_end m n))
      × (length (output_end m n) < 128)

  known :
      (s : BashState)
      → (ts : List (Transition BashState ShellOutputType)) × (get (transitions m n) s ≡ some ts)
  unfolding transitions get
  known idle = (_, refl)
  known cmd_input = (_, refl)
  known BashState.output = (_, refl)

  known_echo : (s : BashState) → (b : Bool) × (get (echoes m n) s ≡ some b)
  unfolding echoes get
  known_echo idle = (_, refl)
  known_echo cmd_input = (_, refl)
  known_echo BashState.output = (_, refl)

  pub AreComplete-bash : AreMarkers → AreComplete (transitions m n) (echoes m n)
  unfolding transitions make_string_id
  AreComplete-bash (a, _, b, _) = record {
    has_transitions = known;
    has_echo = known_echo;
    nonempty = ((omega arith, tt), ((a, (b, tt)), ((a, (b, tt)), tt)));
  }

  pub AreShort-bash : AreMarkers → EachEntry (AreShort 128) (transitions m n)
  unfolding transitions make_string_id
  AreShort-bash (_, a, _, b) = ((omega arith, tt), ((a, (b, tt)), ((a, (b, tt)), tt)))

  -- With markers of 1 to 127 bytes each (newlines counted twice), the parser of bash's output is created
  -- with no panic, and the new proxy is coupled.
  pub create_proxy-IsCoupled :
      (history : History) (session_id : ℕ)
      → AreMarkers
      → (q : BashParser) × (Bash.new m n ≡ ok q) × IsCoupled m n (create_proxy history session_id q)
  unfolding create_proxy Bash.new Input.new
  create_proxy-IsCoupled history session_id are =
      let (q, made, valid, at_output, _, same_map, same_events) =
        new-IsValid BashState.output (transitions m n) (echoes m n) (AreComplete-bash are)
          (AreShort-bash are) in
      let idle_yet : in_input q.state ≡ false = ap in_input at_output in
      (
        q,
        made,
        (
          record { valid = valid; state_map = same_map; echo_events = same_events },
          ((record { prompt = sym idle_yet; at_rest = λ e. cc }, refl), λ _. refl),
        ),
      )

  module _ (o : Outside) where
    -- A coupled proxy stays coupled under any sequence of calls of `handle_input` and `handle_output` that
    -- return: at a prompt exactly while the parser reads a command, at rest, and with no aggregation left
    -- outside of commands.
    pub Handled-IsCoupled :
        {p p' : ShellProxy} → IsCoupled m n p → Handled o p p' → IsCoupled m n p'
    Handled-IsCoupled is unhandled = is
    Handled-IsCoupled is (input_handled {p = p} e rest) =
        Handled-IsCoupled
          (Keeps-ok _ (λ _. IsCoupled m n) (handle_input o) p (handle_input-IsCoupled o m n p is) e)
          rest
    Handled-IsCoupled is (output_handled {p = p} e rest) =
        Handled-IsCoupled
          (Keeps-ok _ (λ _. IsCoupled m n) (handle_output o) p (handle_output-IsCoupled m n o p is)
            e)
          rest
