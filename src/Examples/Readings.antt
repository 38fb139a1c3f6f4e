-- ===== src/Examples/Readings.antt =====
-- The theorems on the buffer parser and on newlines at concrete inputs.
use llmsh.Base.{All, bytes_eq, ◌++◌}
use llmsh.Text.{Text, into_bytes}
use llmsh.Shell.Proxy.{ShellProxy, send_context}
use llmsh.Messages.{save_context, alive_msg, alive_resp}
use llmsh.Messages.Protocol.{exchanged}
use llmsh.Outside.{Request, answer, received}
use llmsh.Base.{Outcome, none}
use llmsh.Examples.Witnesses.{proxy}
use llmsh.Shell.Plain.{send_context-plain}
use llmsh.Examples.Witnesses.{outside}
use llmsh.Ansi.{strip_ansi_escape_sequences}
use llmsh.Ansi.Bells.{strip-IsSilent, IsSilent}
use mathlib.Core.Path.{subst}
use llmsh.Base.{
  zero, suc, List, [], ◌∷◌, Bool, true, false, some, codes, ok, get, HashMap, ◌≡◌, ◌↔◌, inl, inr,
  refl, sym, ap, ◌∙◌, arith, length,
}
use llmsh.Outside.{ShellOutputType, header}
use llmsh.Parsing.{StepResults, Transition, string_id, parse, new}
use llmsh.Parsing.Reference.{identifiers, Runs, feed}
use llmsh.Parsing.Chunks.{AreUniform, changes}
use llmsh.Parsing.Parses.{IsValid, IsUniform, parse-total}
use llmsh.Parsing.Pieces.{joined, parse_pieces, parse_pieces-joined}
use llmsh.Parsing.Construct.{new_iff, new-IsValid, AreComplete, AreShort, EachEntry}
use llmsh.Parsing.Visible.{output, AreVisible, output-parse}
use llmsh.Shell.Flags.{some-injective}
use llmsh.Util.{fix_newlines, unfix, unfix-fix_newlines}
use llmsh.Shell.Bash.{BashState, BashParser, idle, cmd_input, bash_state_eq}

-- A parser with one visible identifier in each state.
abbrev one : BashState → ShellOutputType → List (Transition BashState ShellOutputType)
one next event = (string_id (codes "$ ") true, next, event) ∷ []

abbrev state_map : HashMap BashState (List (Transition BashState ShellOutputType))
state_map =
    (idle, one cmd_input header)
    ∷ (cmd_input, one BashState.output ShellOutputType.input)
    ∷ (BashState.output, one idle ShellOutputType.output)
    ∷ []

abbrev echo_events : HashMap BashState Bool
echo_events = (idle, false) ∷ (cmd_input, true) ∷ (BashState.output, false) ∷ []

known :
    (s : BashState)
    → (ts : List (Transition BashState ShellOutputType)) × (get state_map s ≡ some ts)
unfolding get
known idle = (_, refl)
known cmd_input = (_, refl)
known BashState.output = (_, refl)

known_echo : (s : BashState) → (b : Bool) × (get echo_events s ≡ some b)
unfolding get
known_echo idle = (_, refl)
known_echo cmd_input = (_, refl)
known_echo BashState.output = (_, refl)

complete : AreComplete state_map echo_events
complete = record {
  has_transitions = known;
  has_echo = known_echo;
  nonempty = ((omega arith, tt), ((omega arith, tt), ((omega arith, tt), tt)));
}

short : EachEntry (AreShort 128) state_map
short = ((omega arith, tt), ((omega arith, tt), ((omega arith, tt), tt)))

abbrev made :
    (p : BashParser) × (new idle state_map echo_events ≡ ok p)
    × IsValid p
    × (p.state ≡ idle)
    × (p.input_buffer ≡ [])
    × (p.state_map ≡ state_map)
    × (p.echo_events ≡ echo_events)
made = new-IsValid idle state_map echo_events complete short

new_iff_example :
    ((p : BashParser) × (new idle state_map echo_events ≡ ok p))
    ↔ EachEntry (AreShort 128) state_map
new_iff_example = new_iff idle state_map echo_events

parse-total_example :
    (results : List (StepResults ShellOutputType Bool)) × (p' : BashParser) × (v' : IsValid p')
    × (parse made.0 (codes "me$ l") ≡ ok (results, p'))
    × Runs made.0.state_map made.0.echo_events
        (feed made.2.reader (codes "me$ l"))
        results
        v'.reader
parse-total_example = parse-total made.0 (codes "me$ l") made.2

-- Every list of transitions of the parser is one of the three.
listed :
    (P : List (Transition BashState ShellOutputType) → Type 0)
    → ((next : BashState) (event : ShellOutputType) → P (one next event))
    → (s : BashState) (ts : List (Transition BashState ShellOutputType)) → get state_map s ≡ some ts
    → P ts
unfolding get
listed P k idle ts g = subst P (some-injective g) (k _ _)
listed P k cmd_input ts g = subst P (some-injective g) (k _ _)
listed P k BashState.output ts g = subst P (some-injective g) (k _ _)

one-AreUniform :
    (next : BashState) (event : ShellOutputType) → AreUniform (identifiers (one next event))
one-AreUniform next event zero zero id id' g g' = cc
one-AreUniform next event zero (suc k') id id' g g' = cc
one-AreUniform next event (suc k) k' id id' g g' = cc

uniform : IsUniform made.0
uniform s ts g =
    listed (λ ts. AreUniform (identifiers ts)) one-AreUniform s ts
      (ap (λ m. get m s) (sym made.5) ∙ g)

parse_pieces-joined_example :
    (xs zs : List (StepResults ShellOutputType Bool)) × (p1 p2 : BashParser) × (parse_pieces made.0
        (codes "me$")
        (codes " " ∷ codes "ls$" ∷ codes " me" ∷ [])
      ≡ ok (xs, p1))
    × (parse made.0 (joined (codes "me$") (codes " " ∷ codes "ls$" ∷ codes " me" ∷ []))
        ≡ ok (zs, p2))
    × (changes xs ≡ changes zs)
    × (p1.state ≡ p2.state)
parse_pieces-joined_example =
    parse_pieces-joined made.0 (codes "me$") (codes " " ∷ codes "ls$" ∷ codes " me" ∷ []) made.2
      uniform

visible :
    (s : BashState) (ts : List (Transition BashState ShellOutputType))
    → get made.0.state_map s ≡ some ts
    → AreVisible ts
visible s ts g =
    listed AreVisible (λ next event. (refl, tt)) s ts (ap (λ m. get m s) (sym made.5) ∙ g)

all_read : made.0.parsed_length ≡ length made.0.input_buffer
all_read = omega (arith, made.2.sim.seen_le, ap length made.4)

output-parse_example :
    (results : List (StepResults ShellOutputType Bool)) × (p' : BashParser) × (parse made.0
        (codes "me$ ls$ out")
      ≡ ok (results, p'))
    × (output results ≡ codes "me$ ls$ out")
output-parse_example = output-parse made.0 (codes "me$ ls$ out") made.2 all_read visible

unfix-fix_newlines_example : unfix (fix_newlines (codes "a\nb\n")) ≡ codes "a\nb\n"
unfix-fix_newlines_example = unfix-fix_newlines (codes "a\nb\n")

-- ESC [ 1 m, a bell, and the left arrow, which stays.
abbrev coloured : Text
coloured = 0x1B ∷ codes "[1mhi" ++ 7 ∷ 0x1B ∷ codes "[D"

strip_coloured : strip_ansi_escape_sequences (λ c. false) coloured ≡ codes "hi" ++ 0x1B ∷ codes "[D"
unfolding strip_ansi_escape_sequences bytes_eq
strip_coloured = refl

strip-IsSilent_example : All IsSilent (strip_ansi_escape_sequences (λ c. false) coloured)
strip-IsSilent_example = strip-IsSilent (λ c. false) coloured

-- "é🦀"
abbrev crab_text : Text
crab_text = 0xE9 ∷ 0x1F980 ∷ []

abbrev saved_crab : Outcome (Unit {0}) × ShellProxy
saved_crab = send_context outside none (into_bytes crab_text) proxy

saved_crab_is : saved_crab.0 ≡ ok tt
unfolding save_context bytes_eq
saved_crab_is = refl

send_context-plain_example :
    (json : Text) × (outside.to_json (Request.save_context 7 none crab_text) ≡ answer json)
    × (outside.on_recv (exchanged alive_msg 500 proxy.history) ≡ received alive_resp)
    × (saved_crab.1.history ≡ exchanged json 1000 (exchanged alive_msg 500 proxy.history))
send_context-plain_example =
    send_context-plain outside proxy saved_crab.1 none crab_text
      (inl (omega arith), (inr (omega arith, omega arith), tt))
      (
        ((λ e. omega (arith, e)), (λ e. omega (arith, e))),
        (((λ e. omega (arith, e)), (λ e. omega (arith, e))), tt),
      )
      (λ i. (saved_crab_is i, saved_crab.1))
