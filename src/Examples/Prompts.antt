-- ===== src/Examples/Prompts.antt =====
-- A prompt that bash prints, at a concrete input.
use llmsh.Base.{
  ℕ, [], ◌∷◌, ◌++◌, List, some, Bytes, codes, ok, get_elem?, All, ◌≡◌, refl, arith, bytes_eq,
}
use mathlib.Core.Path.{subst}
use llmsh.Parsing.{find_smallest_present}
use llmsh.Parsing.Search.{find}
use llmsh.Parsing.Leftmost.{IsLeftmost, IsNonEmpty, pick-IsLeftmost, found_in}
use llmsh.Shell.Bash.{BashState, BashParser, bash_state_eq, input_end, output_end, make_string_id}
use llmsh.Shell.Cycle.{sign, printed, IsPrompted}
use llmsh.Parsing.{new}
use llmsh.Parsing.Construct.{new-fresh}
use llmsh.Parsing.Parses.{IsValid}
use llmsh.Shell.Bash.{transitions, echoes}
use llmsh.Shell.Output.{IsBash}
use llmsh.Shell.Sessions.{AreComplete-bash, AreShort-bash}
use llmsh.Examples.Witnesses.{in_marker, out_marker, markers}

abbrev pub hi : Bytes
hi = printed in_marker out_marker (codes "hi") (codes "me")

pub leftmost :
    (text : Bytes) (ids : List Bytes) (k i : ℕ)
    → All IsNonEmpty ids
    → find_smallest_present (found_in text ids) ≡ some k
    → get_elem? (found_in text ids) k ≡ some (some i)
    → IsLeftmost ids text k i
leftmost text ids k i nonempty picked at =
    let (i', got, l) = pick-IsLeftmost text ids nonempty picked in
    let same : i' ≡ i = cc in subst (IsLeftmost ids text k) same l

pub prompted : IsPrompted in_marker out_marker (codes "hi") (codes "me")
unfolding make_string_id find bytes_eq find_smallest_present
prompted = record {
  at_end =
      leftmost hi (input_end in_marker out_marker ∷ output_end in_marker out_marker ∷ []) 1 2
        (omega arith, (omega arith, tt)) refl refl;
  at_sign = leftmost (codes "me" ++ sign) (sign ∷ []) 0 2 (omega arith, tt) refl refl;
}

abbrev pub waiting :
    (p : BashParser) × (new BashState.output
        (transitions in_marker out_marker)
        (echoes in_marker out_marker)
      ≡ ok p)
    × (v : IsValid p) × (v.reader.text ≡ [])
    × (p.state ≡ BashState.output)
    × (p.input_buffer ≡ [])
    × (p.state_map ≡ transitions in_marker out_marker)
    × (p.echo_events ≡ echoes in_marker out_marker)
waiting =
    new-fresh BashState.output (transitions in_marker out_marker) (echoes in_marker out_marker)
      (AreComplete-bash in_marker out_marker markers) (AreShort-bash in_marker out_marker markers)

abbrev pub waiting_bash : IsBash in_marker out_marker waiting.0
waiting_bash = record { valid = waiting.2; state_map = waiting.6; echo_events = waiting.7 }
