-- ===== src/Examples/Stuck.antt =====
-- A marker that ends in a line feed, when a read ends behind the carriage return that bash puts before it.
use llmsh.Base.{
  ℕ, List, [], ◌∷◌, ◌++◌, Bool, false, some, Bytes, codes, ok, ◌≡◌, refl, sym, ap, ◌∙◌, ◌==◌, ◌+◌,
  ◌<◌, if◌then◌else◌, length, take, drop, bytes_eq, arith, get,
}
use mathlib.Core.Path.{subst}
use llmsh.Outside.{ShellOutputType}
use llmsh.Parsing.{StepResults, Transition, new, parse, string_id, find_smallest_present}
use llmsh.Parsing.Search.{find}
use llmsh.Parsing.Leftmost.{NoMatch, IsLeftmost, pick-NoMatch}
use llmsh.Parsing.Construct.{new-fresh}
use llmsh.Parsing.Parses.{IsValid}
use llmsh.Parsing.Visible.{output}
use llmsh.Parsing.Screens.{write, AreWiped}
use llmsh.Parsing.Cleaned.{Cleans, rests}
use llmsh.Parsing.Hidden.{parse-Cleans}
use llmsh.Parsing.Stuck.{IsHome, parse-stuck}
use llmsh.Shell.Bash.{
  BashState, idle, BashParser, bash_state_eq, transitions, echoes, input_end, output_end,
  make_string_id,
}
use llmsh.Shell.Sessions.{AreMarkers, AreComplete-bash, AreShort-bash}
use llmsh.Examples.Prompts.{leftmost}
use llmsh.Examples.Screens.{Line, back, forth, blank}

-- The terminal of Screens, with a carriage return.
abbrev rewound : Bytes → Bytes → Bytes
rewound [] cells = cells
rewound (c ∷ before) cells = rewound before (c ∷ cells)

abbrev put : ℕ → Line → Line
put c (before, cells) =
    if c == 13
    then ([], rewound before cells)
    else if c == 8
    then back (before, cells)
    else forth c (before, cells)

abbrev i_marker : Bytes
i_marker = codes "<i>\n"

abbrev o_marker : Bytes
o_marker = codes "<o>\n"

markers : AreMarkers i_marker o_marker
unfolding make_string_id
markers = (omega arith, omega arith, omega arith, omega arith)

abbrev shown_first : Bytes
shown_first = codes "<o>\r"

abbrev ends : List Bytes
ends = input_end i_marker o_marker ∷ output_end i_marker o_marker ∷ []

none_yet : NoMatch ends shown_first
unfolding make_string_id find bytes_eq find_smallest_present
none_yet = pick-NoMatch shown_first ends (omega arith, (omega arith, tt)) refl

at_marker : IsLeftmost ends (shown_first ++ codes "\n") 1 0
unfolding make_string_id find bytes_eq find_smallest_present
at_marker = leftmost (shown_first ++ codes "\n") ends 1 0 (omega arith, (omega arith, tt)) refl refl

abbrev started :
    (p : BashParser) × (new BashState.output
        (transitions i_marker o_marker)
        (echoes i_marker o_marker)
      ≡ ok p)
    × (v : IsValid p) × (v.reader.text ≡ [])
    × (p.state ≡ BashState.output)
    × (p.input_buffer ≡ [])
    × (p.state_map ≡ transitions i_marker o_marker)
    × (p.echo_events ≡ echoes i_marker o_marker)
started =
    new-fresh BashState.output (transitions i_marker o_marker) (echoes i_marker o_marker)
      (AreComplete-bash i_marker o_marker markers) (AreShort-bash i_marker o_marker markers)

first_Cleans :
    Cleans started.0.state_map
      (started.2.reader.text ++ shown_first)
      started.2.reader.state
      4
      []
      shown_first
      BashState.output
unfolding transitions get
first_Cleans =
    subst
      (λ m.
        Cleans m (started.2.reader.text ++ shown_first) started.2.reader.state 4 [] shown_first
          BashState.output)
      (sym started.6)
      (subst
        (λ t.
          Cleans (transitions i_marker o_marker) (t ++ shown_first) started.2.reader.state 4 []
            shown_first BashState.output)
        (sym started.3)
        (subst
          (λ s.
            Cleans (transitions i_marker o_marker) shown_first s 4 [] shown_first BashState.output)
          (sym (ap (λ r. r.state) started.2.sim.is_view ∙ started.4)) (rests _ refl none_yet)))

abbrev Half : BashParser → Type 0
Half p =
    (v : IsValid p) × (v.reader.text ≡ shown_first)
    × (v.reader.state ≡ BashState.output)
    × (p.parsed_length ≡ length p.input_buffer)
    × (p.state_map ≡ transitions i_marker o_marker)

abbrev half : (p : BashParser) × Half p
half =
    let (results, p', v', _, _, text, state, all_read, same_map, _) =
      parse-Cleans started.0 shown_first started.2 put blank
        (omega (arith, started.2.sim.seen_le, ap length started.5)) first_Cleans
        (subst (λ t. AreWiped put (drop 4 t) (write put (take 4 (t ++ shown_first)) blank))
          (sym started.3) tt) in
    (p', (v', text, state, all_read, same_map ∙ started.6))

abbrev bash_ends : List (Transition BashState ShellOutputType)
bash_ends =
    (string_id (input_end i_marker o_marker) false, BashState.output, ShellOutputType.output)
    ∷ (string_id (output_end i_marker o_marker) false, idle, ShellOutputType.output)
    ∷ []

known : get half.0.state_map half.1.0.reader.state ≡ some bash_ends
unfolding transitions get
known =
    ap (λ m. get m half.1.0.reader.state) half.1.4
    ∙ ap (get (transitions i_marker o_marker)) half.1.2

-- The screen after both reads still shows the marker, but for its first cell.
parse-stuck_example :
    (results : List (StepResults ShellOutputType Bool)) × (p' : BashParser) × (parse half.0
        (codes "\n")
      ≡ ok (results, p'))
    × (p'.state ≡ idle)
    × (write put (output results) (write put half.1.0.reader.text blank)
        ≡ put 8 (put 32 (write put half.1.0.reader.text blank)))
unfolding make_string_id
parse-stuck_example =
    parse-stuck half.0 (codes "\n") half.1.0 bash_ends 1 0 (output_end i_marker o_marker) idle
      ShellOutputType.output put blank half.1.3 known refl
      (subst (λ t. IsLeftmost ends (t ++ codes "\n") 1 0) (sym half.1.1) at_marker)
      (subst (λ t. 0 < length t) (sym half.1.1) (omega arith))
      (subst (λ t. 0 + length (output_end i_marker o_marker) ≡ length (t ++ codes "\n"))
        (sym half.1.1) refl)
      (omega arith)
      (subst (λ t. IsHome put (write put t blank)) (sym half.1.1)
        (record { stays = refl; blanked_stays = refl; blanked = refl }))
