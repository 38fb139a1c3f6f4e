-- ===== src/Parsing.antt =====
-- llmsh/src/parsing.rs: the buffer parser that finds the markers in the shell's output. A `&mut self`
-- method takes the parser and returns the new one; a panic of an index, of a slice, of `unwrap`, of
-- an unsigned subtraction or of an `assert!` is an outcome.
pub mod Search
pub mod Smallest
pub mod Leftmost
pub mod Reference
pub mod Shown
pub mod Simulation
pub mod Steps
pub mod Together
pub mod Total
pub mod Chunks
pub mod Streams
pub mod Cuts
pub mod Parses
pub mod Leads
pub mod Construct
pub mod Visible
pub mod Screens
pub mod Cleaned
pub mod Hidden
pub mod Stuck
pub mod Pieces
use llmsh.Base.{
  ℕ, zero, suc, ◌+◌, ◌-◌, ◌*◌, Bool, Option, none, some, List, [], ◌∷◌, ◌++◌, Bytes, Eq, Outcome,
  ok, panicked, exhausted, ◌>>=◌, unwrap, ltb, ◌==◌, bytes_eq, if◌then◌else◌, length, get_elem?,
  HashMap, index, shift, windows, position, enumerate_from, slice, drain, checked_sub, cycle_take,
}

pub data StepResults (E1 E2 : Type 0) : Type 0 where
  state_change : E1 → Bytes → StepResults E1 E2
  echo : E2 → Bytes → StepResults E1 E2

-- identifier, visible
pub data TransitionCondition : Type 0 where
  string_id : Bytes → Bool → TransitionCondition

pub record BufferParser (S E1 E2 : Type 0) : Type 0 where
  pub input_buffer : Bytes
  pub parsed_length : ℕ
  pub state : S
  pub state_map : HashMap S (List (TransitionCondition × S × E1))
  pub echo_events : HashMap S E2
  pub max_history_length : ℕ

-- `.filter_map(|(idx, &opt)| opt.map(|val| (idx, val)))`
unfoldable pub present : List (ℕ × Option ℕ) → List (ℕ × ℕ)
present [] = []
present ((idx, none) ∷ r) = present r
present ((idx, some val) ∷ r) = (idx, val) ∷ present r

-- `.min_by_key(|&(_, val)| val)`: of equal keys the first is kept.
unfoldable pub min_by_val : ℕ × ℕ → List (ℕ × ℕ) → ℕ × ℕ
min_by_val best [] = best
min_by_val (i, v) ((j, w) ∷ r) = min_by_val (if ltb w v then (j, w) else (i, v)) r

abbrev pub first_of_min : List (ℕ × ℕ) → Option ℕ
first_of_min [] = none
first_of_min (best ∷ r) = some (min_by_val best r).0

unfoldable pub find_smallest_present : List (Option ℕ) → Option ℕ
unfolding present min_by_val enumerate_from
find_smallest_present vec = first_of_min (present (enumerate_from 0 vec))

abbrev pub Transition : Type 0 → Type 0 → Type 0
Transition S E1 = TransitionCondition × S × E1

-- The search for one condition's identifier: where in the whole buffer it starts.
unfoldable pub find_identifier : Bytes → ℕ → TransitionCondition → Outcome (Option ℕ)
unfolding slice windows position bytes_eq
find_identifier input_buffer parsed_length (string_id identifier visible) =
    let start = parsed_length - length identifier in
    do
      sub_slice ← slice start (length input_buffer) input_buffer
      if length identifier == 0
          then panicked
          else ok (
              shift
                (position (λ window. bytes_eq window identifier)
                  (windows (length identifier) sub_slice))
                start)

-- The loop that fills `matches`.
unfoldable pub find_matches :
    {S E1 : Type 0} → Bytes → ℕ → List (Transition S E1) → Outcome (List (Option ℕ))
unfolding find_identifier
find_matches input_buffer parsed_length [] = ok []
find_matches input_buffer parsed_length ((condition, _, _) ∷ transitions) = do
  m ← find_identifier input_buffer parsed_length condition
  matches ← find_matches input_buffer parsed_length transitions
  ok (m ∷ matches)

-- `\b`, space, `\b`
abbrev pub delete_char : Bytes
delete_char = 8 ∷ 32 ∷ 8 ∷ []

-- What a match at `match_idx` shows: the bytes up to `end`, or the deletion of what was shown of the
-- identifier.
unfoldable pub shown : Bytes → ℕ → ℕ → ℕ → Outcome Bytes
unfolding slice checked_sub cycle_take
shown input_buffer parsed_length match_idx end =
    if ltb parsed_length end then slice parsed_length end input_buffer else do
      excess ← checked_sub parsed_length match_idx
      ok (cycle_take (length delete_char * excess) delete_char delete_char)

abbrev pub end_of : Bool → ℕ → Bytes → ℕ
end_of visible match_idx identifier = if visible then match_idx + length identifier else match_idx

abbrev pub Stepped : Type 0 → Type 0 → Type 0 → Type 0
Stepped S E1 E2 = Outcome (Option (StepResults E1 E2) × BufferParser S E1 E2)

module _ {S E1 : Type 0} where
  -- The assertion of `check_max_history_length`, for one entry of the map.
  unfoldable pub check_transitions : ℕ → List (Transition S E1) → Outcome (Unit {0})
  check_transitions max_history_length [] = ok tt
  check_transitions max_history_length ((string_id identifier _, _, _) ∷ transitions) =
      if ltb (length identifier) max_history_length
      then check_transitions max_history_length transitions
      else panicked

  unfoldable pub check_max_history_length :
      ℕ → HashMap S (List (Transition S E1)) → Outcome (Unit {0})
  unfolding check_transitions
  check_max_history_length max_history_length [] = ok tt
  check_max_history_length max_history_length ((_, transitions) ∷ m) = do
    _ ← check_transitions max_history_length transitions
    check_max_history_length max_history_length m

module _ {S E1 E2 : Type 0} where
  -- The branch of a match: everything up to the end of the identifier gets drained.
  unfoldable pub take_transition : BufferParser S E1 E2 → ℕ → Transition S E1 → Stepped S E1 E2
  unfolding shown drain
  take_transition p match_idx (string_id identifier visible, state, event) = do
    step ← shown p.input_buffer p.parsed_length match_idx (end_of visible match_idx identifier)
    input_buffer ← drain (match_idx + length identifier) p.input_buffer
    ok (
      some (state_change event step),
      record p { input_buffer = input_buffer; parsed_length = 0; state = state },
    )

  module _ ⦃e : Eq S⦄ where
    -- The branch of no match: the rest is echoed, and a bounded history is kept.
    unfoldable pub echo_rest : BufferParser S E1 E2 → Stepped S E1 E2
    unfolding slice drain
    echo_rest p = do
      echo_vec ← slice p.parsed_length (length p.input_buffer) p.input_buffer
      input_buffer ← drain (length p.input_buffer - p.max_history_length) p.input_buffer
      event ← index p.echo_events p.state
      ok (
        some (echo event echo_vec),
        record p { input_buffer = input_buffer; parsed_length = length input_buffer },
      )

    abbrev pub on_best :
        BufferParser S E1 E2 → List (Transition S E1) → List (Option ℕ) → Option ℕ → Stepped S E1 E2
    on_best p transitions matches none = echo_rest p
    on_best p transitions matches (some best_match) = do
      found ← unwrap (get_elem? matches best_match)
      match_idx ← unwrap found
      transition ← unwrap (get_elem? transitions best_match)
      take_transition p match_idx transition

    unfoldable pub step : BufferParser S E1 E2 → Stepped S E1 E2
    unfolding find_matches find_smallest_present take_transition echo_rest
    step p = if length p.input_buffer == p.parsed_length then ok (none, p) else do
      transitions ← index p.state_map p.state
      matches ← find_matches p.input_buffer p.parsed_length transitions
      on_best p transitions matches (find_smallest_present matches)

    unfoldable pub buffer : BufferParser S E1 E2 → Bytes → BufferParser S E1 E2
    buffer p input = record p { input_buffer = p.input_buffer ++ input }

    -- The loop of `parse`, with fuel for the calls of `step`.
    unfoldable pub parse_loop :
        ℕ
        → BufferParser S E1 E2
        → List (StepResults E1 E2)
        → Outcome (List (StepResults E1 E2) × BufferParser S E1 E2)
    unfolding step
    parse_loop zero p ret = exhausted
    parse_loop (suc fuel) p ret = do
      (result, p') ← step p
      elim result [ none ↦ ok (ret, p') | some s ↦ parse_loop fuel p' (ret ++ s ∷ []) ]

    -- A step drains a byte at least, or is the last but one: the fuel is enough for any buffer.
    unfoldable pub parse :
        BufferParser S E1 E2 → Bytes → Outcome (List (StepResults E1 E2) × BufferParser S E1 E2)
    unfolding parse_loop buffer
    parse p input = let q = buffer p input in parse_loop (length q.input_buffer + 2) q []

  unfoldable pub new :
      S → HashMap S (List (Transition S E1)) → HashMap S E2 → Outcome (BufferParser S E1 E2)
  unfolding check_max_history_length
  new state state_map echo_events = do
    _ ← check_max_history_length 128 state_map
    ok (record {
      input_buffer = [];
      parsed_length = 0;
      state = state;
      state_map = state_map;
      echo_events = echo_events;
      max_history_length = 128;
    })
