-- ===== src/Examples/ParsingTests.antt =====
-- The tests of llmsh/src/parsing.rs.
use llmsh.Base.{
  ℕ, Bool, true, false, none, some, List, [], ◌∷◌, ◌++◌, Bytes, codes, Outcome, ok, ◌>>=◌, String,
  ◌≡◌, refl, nat_eq, get,
}
use llmsh.Parsing.{
  StepResults, state_change, echo, string_id, BufferParser, new, parse, find_smallest_present,
}

abbrev two_state_bidirection_parser : String → String → Bool → Outcome (BufferParser ℕ ℕ Bool)
two_state_bidirection_parser zero_to_one_id one_to_zero_id visible =
    new 0
      ((0, (string_id (codes zero_to_one_id) visible, 1, 0) ∷ [])
        ∷ (1, (string_id (codes one_to_zero_id) visible, 0, 1) ∷ [])
        ∷ [])
      ((0, true) ∷ (1, false) ∷ [])

-- The results of feeding the inputs one after the other.
abbrev run : BufferParser ℕ ℕ Bool → List Bytes → Outcome (List (StepResults ℕ Bool))
run p [] = ok []
run p (input ∷ inputs) = do (steps, p') ← parse p input; rest ← run p' inputs; ok (steps ++ rest)

abbrev start : Bool → List Bytes → Outcome (List (StepResults ℕ Bool))
start visible inputs = do
  p ← two_state_bidirection_parser "transition1" "transition0" visible
  run p inputs

test_transition :
    start true (codes "We transition using transition1 to state 1" ∷ [])
    ≡ ok (
        state_change 0 (codes "We transition using transition1")
        ∷ echo false (codes " to state 1")
        ∷ [])
unfolding new parse get
test_transition = refl

test_three_transitions :
    start false (codes "transition1transition0transition1" ∷ [])
    ≡ ok (state_change 0 [] ∷ state_change 1 [] ∷ state_change 0 [] ∷ [])
unfolding new parse get
test_three_transitions = refl

test_identifier_segmented :
    start false (codes "this input is segmented and tran" ∷ codes "sition1 is split in half" ∷ [])
    ≡ ok (
        echo true (codes "this input is segmented and tran")
        ∷ state_change 0 (8 ∷ 32 ∷ 8 ∷ 8 ∷ 32 ∷ 8 ∷ 8 ∷ 32 ∷ 8 ∷ 8 ∷ 32 ∷ 8 ∷ [])
        ∷ echo false (codes " is split in half")
        ∷ [])
unfolding new parse get
test_identifier_segmented = refl

test_find_smallest_present : find_smallest_present (some 2 ∷ some 1 ∷ some 4 ∷ none ∷ []) ≡ some 1
unfolding find_smallest_present
test_find_smallest_present = refl

test_find_smallest_present_tie :
    find_smallest_present (some 1 ∷ some 1 ∷ some 4 ∷ none ∷ []) ≡ some 0
unfolding find_smallest_present
test_find_smallest_present_tie = refl
