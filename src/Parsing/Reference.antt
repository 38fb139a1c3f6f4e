-- ===== src/Parsing/Reference.antt =====
-- What the buffer parser is to do, with no bounded buffer: a reader of the whole text since the last
-- transition. It looks for the leftmost identifier of its state in all of that text.
use llmsh.Base.{
  ℕ, zero, suc, ◌+◌, ◌-◌, ◌<◌, Bool, some, List, [], ◌∷◌, ◌++◌, Bytes, ◌≡◌, Eq, get, HashMap, ltb,
  if◌then◌else◌, length, get_elem?, take, drop,
}
use llmsh.Parsing.{StepResults, state_change, echo, string_id, Transition, delete_char, end_of}
use llmsh.Parsing.Leftmost.{NoMatch, IsLeftmost}

abbrev pub identifiers : {S E1 : Type 0} → List (Transition S E1) → List Bytes
identifiers [] = []
identifiers ((string_id identifier _, _, _) ∷ transitions) = identifier ∷ identifiers transitions

-- The text since the last transition, how much of it was shown, and the state.
pub record Reader (S : Type 0) : Type 0 where
  pub text : Bytes
  pub seen : ℕ
  pub state : S

-- `n` deletions.
abbrev pub deletions : ℕ → Bytes
deletions zero = []
deletions (suc n) = delete_char ++ deletions n

-- What becomes visible when a match at `i` ends the text at `end`, with `seen` bytes shown.
abbrev pub display : Bytes → ℕ → ℕ → ℕ → Bytes
display text seen i end =
    if ltb seen end then take (end - seen) (drop seen text) else deletions (seen - i)

module _ {S E1 E2 : Type 0} ⦃e : Eq S⦄ (state_map : HashMap S (List (Transition S E1)))
    (echo_events : HashMap S E2) where
  -- One result. Without an identifier in the text, all that is new is echoed.
  pub data Reads (r : Reader S) (result : StepResults E1 E2) (r' : Reader S) : Type 0 where
    matched :
        (transitions : List (Transition S E1)) (k i : ℕ) (identifier : Bytes) (visible : Bool)
        (state : S) (event : E1)
        → r.seen < length r.text
        → get state_map r.state ≡ some transitions
        → get_elem? transitions k ≡ some (string_id identifier visible, state, event)
        → IsLeftmost (identifiers transitions) r.text k i
        → result ≡ state_change event (display r.text r.seen i (end_of visible i identifier))
        → r' ≡ record { text = drop (i + length identifier) r.text; seen = 0; state = state }
        → Reads r result r'
    missed :
        (transitions : List (Transition S E1)) (event : E2)
        → r.seen < length r.text
        → get state_map r.state ≡ some transitions
        → NoMatch (identifiers transitions) r.text
        → get echo_events r.state ≡ some event
        → result ≡ echo event (drop r.seen r.text)
        → r' ≡ record r { seen = length r.text }
        → Reads r result r'

  -- The results of reading until all of the text was seen.
  pub data Runs : Reader S → List (StepResults E1 E2) → Reader S → Type 0 where
    done : {r : Reader S} → r.seen ≡ length r.text → Runs r [] r
    more :
        {r : Reader S} {result : StepResults E1 E2} {r' : Reader S}
        {results : List (StepResults E1 E2)} {r'' : Reader S}
        → Reads r result r'
        → Runs r' results r''
        → Runs r (result ∷ results) r''

-- New output arrives.
abbrev pub feed : {S : Type 0} → Reader S → Bytes → Reader S
feed r input = record r { text = r.text ++ input }
