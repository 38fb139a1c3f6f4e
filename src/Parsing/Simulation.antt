-- ===== src/Parsing/Simulation.antt =====
-- The buffer parser keeps a bounded history, and reads as the reader of the whole text does.
use llmsh.Base.{
  ℕ, suc, ◌+◌, ◌-◌, ◌≤◌, ◌<◌, Bool, false, ◌||◌, Option, none, some, List, [], ◌∷◌, ◌++◌, map,
  Bytes, ◌≡◌, refl, ap, ◌∙◌, ◌>>=◌, ◌⊎◌, arith, Eq, get, HashMap, ok, ltb, length, get_elem?, take,
  drop, All, shift, length-drop, take-all, drop-append_add, ◌==◌,
}
use mathlib.Core.Path.{ap₂}
use llmsh.Parsing.{
  TransitionCondition, string_id, Transition, BufferParser, find_identifier, find_matches,
}
use llmsh.Parsing.Search.{At, find, find_skip}
use llmsh.Parsing.Leftmost.{found_in, IsNonEmpty}
use llmsh.Parsing.Reference.{identifiers, Reader}

-- The search of `step` for one identifier.
pub search_from : Bytes → ℕ → Bytes → Option ℕ
search_from input_buffer parsed_length id =
    let start = parsed_length - length id in shift (find id (drop start input_buffer)) start

find_identifier_lem :
    (b : Bytes) (n : ℕ) (id : Bytes) (v : Bool)
    → n ≤ length b
    → 0 < length id
    → find_identifier b n (string_id id v) ≡ ok (search_from b n id)
unfolding find_identifier search_from find
find_identifier_lem b n id v le pos =
    let start : ℕ = n - length id in
    let no_panic : (ltb (length b) start || ltb (length b) (length b)) ≡ false = ground arith in
    let has_id : (length id == 0) ≡ false = ground arith in
    let rest : take (length b - start) (drop start b) ≡ drop start b =
      take-all _ _ (omega (arith, length-drop start b)) in
    rw no_panic (rw rest (rw has_id))

find_matches_cons :
    {S E1 : Type 0} (b : Bytes) (n : ℕ) (c : TransitionCondition) (s : S) (e : E1)
    (transitions : List (Transition S E1))
    → find_matches b n ((c, s, e) ∷ transitions)
      ≡ (find_identifier b n c >>= λ m. find_matches b n transitions >>= λ ms. ok (m ∷ ms))
unfolding find_matches
find_matches_cons b n c s e transitions = refl

abbrev pub searches : Bytes → ℕ → List Bytes → List (Option ℕ)
searches b n ids = map (search_from b n) ids

pub find_matches_lem :
    {S E1 : Type 0} (b : Bytes) (n : ℕ) (transitions : List (Transition S E1))
    → n ≤ length b
    → All IsNonEmpty (identifiers transitions)
    → find_matches b n transitions ≡ ok (searches b n (identifiers transitions))
find_matches_lem b n [] le pos = unfold find_matches in refl
find_matches_lem b n ((string_id id v, s, e) ∷ transitions) le (pos, rest) = rw (
  find_matches_cons b n (string_id id v) s e transitions,
  find_identifier_lem b n id v le pos,
  find_matches_lem b n transitions le rest,
)

shift_comm : (o : Option ℕ) (a b : ℕ) → shift o (a + b) ≡ shift (shift o b) a
shift_comm none a b = refl
shift_comm (some i) a b = ap some (omega arith)

-- Searching the whole text finds what the search of the buffer finds, moved by what was dropped.
search_text :
    (dropped b : Bytes) (n : ℕ) (id : Bytes)
    → ((j : ℕ) → j < length dropped + (n - length id) → ¬ At id j (dropped ++ b))
    → find id (dropped ++ b) ≡ shift (search_from b n id) (length dropped)
unfolding search_from
search_text dropped b n id clean =
    let start : ℕ = n - length id in
    find_skip id (length dropped + start) (dropped ++ b) clean
    ∙ ap (λ t. shift (find id t) (length dropped + start)) (drop-append_add dropped b start)
    ∙ shift_comm (find id (drop start b)) (length dropped) start

module _ {S E1 E2 : Type 0} ⦃e : Eq S⦄ where
  -- The maps know every state, and no identifier is empty or as long as the history.
  pub record AreConfigured (state_map : HashMap S (List (Transition S E1)))
      (echo_events : HashMap S E2) (max_history_length : ℕ) : Type 0 where
    pub has_transitions : (s : S) → (ts : List (Transition S E1)) × (get state_map s ≡ some ts)
    pub has_echo : (s : S) → (ev : E2) × (get echo_events s ≡ some ev)
    pub nonempty :
        (s : S) (ts : List (Transition S E1))
        → get state_map s ≡ some ts
        → All IsNonEmpty (identifiers ts)
    pub short :
        (s : S) (ts : List (Transition S E1))
        → get state_map s ≡ some ts
        → All (λ id. length id < max_history_length) (identifiers ts)

  abbrev pub IsConfigured : BufferParser S E1 E2 → Type 0
  IsConfigured p = AreConfigured p.state_map p.echo_events p.max_history_length

  -- The reader that `p` stands for, when `dropped` was dropped.
  abbrev pub view : Bytes → BufferParser S E1 E2 → Reader S
  view dropped p = record {
    text = dropped ++ p.input_buffer;
    seen = length dropped + p.parsed_length;
    state = p.state;
  }

  -- The part of the text that was shown holds no identifier of the state.
  abbrev pub IsClean : Bytes → BufferParser S E1 E2 → Type 0
  IsClean dropped p =
      (ts : List (Transition S E1))
      → get p.state_map p.state ≡ some ts
      → (k : ℕ) (id : Bytes) → get_elem? (identifiers ts) k ≡ some id
      → (j : ℕ) → j + length id ≤ length dropped + p.parsed_length
      → ¬ At id j (dropped ++ p.input_buffer)

  -- `p` holds the end of the text that `r` holds: the rest was dropped, and then at least
  -- `max_history_length` bytes were kept of what was shown.
  pub record Sim (p : BufferParser S E1 E2) (r : Reader S) : Type 0 where
    pub dropped : Bytes
    pub is_view : r ≡ view dropped p
    pub seen_le : p.parsed_length ≤ length p.input_buffer
    pub history : (length dropped ≡ 0) ⊎ (p.max_history_length ≤ p.parsed_length)
    pub clean : IsClean dropped p

  -- The search of every identifier, in the whole text.
  pub found-searches :
      (p : BufferParser S E1 E2) (dropped : Bytes) (ids : List Bytes)
      → p.parsed_length ≤ length p.input_buffer
      → (length dropped ≡ 0) ⊎ (p.max_history_length ≤ p.parsed_length)
      → All (λ id. length id < p.max_history_length) ids
      → ((k : ℕ) (id : Bytes)
          → get_elem? ids k ≡ some id
          → (j : ℕ) → j + length id ≤ length dropped + p.parsed_length
          → ¬ At id j (dropped ++ p.input_buffer))
      → found_in (dropped ++ p.input_buffer) ids
        ≡ map (λ o. shift o (length dropped)) (searches p.input_buffer p.parsed_length ids)
  found-searches p dropped [] le history short clean = refl
  found-searches p dropped (id ∷ ids) le history (lt, short) clean =
      ap₂ (λ o os. o ∷ os)
        (search_text dropped p.input_buffer p.parsed_length id
          (λ j below. clean 0 id refl j (omega arith)))
        (found-searches p dropped ids le history short (λ k. clean (suc k)))
