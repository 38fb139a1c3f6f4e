-- ===== src/Parsing/Steps.antt =====
-- One call of `step` against one result of the reader of the whole text.
use llmsh.Base.{
  ℕ, zero, suc, ◌+◌, ◌-◌, ◌≤◌, ◌<◌, Bool, false, Option, none, some, List, [], ◌∷◌, map, Bytes, ◌≡◌,
  refl, ap, ◌>>=◌, ◌⊎◌, arith, Eq, get, ok, index, length, get_elem?, take, drop, shift, slice,
  drain, length-drop, take-all, ◌==◌,
}
use llmsh.Parsing.{
  StepResults, state_change, echo, string_id, Transition, BufferParser, find_matches,
  find_smallest_present, take_transition, echo_rest, on_best, step, shown, end_of,
}
use llmsh.Parsing.Reference.{identifiers, Reader, Reads}
use llmsh.Parsing.Shown.{slice_ok, drain_ok}
use llmsh.Parsing.Simulation.{Sim}

-- A transition stands where its identifier does.
pub get_elem?-identifiers :
    {S E1 : Type 0} (ts : List (Transition S E1)) (k : ℕ) {id : Bytes}
    → get_elem? (identifiers ts) k ≡ some id
    → (v : Bool) × (s : S) × (ev : E1) × (get_elem? ts k ≡ some (string_id id v, s, ev))
get_elem?-identifiers [] k h = cc
get_elem?-identifiers ((string_id id v, s, ev) ∷ ts) zero h =
    (v, s, ev, ap (λ t. some (string_id t v, s, ev)) (cc))
get_elem?-identifiers ((string_id id v, s, ev) ∷ ts) (suc k) h = get_elem?-identifiers ts k h

-- Where the search of the buffer found something, behind the shift.
pub searched :
    (δ : ℕ) (os : List (Option ℕ)) (k : ℕ) {i : ℕ}
    → get_elem? (map (λ o. shift o δ) os) k ≡ some (some i)
    → (m : ℕ) × (get_elem? os k ≡ some (some m)) × (i ≡ m + δ)
searched δ [] k h = cc
searched δ (none ∷ os) zero h = cc
searched δ (some m ∷ os) zero h = (m, refl, cc)
searched δ (o ∷ os) (suc k) h = searched δ os k h

module _ {S E1 E2 : Type 0} ⦃e : Eq S⦄ where
  -- The maps and the bound on the history stay as they are.
  pub record SameMaps (p q : BufferParser S E1 E2) : Type 0 where
    pub state_map : p.state_map ≡ q.state_map
    pub echo_events : p.echo_events ≡ q.echo_events
    pub max_history_length : p.max_history_length ≡ q.max_history_length

  -- `step` and the reader go on together.
  pub record StepsTogether (p : BufferParser S E1 E2) (r : Reader S) : Type 0 where
    pub result : StepResults E1 E2
    pub p' : BufferParser S E1 E2
    pub r' : Reader S
    pub steps : step p ≡ ok (some result, p')
    pub reads : Reads p.state_map p.echo_events r result r'
    pub sim : Sim p' r'
    pub same : SameMaps p p'
    pub progress :
        (p'.parsed_length ≡ length p'.input_buffer)
        ⊎ (length p'.input_buffer < length p.input_buffer)

  pub step_unread :
      (p : BufferParser S E1 E2) (ts : List (Transition S E1))
      → p.parsed_length < length p.input_buffer
      → get p.state_map p.state ≡ some ts
      → step p ≡ (
          find_matches p.input_buffer p.parsed_length ts >>= λ ms.
          on_best p ts ms (find_smallest_present ms))
  unfolding step
  step_unread p ts lt h =
      let unread : (length p.input_buffer == p.parsed_length) ≡ false = ground arith in
      rw unread (rw h)

  take_transition_eq :
      (p : BufferParser S E1 E2) (i : ℕ) (id : Bytes) (v : Bool) (s : S) (ev : E1)
      → take_transition p i (string_id id v, s, ev) ≡ (
          shown p.input_buffer p.parsed_length i (end_of v i id) >>= λ bytes.
          drain (i + length id) p.input_buffer >>= λ b. ok (
            some (state_change ev bytes),
            record p { input_buffer = b; parsed_length = 0; state = s },
          ))
  unfolding take_transition
  take_transition_eq p i id v s ev = refl

  pub take_transition_lem :
      (p : BufferParser S E1 E2) (i : ℕ) (id : Bytes) (v : Bool) (s : S) (ev : E1) {bytes : Bytes}
      → shown p.input_buffer p.parsed_length i (end_of v i id) ≡ ok bytes
      → i + length id ≤ length p.input_buffer
      → take_transition p i (string_id id v, s, ev)
        ≡ ok (
          some (state_change ev bytes),
          record p {
            input_buffer = drop (i + length id) p.input_buffer;
            parsed_length = 0;
            state = s;
          },
        )
  take_transition_lem p i id v s ev h le =
      rw (take_transition_eq p i id v s ev, h, drain_ok (i + length id) p.input_buffer le)

  echo_rest_eq :
      (p : BufferParser S E1 E2)
      → echo_rest p ≡ (
          slice p.parsed_length (length p.input_buffer) p.input_buffer >>= λ bytes.
          drain (length p.input_buffer - p.max_history_length) p.input_buffer >>= λ b.
          index p.echo_events p.state >>= λ ev.
          ok (some (echo ev bytes), record p { input_buffer = b; parsed_length = length b }))
  unfolding echo_rest
  echo_rest_eq p = refl

  unfoldable pub kept : BufferParser S E1 E2 → Bytes
  kept p = drop (length p.input_buffer - p.max_history_length) p.input_buffer

  pub echo_rest_lem :
      (p : BufferParser S E1 E2) {ev : E2}
      → p.parsed_length ≤ length p.input_buffer
      → get p.echo_events p.state ≡ some ev
      → echo_rest p
        ≡ ok (
          some (echo ev (drop p.parsed_length p.input_buffer)),
          record p { input_buffer = kept p; parsed_length = length (kept p) },
        )
  unfolding kept
  echo_rest_lem p le h =
      let b = p.input_buffer in
      let rest : take (length b - p.parsed_length) (drop p.parsed_length b)
          ≡ drop p.parsed_length b =
        take-all _ _ (omega (arith, length-drop p.parsed_length b)) in
      rw (
        echo_rest_eq p,
        slice_ok p.parsed_length (length b) b le (omega arith),
        drain_ok (length b - p.max_history_length) b (omega arith),
        h,
        rest,
      )
