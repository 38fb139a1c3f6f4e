-- ===== src/Parsing/Chunks.antt =====
-- How the shell's output is cut into reads does not matter to the state machine, if the identifiers
-- of a state have one length.
use mathlib.Core.Path.{subst}
use llmsh.Base.{
  ℕ, ◌+◌, Bool, some, List, [], ◌∷◌, ◌++◌, Bytes, ◌≡◌, sym, ap, ◌∙◌, arith, Eq, get, HashMap,
  length, drop, dec_lt, get_elem?, All, All-get_elem?,
}
use llmsh.Parsing.{StepResults, state_change, echo, string_id, Transition}
use llmsh.Parsing.Search.{At-append, At-append_left, At-bounds}
use llmsh.Parsing.Leftmost.{NoMatch, IsLeftmost, IsNonEmpty}
use llmsh.Parsing.Reference.{identifiers, Reader, Reads, matched, missed}

-- The identifiers of one state are equally long.
abbrev pub AreUniform : List Bytes → Type 0
AreUniform ids =
    (k k' : ℕ) (id id' : Bytes)
    → get_elem? ids k ≡ some id
    → get_elem? ids k' ≡ some id'
    → length id ≡ length id'

-- The leftmost match stays leftmost when more output comes.
pub IsLeftmost-append :
    (ids : List Bytes) (text input : Bytes) (k i : ℕ)
    → All IsNonEmpty ids
    → AreUniform ids
    → IsLeftmost ids text k i
    → IsLeftmost ids (text ++ input) k i
IsLeftmost-append ids text input k i nonempty uniform h =
    let fits = At-bounds h.id i text (All-get_elem? IsNonEmpty ids k nonempty h.listed) h.at in
    record {
      id = h.id;
      listed = h.listed;
      at = At-append_left h.id i text input fits h.at;
      least = λ k' id' j listed at. elim (dec_lt (length text) (j + length id')) [
        | yes past ↦
            let same = uniform k k' h.id id' h.listed listed in (omega arith, λ lt. omega arith)
        | no before ↦ h.least k' id' j listed (At-append id' j text input (omega arith) at)
      ];
    }

-- Two leftmost matches are one.
pub IsLeftmost-unique :
    (ids : List Bytes) (text : Bytes) (k k' i i' : ℕ)
    → IsLeftmost ids text k i
    → IsLeftmost ids text k' i'
    → (k ≡ k') × (i ≡ i')
IsLeftmost-unique ids text k k' i i' h h' =
    let (a, b) = h.least k' h'.id i' h'.listed h'.at in
    let (a', b') = h'.least k h.id i h.listed h.at in
    let same : i ≡ i' = omega arith in
    (
      elim (dec_lt k k') [
        | yes lt ↦ let c = b' lt in absurd (omega arith)
        | no ge ↦ elim (dec_lt k' k) [
          | yes lt ↦ let c = b lt in absurd (omega arith)
          | no ge' ↦ omega arith
        ]
      ],
      same,
    )

-- The events of the transitions.
abbrev pub changes : {E1 E2 : Type 0} → List (StepResults E1 E2) → List E1
changes [] = []
changes (state_change event step ∷ results) = event ∷ changes results
changes (echo event step ∷ results) = changes results

module _ {S E1 E2 : Type 0} ⦃e : Eq S⦄ (state_map : HashMap S (List (Transition S E1)))
    (echo_events : HashMap S E2) where
  -- What the next result is for the state machine: a transition at a place, or none.
  pub data Moves (text : Bytes) (state : S) (result : StepResults E1 E2) (r' : Reader S)
      : Type 0 where
    moves :
        (transitions : List (Transition S E1)) (k i : ℕ) (id : Bytes) (visible : Bool) (s : S)
        (event : E1) (shown : Bytes)
        → get state_map state ≡ some transitions
        → get_elem? transitions k ≡ some (string_id id visible, s, event)
        → IsLeftmost (identifiers transitions) text k i
        → result ≡ state_change event shown
        → r' ≡ record { text = drop (i + length id) text; seen = 0; state = s }
        → Moves text state result r'
    stays :
        (transitions : List (Transition S E1)) (event : E2) (shown : Bytes)
        → get state_map state ≡ some transitions
        → NoMatch (identifiers transitions) text
        → result ≡ echo event shown
        → r' ≡ record { text = text; seen = length text; state = state }
        → Moves text state result r'

  move_or_stay :
      (text : Bytes) (ts ts' : List (Transition S E1)) (k i : ℕ)
      → ts ≡ ts'
      → IsLeftmost (identifiers ts) text k i
      → ¬ NoMatch (identifiers ts') text
  move_or_stay text ts ts' k i same l nowhere =
      subst (λ t. NoMatch (identifiers t) text) (sym same) nowhere k l.id l.listed i l.at

  pub Moves-Reads :
      (r r' : Reader S) (result : StepResults E1 E2)
      → Reads state_map echo_events r result r'
      → Moves r.text r.state result r'
  Moves-Reads r r' result (matched ts k i id v s ev lt h listed l res e) =
      moves ts k i id v s ev _ h listed l res e
  Moves-Reads r r' result (missed ts ev lt h nowhere has res e) = stays ts ev _ h nowhere res e

  -- Two results for one text and state make the same move.
  pub Moves-same :
      (text : Bytes) (state : S) (x x' : StepResults E1 E2) (r r' : Reader S)
      → Moves text state x r
      → Moves text state x' r'
      → (r ≡ r') × (changes (x ∷ []) ≡ changes (x' ∷ []))
  Moves-same text state x x' r r' (moves ts k i id v s ev b h listed l res e)
        (moves ts' k' i' id' v' s' ev' b' h' listed' l' res' e') =
      let ts_eq : ts' ≡ ts = cc in
      let (kk, ii) =
        IsLeftmost-unique (identifiers ts) text k k' i i' l
          (subst (λ t. IsLeftmost (identifiers t) text k' i') ts_eq l') in
      let ids : id ≡ id' = cc in
      let states : s ≡ s' = cc in
      let events : ev ≡ ev' = cc in
      (
        cc,
        ap (λ t. changes (t ∷ [])) res
            ∙ ap (λ t. t ∷ []) events
            ∙ ap (λ t. changes (t ∷ [])) (sym res'),
      )
  Moves-same text state x x' r r' (moves ts k i id v s ev b h listed l res e)
        (stays ts' ev' b' h' nowhere res' e') =
      absurd (move_or_stay text ts ts' k i (cc) l nowhere)
  Moves-same text state x x' r r' (stays ts' ev' b' h' nowhere res' e')
        (moves ts k i id v s ev b h listed l res e) =
      absurd (move_or_stay text ts ts' k i (cc) l nowhere)
  Moves-same text state x x' r r' (stays ts ev b h nowhere res e)
        (stays ts' ev' b' h' nowhere' res' e') =
      (e ∙ sym e', ap (λ t. changes (t ∷ [])) res ∙ ap (λ t. changes (t ∷ [])) (sym res'))
