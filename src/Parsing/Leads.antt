-- ===== src/Parsing/Leads.antt =====
-- The transitions of a text, one after the other: what `parse` does to the state machine.
use llmsh.Base.{
  ℕ, ◌+◌, Bool, some, List, [], ◌∷◌, ◌++◌, Bytes, Eq, get, HashMap, ok, length, get_elem?, drop,
  All, ◌≡◌, refl, sym, ap, ◌∙◌,
}
use mathlib.Core.Path.{ap₂, subst}
use llmsh.Parsing.{StepResults, Transition, string_id, state_change, BufferParser, parse}
use llmsh.Parsing.Leftmost.{NoMatch, IsLeftmost, IsNonEmpty}
use llmsh.Parsing.Reference.{identifiers, Reader, Runs, done, more}
use llmsh.Parsing.Chunks.{changes, Moves, moves, stays, Moves-Reads, Moves-same}
use llmsh.Parsing.Streams.{
  IsClear, IsClear-feed, NoMatch-read, Runs-read, changes-cons, IsClear-Moves,
}
use llmsh.Parsing.Parses.{IsValid, IsClear-Sim, parse-total}

module _ {S E1 : Type 0} ⦃e : Eq S⦄ (state_map : HashMap S (List (Transition S E1))) where
  -- The leftmost identifier of the state makes the transition, and what is behind it is read in the next
  -- state, until the rest holds no identifier.
  pub data Leads : Bytes → S → List E1 → Bytes → S → Type 0 where
    rests :
        {text : Bytes} {state : S} (transitions : List (Transition S E1))
        → get state_map state ≡ some transitions
        → NoMatch (identifiers transitions) text
        → Leads text state [] text state
    leads :
        {text : Bytes} {state : S} (transitions : List (Transition S E1)) (k i : ℕ) (id : Bytes)
        (visible : Bool) (s : S) (event : E1) (events : List E1) (rest : Bytes) (last : S)
        → get state_map state ≡ some transitions
        → get_elem? transitions k ≡ some (string_id id visible, s, event)
        → IsLeftmost (identifiers transitions) text k i
        → Leads (drop (i + length id) text) s events rest last
        → Leads text state (event ∷ events) rest last

module _ {S E1 E2 : Type 0} ⦃e : Eq S⦄ (state_map : HashMap S (List (Transition S E1)))
    (echo_events : HashMap S E2)
    (nonempty : (s : S) (ts : List (Transition S E1))
      → get state_map s ≡ some ts
      → All IsNonEmpty (identifiers ts)) where
  stay :
      (r r1 : Reader S) (x : StepResults E1 E2) {results : List (StepResults E1 E2)} {r' : Reader S}
      (ts : List (Transition S E1))
      → get state_map r.state ≡ some ts
      → NoMatch (identifiers ts) r.text
      → Moves state_map echo_events r.text r.state x r1
      → Runs state_map echo_events r1 results r'
      → (changes (x ∷ results) ≡ []) × (r'.state ≡ r.state)
  stay r r1 x ts g nowhere (moves ts' k i id v s ev b g' listed l res e) runs =
      let same : ts ≡ ts' = cc in
      absurd (subst (λ t. NoMatch (identifiers t) r.text) same nowhere k l.id l.listed i l.at)
  stay r r1 x ts g nowhere (stays ts' ev b g' nowhere' res e) runs =
      let read : r1.seen ≡ length r1.text = ap (λ r. r.seen) e ∙ sym (ap (λ r. length r.text) e) in
      let (none_left, same) = Runs-read state_map echo_events nonempty runs read in
      (ap₂ (λ y ys. changes (y ∷ ys)) res none_left, ap (λ r. r.state) same ∙ ap (λ r. r.state) e)

  pub Runs-Leads :
      {r : Reader S} {results : List (StepResults E1 E2)} {r' : Reader S} {events : List E1}
      {rest : Bytes} {last : S}
      → Runs state_map echo_events r results r'
      → IsClear state_map echo_events nonempty r
      → Leads state_map r.text r.state events rest last
      → (changes results ≡ events) × (r'.state ≡ last)
  Runs-Leads (done read) clear (rests ts g nowhere) = (refl, refl)
  Runs-Leads (done {r = r} read) clear
        (leads ts k i id v s ev events rest last g listed l leading) =
      absurd (NoMatch-read state_map echo_events nonempty r ts clear read g k l.id l.listed i l.at)
  Runs-Leads (more {r = r} {result = x} {r' = r1} h runs) clear (rests ts g nowhere) =
      stay r r1 x ts g nowhere (Moves-Reads state_map echo_events r r1 x h) runs
  Runs-Leads (more {r = r} {result = x} {r' = r1} h runs) clear
        (leads ts k i id v s ev events rest last g listed l leading) =
      let own = moves ts k i id v s ev [] g listed l refl refl in
      let made = Moves-Reads state_map echo_events r r1 x h in
      let (same, change) =
        Moves-same state_map echo_events r.text r.state x (state_change ev []) r1 _ made own in
      let (next, at_last) =
        Runs-Leads runs (IsClear-Moves state_map echo_events nonempty r.text r.state x r1 made) (
          subst (λ (r : Reader S). Leads state_map r.text r.state events rest last) (sym same)
            leading) in
      (changes-cons state_map echo_events nonempty x _ ∙ ap₂ ◌++◌ change next, at_last)

module _ {S E1 E2 : Type 0} ⦃e : Eq S⦄ where
  -- Where a valid parser's text since the last transition leads with the new input, in which every
  -- identifier is leftmost in its turn, there `parse` leads: it returns, its transitions are these events,
  -- in order, and the parser is in the last of the states.
  pub parse-Leads :
      (p : BufferParser S E1 E2) (input : Bytes) (v : IsValid p) {events : List E1} {rest : Bytes}
      {last : S}
      → Leads p.state_map (v.reader.text ++ input) v.reader.state events rest last
      → (results : List (StepResults E1 E2)) × (p' : BufferParser S E1 E2) × (parse p input
          ≡ ok (results, p'))
        × (changes results ≡ events)
        × (p'.state ≡ last)
  parse-Leads p input v leading =
      let (results, p', v', parsed, runs) = parse-total p input v in
      let clear =
        IsClear-feed p.state_map p.echo_events v.configured.nonempty v.reader input
          (IsClear-Sim p v.reader v.configured v.sim) in
      let (are, at) =
        Runs-Leads p.state_map p.echo_events v.configured.nonempty runs clear leading in
      (results, p', parsed, are, ap (λ r. r.state) (sym v'.sim.is_view) ∙ at)
