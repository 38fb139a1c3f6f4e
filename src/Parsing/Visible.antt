-- ===== src/Parsing/Visible.antt =====
-- llmsh/src/parsing.rs, `parse`: what its results show when the identifiers are visible.
use llmsh.Base.{
  ℕ, zero, suc, ◌+◌, ◌-◌, ◌≤◌, Bool, true, some, List, [], ◌∷◌, ◌++◌, Bytes, ◌≡◌, sym, ap, ◌∙◌,
  arith, Eq, get, HashMap, ok, length, length-append, get_elem?, All, take, drop, drop-all,
  drop-drop, take-append-drop, ltb, dec_lt, drop-append_add, append-nil,
}
use mathlib.Core.Path.{subst}
use llmsh.Parsing.{
  StepResults, state_change, echo, Transition, string_id, BufferParser, parse, end_of,
}
use llmsh.Parsing.Search.{At}
use llmsh.Parsing.Leftmost.{IsLeftmost, IsNonEmpty}
use llmsh.Parsing.Reference.{identifiers, Reader, Reads, matched, missed, Runs, done, more, display}
use llmsh.Parsing.Chunks.{Moves-Reads}
use llmsh.Parsing.Streams.{IsClear, IsClear-feed, IsClear-Moves, identifiers-get_elem?}
use llmsh.Parsing.Total.{parse-Runs}
use llmsh.Parsing.Parses.{IsValid, IsClear-Sim}

-- All that the results show.
abbrev pub output : {E1 E2 : Type 0} → List (StepResults E1 E2) → Bytes
output [] = []
output (state_change event step ∷ results) = step ++ output results
output (echo event step ∷ results) = step ++ output results

abbrev pub AreVisible : {S E1 : Type 0} → List (Transition S E1) → Type 0
AreVisible [] = Unit
AreVisible ((string_id _ visible, _, _) ∷ ts) = (visible ≡ true) × AreVisible ts

AreVisible-get_elem? :
    {S E1 : Type 0} (ts : List (Transition S E1)) (k : ℕ) {id : Bytes} {v : Bool} {s : S} {ev : E1}
    → AreVisible ts
    → get_elem? ts k ≡ some (string_id id v, s, ev)
    → v ≡ true
AreVisible-get_elem? [] k a h = cc
AreVisible-get_elem? ((string_id id v, s, ev) ∷ ts) zero a h = let a0 = a.0 in cc
AreVisible-get_elem? ((string_id id v, s, ev) ∷ ts) (suc k) a h = AreVisible-get_elem? ts k a.1 h

-- What lies between two places, and then the rest.
take-drop : (m n : ℕ) (xs : Bytes) → m ≤ n → take (n - m) (drop m xs) ++ drop n xs ≡ drop m xs
take-drop m n xs le =
    let e : m + (n - m) ≡ n = omega arith in
    ap (λ t. take (n - m) (drop m xs) ++ t)
      (ap (λ t. drop t xs) (sym e) ∙ sym (drop-drop (n - m) m xs))
    ∙ take-append-drop (n - m) (drop m xs)

module _ {S E1 E2 : Type 0} ⦃e : Eq S⦄ (state_map : HashMap S (List (Transition S E1)))
    (echo_events : HashMap S E2)
    (nonempty : (s : S) (ts : List (Transition S E1))
      → get state_map s ≡ some ts
      → All IsNonEmpty (identifiers ts))
    (visible : (s : S) (ts : List (Transition S E1))
      → get state_map s ≡ some ts
      → AreVisible ts) where
  matched_output :
      (r : Reader S) (ts : List (Transition S E1)) (k i : ℕ) (id : Bytes) (v : Bool) (s : S)
      (ev : E1)
      → IsClear state_map echo_events nonempty r
      → get state_map r.state ≡ some ts
      → get_elem? ts k ≡ some (string_id id v, s, ev)
      → IsLeftmost (identifiers ts) r.text k i
      → display r.text r.seen i (end_of v i id) ++ drop (i + length id) r.text ≡ drop r.seen r.text
  matched_output r ts k i id v s ev c g listed l =
      let listed' = identifiers-get_elem? state_map echo_events nonempty ts k listed in
      let same : l.id ≡ id = let l1 = l.listed in cc in
      let at : At id i r.text = subst (λ t. At t i r.text) same l.at in
      let shows : v ≡ true = AreVisible-get_elem? ts k (visible r.state ts g) listed in
      elim (dec_lt r.seen (i + length id)) [
        | yes lt ↦
            let new : ltb r.seen (i + length id) ≡ true = ground arith in
            rw shows (rw new (take-drop r.seen (i + length id) r.text (omega arith)))
        | no ge ↦ absurd (c.clear ts g k id listed' i (omega arith) at)
      ]

  Runs-output :
      {r : Reader S} {xs : List (StepResults E1 E2)} {r' : Reader S}
      → Runs state_map echo_events r xs r'
      → IsClear state_map echo_events nonempty r
      → output xs ≡ drop r.seen r.text
  Runs-output (done {r = r} h) c = sym (drop-all r.seen r.text (omega arith))
  Runs-output (more {r = r} {result = x} {r' = r'} {results = xs} m rest) c = step_output m (
      Runs-output rest (
        IsClear-Moves state_map echo_events nonempty r.text r.state x r'
          (Moves-Reads state_map echo_events r r' x m)))
    where
      step_output :
          Reads state_map echo_events r x r'
          → output xs ≡ drop r'.seen r'.text
          → output (x ∷ xs) ≡ drop r.seen r.text
      step_output (matched ts k i id v s ev lt g listed l res e) ih =
          ap (λ y. output (y ∷ xs)) res
          ∙ ap (λ t. display r.text r.seen i (end_of v i id) ++ t)
              (ih ∙ ap (λ r. drop r.seen r.text) e)
          ∙ matched_output r ts k i id v s ev c g listed l
      step_output (missed ts ev lt g nowhere has res e) ih =
          ap (λ y. output (y ∷ xs)) res
          ∙ ap (λ t. drop r.seen r.text ++ t)
              (ih ∙ ap (λ r. drop r.seen r.text) e ∙ drop-all (length r.text) r.text (omega arith))
          ∙ append-nil (drop r.seen r.text)

module _ {S E1 E2 : Type 0} ⦃e : Eq S⦄ where
  -- If all identifiers of a valid parser are visible and nothing is left unread, a call of `parse`
  -- returns, and its results show the input byte for byte, whatever transitions it makes.
  pub output-parse :
      (p : BufferParser S E1 E2) (input : Bytes)
      → IsValid p
      → p.parsed_length ≡ length p.input_buffer
      → ((s : S) (ts : List (Transition S E1)) → get p.state_map s ≡ some ts → AreVisible ts)
      → (results : List (StepResults E1 E2)) × (p' : BufferParser S E1 E2) × (parse p input
          ≡ ok (results, p'))
        × (output results ≡ input)
  output-parse p input v read visible =
      let r = v.reader in
      let a = parse-Runs p r input v.configured v.sim in
      let clear =
        IsClear-feed p.state_map p.echo_events v.configured.nonempty r input
          (IsClear-Sim p r v.configured v.sim) in
      let d = v.sim.dropped in
      let seen : r.seen ≡ length r.text + 0 =
        ap (λ r. r.seen) v.sim.is_view
        ∙ omega (arith, length-append d p.input_buffer)
        ∙ ap (λ r. length r.text + 0) (sym v.sim.is_view) in
      (
        a.results,
        a.p',
        a.parses,
        Runs-output p.state_map p.echo_events v.configured.nonempty visible a.runs clear
            ∙ ap (λ n. drop n (r.text ++ input)) seen
            ∙ drop-append_add r.text input 0,
      )
