-- ===== src/Parsing/Pieces.antt =====
-- llmsh/src/parsing.rs, `parse`: an input that comes in any number of reads.
use mathlib.Core.Path.{ap₂}
use llmsh.Base.{
  List, [], ◌∷◌, ◌++◌, Bytes, ◌≡◌, refl, sym, ap, ◌∙◌, Eq, get, Outcome, ok, ◌>>=◌, ok-injective,
}
use llmsh.Parsing.{StepResults, BufferParser, parse}
use llmsh.Parsing.Chunks.{changes}
use llmsh.Parsing.Total.{parse-Runs}
use llmsh.Parsing.Parses.{IsValid, IsUniform, parse-append}

abbrev pub joined : Bytes → List Bytes → Bytes
joined first [] = first
joined first (second ∷ pieces) = first ++ joined second pieces

changes-append :
    {E1 E2 : Type 0} (xs ys : List (StepResults E1 E2))
    → changes (xs ++ ys) ≡ changes xs ++ changes ys
changes-append [] ys = refl
changes-append (StepResults.state_change event step ∷ xs) ys =
    ap (λ t. event ∷ t) (changes-append xs ys)
changes-append (StepResults.echo event step ∷ xs) ys = changes-append xs ys

module _ {S E1 E2 : Type 0} ⦃e : Eq S⦄ where
  -- `parse` on each piece, and all results in order.
  unfoldable pub parse_pieces :
      BufferParser S E1 E2
      → Bytes
      → List Bytes
      → Outcome (List (StepResults E1 E2) × BufferParser S E1 E2)
  unfolding parse
  parse_pieces p first [] = parse p first
  parse_pieces p first (second ∷ pieces) = do
    (xs, p1) ← parse p first
    (ys, p2) ← parse_pieces p1 second pieces
    ok (xs ++ ys, p2)

  -- For a valid parser with identifiers of one length in each state: however an input is cut into reads,
  -- all calls of `parse` return, and together they make the transitions that one read of the whole input
  -- makes, in the same order, and end in the same state.
  pub parse_pieces-joined :
      (p : BufferParser S E1 E2) (first : Bytes) (pieces : List Bytes)
      → IsValid p
      → IsUniform p
      → (xs zs : List (StepResults E1 E2)) × (p1 p2 : BufferParser S E1 E2) × (parse_pieces p first
            pieces
          ≡ ok (xs, p1))
        × (parse p (joined first pieces) ≡ ok (zs, p2))
        × (changes xs ≡ changes zs)
        × (p1.state ≡ p2.state)
  unfolding parse_pieces
  parse_pieces-joined p first [] v uniform =
      let a = parse-Runs p v.reader first v.configured v.sim in
      (a.results, a.results, a.p', a.p', a.parses, a.parses, refl, refl)
  parse_pieces-joined p first (second ∷ pieces) v uniform =
      let a = parse-Runs p v.reader first v.configured v.sim in
      let v1 : IsValid a.p' = record { configured = a.configured; reader = a.r'; sim = a.sim } in
      let uniform1 : IsUniform a.p' =
        λ s ts g. uniform s ts (ap (λ m. get m s) a.same.state_map ∙ g) in
      let (xs', zs', q1, q2, pieces_ok, rest_ok, same_changes, same_state) =
        parse_pieces-joined a.p' second pieces v1 uniform1 in
      let (ys1, ys2, zs, r1, r2, r3, first_ok, second_ok, whole, events, state) =
        parse-append p first (joined second pieces) v uniform in
      let at_first = ok-injective (sym first_ok ∙ a.parses) in
      let at_rest =
        ok-injective
          (sym second_ok ∙ ap (λ r. parse r.1 (joined second pieces)) at_first ∙ rest_ok) in
      (
        a.results ++ xs',
        zs,
        q1,
        r3,
        rw (a.parses, pieces_ok) refl,
        whole,
        changes-append a.results xs'
            ∙ ap (λ t. changes a.results ++ t) same_changes
            ∙ sym (ap₂ (λ r t. changes r.0 ++ changes t.0) at_first at_rest)
            ∙ sym events,
        same_state ∙ ap (λ r. r.1.state) (sym at_rest) ∙ sym state,
      )
