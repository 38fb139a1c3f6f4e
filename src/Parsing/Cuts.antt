-- ===== src/Parsing/Cuts.antt =====
-- Reading a text at once, or in two parts: the same transitions.
use mathlib.Core.Path.{subst, ap₂}
use llmsh.Base.{
  ◌+◌, some, List, [], ◌∷◌, ◌++◌, Bytes, ◌≡◌, sym, ap, ◌∙◌, ◌⊎◌, inl, inr, arith, Eq, get, HashMap,
  length, length-append, drop-append_le, append_assoc, All, All-get_elem?,
}
use llmsh.Parsing.{StepResults, Transition}
use llmsh.Parsing.Search.{At, At-bounds}
use llmsh.Parsing.Leftmost.{IsNonEmpty}
use llmsh.Parsing.Reference.{identifiers, Reader, Runs, done, more, feed}
use llmsh.Parsing.Chunks.{
  AreUniform, IsLeftmost-append, changes, Moves, moves, stays, Moves-Reads, Moves-same,
}
use llmsh.Parsing.Streams.{
  IsClear, unread, Runs-same, IsClear-feed, IsClear-Moves, Runs-read, changes-cons, Moves-at,
  identifiers-get_elem?,
}

module _ {S E1 E2 : Type 0} ⦃e : Eq S⦄ (state_map : HashMap S (List (Transition S E1)))
    (echo_events : HashMap S E2)
    (nonempty : (s : S) (ts : List (Transition S E1))
      → get state_map s ≡ some ts
      → All IsNonEmpty (identifiers ts))
    (uniform : (s : S) (ts : List (Transition S E1))
      → get state_map s ≡ some ts
      → AreUniform (identifiers ts)) where
  abbrev Clear : Reader S → Type 0
  Clear = IsClear state_map echo_events nonempty

  abbrev Echoes : Reader S → StepResults E1 E2 → Reader S → Type 0
  Echoes r x r' = (changes (x ∷ []) ≡ []) × (r' ≡ record r { seen = length r.text })

  -- A transition in a text is the transition in every longer text.
  Moves-feed :
      (r r' : Reader S) (x : StepResults E1 E2) (input : Bytes)
      → Moves state_map echo_events r.text r.state x r'
      → Moves state_map echo_events (r.text ++ input) r.state x (feed r' input) ⊎ Echoes r x r'
  Moves-feed r r' x input (moves ts k i id v s ev b g listed l res e) =
      let same : l.id ≡ id =
        let f = identifiers-get_elem? state_map echo_events nonempty ts k listed in cc in
      let at : At id i r.text = subst (λ t. At t i r.text) same l.at in
      let pos =
        All-get_elem? IsNonEmpty (identifiers ts) k (nonempty r.state ts g)
          (identifiers-get_elem? state_map echo_events nonempty ts k listed) in
      let le = At-bounds id i r.text pos at in
      inl (
        moves ts k i id v s ev b g listed
          (IsLeftmost-append (identifiers ts) r.text input k i (nonempty r.state ts g)
            (uniform r.state ts g) l)
          res
          (ap (λ q. feed q input) e
            ∙ ap (λ t. record { text = t; seen = 0; state = s })
                (sym (drop-append_le (i + length id) r.text input le))))
  Moves-feed r r' x input (stays ts ev b g nowhere res e) = inr (ap (λ y. changes (y ∷ [])) res, e)

  -- If the first part ends in an echo, all of the transitions are found in the second.
  echo_then :
      {q q1 : Reader S} (x : StepResults E1 E2) {xs : List (StepResults E1 E2)} {q' : Reader S}
      {ys : List (StepResults E1 E2)} {r2 : Reader S} {a : Reader S} {zs : List (StepResults E1 E2)}
      {r3 : Reader S} (input : Bytes)
      → Runs state_map echo_events q1 xs q'
      → q1 ≡ record q { seen = length q.text }
      → changes (x ∷ []) ≡ []
      → Clear q1
      → Runs state_map echo_events (feed q' input) ys r2
      → Runs state_map echo_events a zs r3
      → a ≡ feed q input
      → Clear q
      → (changes zs ≡ changes (x ∷ xs) ++ changes ys) × (r3 ≡ r2)
  echo_then {q} {q1} x {xs} {q'} {ys} {r2} {a} {zs} {r3} input rest q1_eq none_here c1 second whole
        eq cq =
      let read : q1.seen ≡ length q1.text =
        ap (λ r. r.seen) q1_eq ∙ sym (ap (λ r. length r.text) q1_eq) in
      let (none_left, same) = Runs-read state_map echo_events nonempty rest read in
      let back : q' ≡ record q { seen = length q.text } = same ∙ q1_eq in
      let (events, end) =
        Runs-same state_map echo_events nonempty whole second
          (subst Clear (sym eq) (IsClear-feed state_map echo_events nonempty q input cq))
          (IsClear-feed state_map echo_events nonempty q' input (subst Clear (sym same) c1))
          (ap (λ r. r.text) eq ∙ sym (ap (λ r. r.text ++ input) back))
          (ap (λ r. r.state) eq ∙ sym (ap (λ r. r.state) back)) in
      (
        events
            ∙ sym (
                ap (λ t. t ++ changes ys)
                  (changes-cons state_map echo_events nonempty x xs
                    ∙ ap₂ ◌++◌ none_here (ap changes none_left))),
        end,
      )

  -- The transitions of a text are those of its first part, and then those of the rest.
  pub Runs-append :
      {q : Reader S} {xs : List (StepResults E1 E2)} {q' : Reader S} {ys : List (StepResults E1 E2)}
      {r2 : Reader S} {a : Reader S} {zs : List (StepResults E1 E2)} {r3 : Reader S} (input : Bytes)
      → Runs state_map echo_events q xs q'
      → Clear q
      → Runs state_map echo_events (feed q' input) ys r2
      → Runs state_map echo_events a zs r3
      → a ≡ feed q input
      → (changes zs ≡ changes xs ++ changes ys) × (r3 ≡ r2)
  Runs-append {a = a} input (done {r = q} h) cq second whole eq =
      Runs-same state_map echo_events nonempty whole second
        (subst Clear (sym eq) (IsClear-feed state_map echo_events nonempty q input cq))
        (IsClear-feed state_map echo_events nonempty q input cq) (ap (λ r. r.text) eq)
        (ap (λ r. r.state) eq)
  Runs-append input (more {r = q} {result = x} {r' = q1} m rest) cq second (done {r = a} h) eq =
      let lt = unread state_map echo_events nonempty q q1 x m in
      let seen = ap (λ r. r.seen) eq in
      let len = ap (λ r. length r.text) eq in absurd (omega (arith, length-append q.text input))
  Runs-append {q' = q'} {ys = ys} {r2 = r2} {r3 = r3} input
        (more {r = q} {result = x} {r' = q1} {results = xs} m rest) cq second
        (more {r = a} {result = z} {r' = a1} {results = zs} n rest') eq =
      elim (Moves-feed q q1 x input (Moves-Reads state_map echo_events q q1 x m)) [
        | inl mv ↦
            let nv =
              Moves-at state_map echo_events nonempty (feed q input) a a1 z
                (sym (ap (λ r. r.text) eq)) (sym (ap (λ r. r.state) eq)) n in
            let (same, first) =
              Moves-same state_map echo_events (q.text ++ input) q.state z x a1 (feed q1 input) nv
                mv in
            let (later, end) =
              Runs-append input rest
                (IsClear-Moves state_map echo_events nonempty q.text q.state x q1
                  (Moves-Reads state_map echo_events q q1 x m))
                second rest' same in
            (
              changes-cons state_map echo_events nonempty z zs
                  ∙ ap₂ ◌++◌ first later
                  ∙ sym (append_assoc (changes (x ∷ [])) (changes xs) (changes ys))
                  ∙ ap (λ t. t ++ changes ys)
                      (sym (changes-cons state_map echo_events nonempty x xs)),
              end,
            )
        | inr (none_here, q1_eq) ↦
            echo_then x input rest q1_eq none_here
              (IsClear-Moves state_map echo_events nonempty q.text q.state x q1
                (Moves-Reads state_map echo_events q q1 x m))
              second (more n rest') eq cq
      ]
