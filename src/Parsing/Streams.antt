-- ===== src/Parsing/Streams.antt =====
-- The transitions in a text do not depend on how much of it was shown before.
use mathlib.Core.Path.{subst₂, ap₂}
use llmsh.Base.{
  ℕ, zero, suc, ◌+◌, ◌≤◌, ◌<◌, Bool, some, List, [], ◌∷◌, ◌++◌, Bytes, ◌≡◌, refl, sym, ap, ◌∙◌,
  arith, Eq, get, HashMap, length, length-append, get_elem?, All, All-get_elem?,
}
use llmsh.Parsing.{StepResults, state_change, echo, string_id, Transition}
use llmsh.Parsing.Search.{At, At-append, At-bounds}
use llmsh.Parsing.Leftmost.{NoMatch, IsNonEmpty}
use llmsh.Parsing.Reference.{identifiers, Reader, Reads, matched, missed, Runs, done, more, feed}
use llmsh.Parsing.Chunks.{changes, Moves, moves, stays, Moves-Reads, Moves-same}

module _ {S E1 E2 : Type 0} ⦃e : Eq S⦄ (state_map : HashMap S (List (Transition S E1)))
    (echo_events : HashMap S E2)
    (nonempty : (s : S) (ts : List (Transition S E1))
      → get state_map s ≡ some ts
      → All IsNonEmpty (identifiers ts)) where
  -- What was shown holds no identifier of the state.
  pub record IsClear (r : Reader S) : Type 0 where
    pub seen_le : r.seen ≤ length r.text
    pub clear :
        (ts : List (Transition S E1))
        → get state_map r.state ≡ some ts
        → (k : ℕ) (id : Bytes) → get_elem? (identifiers ts) k ≡ some id
        → (j : ℕ) → j + length id ≤ r.seen
        → ¬ At id j r.text

  pub NoMatch-read :
      (r : Reader S) (ts : List (Transition S E1))
      → IsClear r
      → r.seen ≡ length r.text
      → get state_map r.state ≡ some ts
      → NoMatch (identifiers ts) r.text
  NoMatch-read r ts h read g k id listed j at =
      let pos = All-get_elem? IsNonEmpty (identifiers ts) k (nonempty r.state ts g) listed in
      let le = At-bounds id j r.text pos at in h.clear ts g k id listed j (omega arith) at

  pub identifiers-get_elem? :
      (ts : List (Transition S E1)) (k : ℕ) {id : Bytes} {v : Bool} {s : S} {ev : E1}
      → get_elem? ts k ≡ some (string_id id v, s, ev)
      → get_elem? (identifiers ts) k ≡ some id
  identifiers-get_elem? [] k h = cc
  identifiers-get_elem? ((string_id id v, s, ev) ∷ ts) zero h = ap (λ t. some t) (cc)
  identifiers-get_elem? ((string_id id v, s, ev) ∷ ts) (suc k) h = identifiers-get_elem? ts k h

  pub IsClear-feed : (r : Reader S) (input : Bytes) → IsClear r → IsClear (feed r input)
  IsClear-feed r input h = record {
    seen_le = omega (arith, length-append r.text input, h.seen_le);
    clear = λ ts g k id listed j le at.
        h.clear ts g k id listed j le (At-append id j r.text input (omega (arith, h.seen_le)) at);
  }

  pub IsClear-Moves :
      (text : Bytes) (state : S) (x : StepResults E1 E2) (r : Reader S)
      → Moves state_map echo_events text state x r
      → IsClear r
  IsClear-Moves text state x r (moves ts k i id v s ev b g listed l res e) = rw e (record {
    seen_le = omega arith;
    clear = λ ts' g' k' id' listed' j le at.
        let pos = All-get_elem? IsNonEmpty (identifiers ts') k' (nonempty s ts' g') listed' in
        omega arith;
  })
  IsClear-Moves text state x r (stays ts ev b g nowhere res e) = rw e (record {
    seen_le = omega arith;
    clear = λ ts' g' k' id' listed' j le at.
        let same : ts' ≡ ts = cc in
        nowhere k' id' (ap (λ t. get_elem? (identifiers t) k') (sym same) ∙ listed') j at;
  })

  pub unread :
      (r r' : Reader S) (x : StepResults E1 E2)
      → Reads state_map echo_events r x r'
      → r.seen < length r.text
  unread r r' x (matched ts k i id v s ev lt h listed l res e) = lt
  unread r r' x (missed ts ev lt h nowhere has res e) = lt

  pub Runs-read :
      {r : Reader S} {xs : List (StepResults E1 E2)} {r' : Reader S}
      → Runs state_map echo_events r xs r'
      → r.seen ≡ length r.text
      → (xs ≡ []) × (r' ≡ r)
  Runs-read (done h) read = (refl, refl)
  Runs-read (more {r = r} {result = x} {r' = r'} h rest) read =
      let lt = unread r r' x h in absurd (omega arith)

  pub changes-cons :
      (x : StepResults E1 E2) (xs : List (StepResults E1 E2))
      → changes (x ∷ xs) ≡ changes (x ∷ []) ++ changes xs
  changes-cons (state_change ev b) xs = refl
  changes-cons (echo ev b) xs = refl

  Reader-eq : (a b : Reader S) → a.text ≡ b.text → a.seen ≡ b.seen → a.state ≡ b.state → a ≡ b
  Reader-eq a b t n s = λ i. record { text = t i; seen = n i; state = s i }

  -- What follows if nothing is new: an echo, and then the end.
  quiet_Runs :
      (a r' b' : Reader S) (x : StepResults E1 E2) (xs : List (StepResults E1 E2))
      → IsClear a
      → a.seen ≡ length a.text
      → Moves state_map echo_events a.text a.state x r'
      → Runs state_map echo_events r' xs b'
      → (changes (x ∷ xs) ≡ []) × (b' ≡ a)
  quiet_Runs a r' b' x xs ca read (moves ts k i id v s ev b g listed l res e) rest =
      absurd (NoMatch-read a ts ca read g k l.id l.listed i l.at)
  quiet_Runs a r' b' x xs ca read (stays ts ev b g nowhere res e) rest =
      let read' : r'.seen ≡ length r'.text = ap (λ r. r.seen) e ∙ sym (ap (λ r. length r.text) e) in
      let (none_left, same) = Runs-read rest read' in
      (
        ap₂ (λ y ys. changes (y ∷ ys)) res none_left,
        same
            ∙ e
            ∙ Reader-eq (record { text = a.text; seen = length a.text; state = a.state }) a refl
                (sym read) refl,
      )

  pub Moves-at :
      (r q q' : Reader S) (y : StepResults E1 E2)
      → r.text ≡ q.text
      → r.state ≡ q.state
      → Reads state_map echo_events q y q'
      → Moves state_map echo_events r.text r.state y q'
  Moves-at r q q' y t s m =
      subst₂ (λ text state. Moves state_map echo_events text state y q') (sym t) (sym s)
        (Moves-Reads state_map echo_events q q' y m)

  -- Results that do not depend on how much was shown.
  pub Runs-same :
      {a : Reader S} {xs : List (StepResults E1 E2)} {a' : Reader S} {b : Reader S}
      {ys : List (StepResults E1 E2)} {b' : Reader S}
      → Runs state_map echo_events a xs a'
      → Runs state_map echo_events b ys b'
      → IsClear a
      → IsClear b
      → a.text ≡ b.text
      → a.state ≡ b.state
      → (changes xs ≡ changes ys) × (a' ≡ b')
  Runs-same (done {r = a} h) (done {r = b} h') ca cb t s =
      (refl, Reader-eq a b t (h ∙ ap length t ∙ sym h') s)
  Runs-same (done {r = a} h) (more {r = r} {result = x} {r' = r'} {results = xs} {r'' = r''} m rest)
        ca cb t s =
      let (a1, a2) = quiet_Runs a r' r'' x xs ca h (Moves-at a r r' x t s m) rest in
      (sym a1, sym a2)
  Runs-same (more {r = r} {result = x} {r' = r'} {results = xs} {r'' = r''} m rest) (done {r = b} h)
        ca cb t s =
      quiet_Runs b r' r'' x xs cb h (Moves-at b r r' x (sym t) (sym s) m) rest
  Runs-same (more {r = r} {result = x} {r' = r'} {results = xs} m rest)
        (more {r = q} {result = y} {r' = q'} {results = ys} n rest') ca cb t s =
      let mr = Moves-Reads state_map echo_events r r' x m in
      let mq = Moves-at r q q' y t s n in
      let (same, first) = Moves-same state_map echo_events r.text r.state x y r' q' mr mq in
      let (later, end) =
        Runs-same rest rest' (IsClear-Moves r.text r.state x r' mr)
          (IsClear-Moves r.text r.state y q' mq) (ap (λ r. r.text) same) (ap (λ r. r.state) same) in
      (changes-cons x xs ∙ ap₂ ◌++◌ first later ∙ sym (changes-cons y ys), end)
