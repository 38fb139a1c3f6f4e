-- ===== src/Parsing/Cleaned.antt =====
-- llmsh/src/parsing.rs, `parse`: the text without its hidden identifiers is what a terminal shows,
-- however much of an identifier was shown before it was found.
use mathlib.Core.Path.{subst}
use llmsh.Base.{
  ℕ, zero, suc, ◌+◌, ◌≤◌, Bool, true, false, some, List, [], ◌∷◌, ◌++◌, Bytes, ◌≡◌, refl, sym, ap,
  ◌∙◌, arith, Eq, get, HashMap, length, get_elem?, All, take, drop, take-append-drop, take-all,
  append-nil,
}
use llmsh.Parsing.{StepResults, state_change, echo, Transition, string_id, end_of}
use llmsh.Parsing.Search.{At}
use llmsh.Parsing.Leftmost.{NoMatch, IsLeftmost, IsNonEmpty}
use llmsh.Parsing.Reference.{identifiers, Reader, Reads, matched, missed, Runs, done, more, display}
use llmsh.Parsing.Chunks.{Moves-Reads, IsLeftmost-unique}
use llmsh.Parsing.Streams.{IsClear, NoMatch-read, Runs-read, IsClear-Moves, identifiers-get_elem?}
use llmsh.Parsing.Visible.{output}
use llmsh.Parsing.Screens.{write, AreWiped, write-append, write-display}

module _ {S E1 : Type 0} ⦃e : Eq S⦄ (state_map : HashMap S (List (Transition S E1))) where
  -- The text with every hidden identifier left out up to the last transition, `shown`, and the rest.
  -- The first transition ends what is shown of the text at `end`.
  pub data Cleans : Bytes → S → ℕ → Bytes → Bytes → S → Type 0 where
    rests :
        {text : Bytes} {state : S} (transitions : List (Transition S E1))
        → get state_map state ≡ some transitions
        → NoMatch (identifiers transitions) text
        → Cleans text state (length text) [] text state
    cleans :
        {text : Bytes} {state : S} {end end' : ℕ} {shown shown' rest : Bytes} {last : S}
        (transitions : List (Transition S E1)) (k i : ℕ) (id : Bytes) (visible : Bool) (s : S)
        (event : E1)
        → get state_map state ≡ some transitions
        → get_elem? transitions k ≡ some (string_id id visible, s, event)
        → IsLeftmost (identifiers transitions) text k i
        → end ≡ end_of visible i id
        → shown ≡ take end text ++ shown'
        → Cleans (drop (i + length id) text) s end' shown' rest last
        → Cleans text state end shown rest last

module _ {S E1 E2 : Type 0} ⦃e : Eq S⦄ (state_map : HashMap S (List (Transition S E1)))
    (echo_events : HashMap S E2)
    (nonempty : (s : S) (ts : List (Transition S E1))
      → get state_map s ≡ some ts
      → All IsNonEmpty (identifiers ts))
    {Screen : Type 0} (put : ℕ → Screen → Screen) where
  -- The first result of a text that begins with a match.
  pub first_matched :
      (r r1 : Reader S) (x : StepResults E1 E2) (ts : List (Transition S E1)) (k i : ℕ) (id : Bytes)
      (v : Bool) (s : S) (ev : E1)
      → get state_map r.state ≡ some ts
      → get_elem? ts k ≡ some (string_id id v, s, ev)
      → IsLeftmost (identifiers ts) r.text k i
      → Reads state_map echo_events r x r1
      → (x ≡ state_change ev (display r.text r.seen i (end_of v i id)))
        × (r1 ≡ record { text = drop (i + length id) r.text; seen = 0; state = s })
  first_matched r r1 x ts k i id v s ev g listed l
        (matched ts' k' i' id' v' s' ev' lt g' listed' l' res e) =
      let ts_eq : ts' ≡ ts = cc in
      let (kk, ii) =
        IsLeftmost-unique (identifiers ts) r.text k k' i i' l
          (subst (λ t. IsLeftmost (identifiers t) r.text k' i') ts_eq l') in
      let ids : id ≡ id' = cc in
      let vs : v ≡ v' = cc in let states : s ≡ s' = cc in let events : ev ≡ ev' = cc in (cc, cc)
  first_matched r r1 x ts k i id v s ev g listed l (missed ts' ev' lt g' nowhere has res e) =
      let ts_eq : ts' ≡ ts = cc in
      absurd (subst (λ t. NoMatch (identifiers t) r.text) ts_eq nowhere k l.id l.listed i l.at)

  first_missed :
      (r r1 : Reader S) (x : StepResults E1 E2) (ts : List (Transition S E1))
      → get state_map r.state ≡ some ts
      → NoMatch (identifiers ts) r.text
      → Reads state_map echo_events r x r1
      → (output (x ∷ []) ≡ drop r.seen r.text) × (r1 ≡ record r { seen = length r.text })
  first_missed r r1 x ts g nowhere (matched ts' k i id v s ev lt g' listed l res e) =
      let ts_eq : ts ≡ ts' = cc in
      absurd (subst (λ t. NoMatch (identifiers t) r.text) ts_eq nowhere k l.id l.listed i l.at)
  first_missed r r1 x ts g nowhere (missed ts' ev lt g' nowhere' has res e) =
      (ap (λ y. output (y ∷ [])) res ∙ append-nil _, e)

  -- What a visible identifier ends was not shown before.
  end-shown :
      (r : Reader S) (ts : List (Transition S E1)) (k i : ℕ) (id : Bytes) (v : Bool) (s : S)
      (ev : E1)
      → IsClear state_map echo_events nonempty r
      → get state_map r.state ≡ some ts
      → get_elem? ts k ≡ some (string_id id v, s, ev)
      → IsLeftmost (identifiers ts) r.text k i
      → end_of v i id ≤ r.seen
      → end_of v i id ≡ i
  end-shown r ts k i id false s ev clear g listed l le = refl
  end-shown r ts k i id true s ev clear g listed l le =
      let listed' = identifiers-get_elem? state_map echo_events nonempty ts k listed in
      let same : l.id ≡ id = let l1 = l.listed in cc in
      absurd (clear.clear ts g k id listed' i le (subst (λ t. At t i r.text) same l.at))

  output-cons :
      (x : StepResults E1 E2) (xs : List (StepResults E1 E2))
      → output (x ∷ xs) ≡ output (x ∷ []) ++ output xs
  output-cons (state_change ev step) xs = ap (λ t. t ++ output xs) (sym (append-nil step))
  output-cons (echo ev step) xs = ap (λ t. t ++ output xs) (sym (append-nil step))

  AreWiped-drop_nothing : (n : ℕ) (xs : Bytes) (s : Screen) → xs ≡ [] → AreWiped put (drop n xs) s
  AreWiped-drop_nothing zero xs s e = subst (λ t. AreWiped put t s) (sym e) tt
  AreWiped-drop_nothing (suc n) xs s e = subst (λ t. AreWiped put (drop (suc n) t) s) (sym e) tt

  -- What a reader has shown, and the results behind it.
  abbrev screen_after : Reader S → List (StepResults E1 E2) → Screen → Screen
  screen_after r results s = write put (output results) (write put (take r.seen r.text) s)

  screen_after-fresh :
      (r : Reader S) (results : List (StepResults E1 E2)) (s : Screen)
      → r.seen ≡ 0
      → screen_after r results s ≡ write put (output results) s
  screen_after-fresh r results s e =
      ap (λ n. write put (output results) (write put (take n r.text) s)) e

  screen_after-cons :
      (r : Reader S) (x : StepResults E1 E2) (results : List (StepResults E1 E2)) (s : Screen)
      → screen_after r (x ∷ results) s ≡ write put (output results) (screen_after r (x ∷ []) s)
  screen_after-cons r x results s =
      ap (λ t. write put t (write put (take r.seen r.text) s)) (output-cons x results)
      ∙ write-append put (output (x ∷ [])) (output results) (write put (take r.seen r.text) s)

  pub Runs-Cleans :
      {r : Reader S} {results : List (StepResults E1 E2)} {r' : Reader S} {end : ℕ}
      {shown rest : Bytes} {last : S} (s : Screen)
      → Runs state_map echo_events r results r'
      → IsClear state_map echo_events nonempty r
      → Cleans state_map r.text r.state end shown rest last
      → AreWiped put (drop end (take r.seen r.text)) (write put (take end r.text) s)
      → (screen_after r results s ≡ write put rest (write put shown s))
        × (r'.text ≡ rest)
        × (r'.state ≡ last)
  Runs-Cleans s (done {r = r} read) clear (rests ts g nowhere) are =
      (ap (λ t. write put t s) (take-all r.seen r.text (omega arith)), refl, refl)
  Runs-Cleans s (done {r = r} read) clear (cleans ts k i id v to ev g listed l at_end is rest) are =
      absurd (NoMatch-read state_map echo_events nonempty r ts clear read g k l.id l.listed i l.at)
  Runs-Cleans s (more {r = r} {result = x} {r' = r1} {results = results} h runs) clear
        (rests ts g nowhere) are =
      let (shows, same) = first_missed r r1 x ts g nowhere h in
      let read : r1.seen ≡ length r1.text =
        ap (λ r. r.seen) same ∙ sym (ap (λ r. length r.text) same) in
      let (none_left, end_same) = Runs-read state_map echo_events nonempty runs read in
      (
        ap (λ xs. screen_after r (x ∷ xs) s) none_left
            ∙ ap (λ t. write put t (write put (take r.seen r.text) s)) shows
            ∙ sym (write-append put (take r.seen r.text) (drop r.seen r.text) s)
            ∙ ap (λ t. write put t s) (take-append-drop r.seen r.text),
        ap (λ r. r.text) (end_same ∙ same),
        ap (λ r. r.state) (end_same ∙ same),
      )
  Runs-Cleans s (more {r = r} {result = x} {r' = r1} {results = results} h runs) clear
        (cleans {end = end} {end' = end'} {shown' = shown'} {rest = rest} {last = last} ts k i id v
          to ev g listed l at_end is cleaning)
        are =
      let (is_x, same) = first_matched r r1 x ts k i id v to ev g listed l h in
      let base = write put (take end r.text) s in
      let fresh : r1.seen ≡ 0 = ap (λ r. r.seen) same in
      let (after, text_is, state_is) =
        Runs-Cleans base runs
          (IsClear-Moves state_map echo_events nonempty r.text r.state x r1
            (Moves-Reads state_map echo_events r r1 x h))
          (subst (λ (r : Reader S). Cleans state_map r.text r.state end' shown' rest last)
            (sym same) cleaning)
          (AreWiped-drop_nothing end' (take r1.seen r1.text) (write put (take end' r1.text) base)
            (ap (λ n. take n r1.text) fresh)) in
      let first : screen_after r (x ∷ []) s ≡ base =
        ap (λ y. screen_after r (y ∷ []) s) is_x
        ∙ ap (λ t. write put t (write put (take r.seen r.text) s))
            (append-nil (display r.text r.seen i (end_of v i id)))
        ∙ ap (λ n. write put (display r.text r.seen i n) (write put (take r.seen r.text) s))
            (sym at_end)
        ∙ write-display put r.text r.seen i end s clear.seen_le
            (λ le.
              at_end
              ∙ end-shown r ts k i id v to ev clear g listed l (subst (λ n. n ≤ r.seen) at_end le))
            are in
      (
        screen_after-cons r x results s
            ∙ ap (write put (output results)) first
            ∙ sym (screen_after-fresh r1 results base fresh)
            ∙ after
            ∙ ap (write put rest) (
                sym (write-append put (take end r.text) shown' s)
                ∙ ap (λ t. write put t s) (sym is)),
        text_is,
        state_is,
      )
