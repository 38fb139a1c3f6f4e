-- ===== src/Parsing/Leftmost.antt =====
-- The match that `step` picks among the identifiers: the leftmost, and of several that start there
-- the first in the list.
use llmsh.Base.{
  ℕ, zero, suc, ◌≤◌, ◌<◌, Option, none, some, List, [], ◌∷◌, map, Bytes, ◌≡◌, refl, ap, ◌∙◌, arith,
  length, get_elem?, All, All-get_elem?, Option-cases, inl, inr, dec_lt,
}
use llmsh.Parsing.{find_smallest_present}
use llmsh.Parsing.Search.{At, find, find_sound, find_complete}
use llmsh.Parsing.Smallest.{find_smallest_present-some, find_smallest_present-none}

-- No identifier occurs anywhere.
abbrev pub NoMatch : List Bytes → Bytes → Type 0
NoMatch ids text = (k : ℕ) (id : Bytes) → get_elem? ids k ≡ some id → (j : ℕ) → ¬ At id j text

abbrev pub IsNonEmpty : Bytes → Type 0
IsNonEmpty id = 0 < length id

-- Identifier number `k` occurs at `i`, and every occurrence of an identifier starts at `i` or later;
-- one that stands earlier in the list starts later.
pub record IsLeftmost (ids : List Bytes) (text : Bytes) (k i : ℕ) : Type 0 where
  pub id : Bytes
  pub listed : get_elem? ids k ≡ some id
  pub at : At id i text
  pub least :
      (k' : ℕ) (id' : Bytes) (j : ℕ)
      → get_elem? ids k' ≡ some id'
      → At id' j text
      → (i ≤ j) × (k' < k → i < j)

abbrev pub found_in : Bytes → List Bytes → List (Option ℕ)
found_in text ids = map (λ id. find id text) ids

get_elem?-found :
    (text : Bytes) (ids : List Bytes) (k : ℕ) {id : Bytes}
    → get_elem? ids k ≡ some id
    → get_elem? (found_in text ids) k ≡ some (find id text)
get_elem?-found text [] k h = cc
get_elem?-found text (x ∷ ids) zero h = ap (λ o. some o) (cc)
get_elem?-found text (x ∷ ids) (suc k) h = get_elem?-found text ids k h

found-get_elem? :
    (text : Bytes) (ids : List Bytes) (k : ℕ) {o : Option ℕ}
    → get_elem? (found_in text ids) k ≡ some o
    → (id : Bytes) × (get_elem? ids k ≡ some id) × (find id text ≡ o)
found-get_elem? text [] k h = cc
found-get_elem? text (x ∷ ids) zero h = (x, refl, cc)
found-get_elem? text (x ∷ ids) (suc k) h = found-get_elem? text ids k h

module _ (text : Bytes) (ids : List Bytes) (nonempty : All IsNonEmpty ids) where
  find_of_At :
      (id : Bytes) (j : ℕ)
      → 0 < length id
      → At id j text
      → (w : ℕ) × (find id text ≡ some w) × (w ≤ j)
  find_of_At id j pos at = elim (Option-cases (find id text)) [
    | inl e ↦ absurd (find_complete id text pos e j at)
    | inr (w, e) ↦ (w, e, before w e)
  ]
    where
      before : (w : ℕ) → find id text ≡ some w → w ≤ j
      before w e = elim (dec_lt j w) [
        | yes lt ↦ absurd ((find_sound id text pos e).1 j lt at)
        | no ge ↦ omega arith
      ]

  -- A pick is a leftmost match.
  pub pick-IsLeftmost :
      {k : ℕ}
      → find_smallest_present (found_in text ids) ≡ some k
      → (i : ℕ) × (get_elem? (found_in text ids) k ≡ some (some i)) × IsLeftmost ids text k i
  pick-IsLeftmost {k} e =
      let (i, got, least) = find_smallest_present-some (found_in text ids) e in
      let (id, listed, f) = found-get_elem? text ids k got in
      (
        i,
        got,
        record {
          id = id;
          listed = listed;
          at = (find_sound id text (All-get_elem? IsNonEmpty ids k nonempty listed) f).0;
          least = λ k' id' j listed' at'.
              let (w, f', le) =
                find_of_At id' j (All-get_elem? IsNonEmpty ids k' nonempty listed') at' in
              let got' = get_elem?-found text ids k' listed' in
              let (a, b) = least k' w (got' ∙ ap some f') in
              (omega arith, λ lt. let c = b lt in omega arith);
        },
      )

  -- If nothing is picked, no identifier occurs.
  pub pick-NoMatch : find_smallest_present (found_in text ids) ≡ none → NoMatch ids text
  pick-NoMatch e k id listed j at =
      let (w, f, le) = find_of_At id j (All-get_elem? IsNonEmpty ids k nonempty listed) at in
      find_smallest_present-none (found_in text ids) e k w
        (get_elem?-found text ids k listed ∙ ap some f)
