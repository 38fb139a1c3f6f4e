-- ===== src/Parsing/Search.antt =====
-- Where an identifier occurs in a text, and that the search of `step` finds its first occurrence.
use llmsh.Base.{
  ℕ, zero, suc, ◌+◌, ◌≤◌, ◌<◌, true, false, Option, none, some, [], ◌∷◌, ◌++◌, Bytes, ◌≡◌, refl,
  sym, ap, ◌∙◌, inl, inr, arith, ltb, bytes_eq, bytes_eq_refl, eq_of_bytes_eq, length, length-drop,
  length-take, take, drop, take-append_le, drop-append_le, shift, windows, position, Bool-cases,
  Option-cases, ◌⊎◌,
}

-- `pat` stands in `xs` at `i`.
abbrev pub At : Bytes → ℕ → Bytes → Type 0
At pat i xs = take (length pat) (drop i xs) ≡ pat

-- The search: the first window that is the identifier.
unfoldable pub find : Bytes → Bytes → Option ℕ
unfolding windows position bytes_eq
find pat xs = position (λ window. bytes_eq window pat) (windows (length pat) xs)

-- An occurrence ends within the text.
pub At-bounds :
    (pat : Bytes) (i : ℕ) (xs : Bytes) → 0 < length pat → At pat i xs → i + length pat ≤ length xs
At-bounds pat i xs pos h =
    let e = ap length h in omega (arith, length-take (length pat) (drop i xs), length-drop i xs, e)

-- What was appended is not needed for an occurrence before it.
pub At-append :
    (pat : Bytes) (i : ℕ) (xs ys : Bytes)
    → i + length pat ≤ length xs
    → At pat i (xs ++ ys)
    → At pat i xs
At-append pat i xs ys le h =
    let fits : length pat ≤ length (drop i xs) = omega (arith, length-drop i xs) in
    sym (take-append_le (length pat) (drop i xs) ys fits)
    ∙ ap (take (length pat)) (sym (drop-append_le i xs ys (omega arith)))
    ∙ h

pub At-append_left :
    (pat : Bytes) (i : ℕ) (xs ys : Bytes)
    → i + length pat ≤ length xs
    → At pat i xs
    → At pat i (xs ++ ys)
At-append_left pat i xs ys le h =
    let fits : length pat ≤ length (drop i xs) = omega (arith, length-drop i xs) in
    ap (take (length pat)) (drop-append_le i xs ys (omega arith))
    ∙ take-append_le (length pat) (drop i xs) ys fits
    ∙ h

windows_short : (n : ℕ) (xs : Bytes) → length xs < n → windows n xs ≡ []
unfolding windows
windows_short n [] h = refl
windows_short n (x ∷ xs) h = let e : ltb (suc (length xs)) n ≡ true = ground arith in rw e

pub At-cases : (pat : Bytes) (i : ℕ) (xs : Bytes) → At pat i xs ⊎ (¬ At pat i xs)
At-cases pat i xs = elim (Bool-cases (bytes_eq (take (length pat) (drop i xs)) pat)) [
  | inl same ↦ inl (eq_of_bytes_eq _ pat same)
  | inr other ↦ inr (λ at. let e = bytes_eq_refl pat in let f = ap (λ t. bytes_eq t pat) at in cc)
]

shift_zero : (o : Option ℕ) → o ≡ shift o 0
shift_zero none = refl
shift_zero (some i) = ap some (omega arith)

shift-shift : (o : Option ℕ) (k : ℕ) → shift (shift o k) 1 ≡ shift o (suc k)
shift-shift none k = refl
shift-shift (some i) k = ap some (omega arith)

module _ (pat : Bytes) where
  find_here : (x : ℕ) (xs : Bytes) → 0 < length pat → At pat 0 (x ∷ xs) → find pat (x ∷ xs) ≡ some 0
  unfolding find
  find_here x xs pos h =
      let le = At-bounds pat 0 (x ∷ xs) pos h in
      let fits : ltb (suc (length xs)) (length pat) ≡ false = ground arith in
      rw fits (rw h (rw (bytes_eq_refl pat)))

  find_later :
      (x : ℕ) (xs : Bytes) → ¬ At pat 0 (x ∷ xs) → find pat (x ∷ xs) ≡ shift (find pat xs) 1
  unfolding find
  find_later x xs h = elim (Bool-cases (ltb (suc (length xs)) (length pat))) [
    | inl short ↦ rw (short, windows_short (length pat) xs (ground arith))
    | inr fits ↦ elim (Bool-cases (bytes_eq (take (length pat) (x ∷ xs)) pat)) [
      | inl same ↦ absurd (h (eq_of_bytes_eq _ pat same))
      | inr other ↦ rw (fits, other)
    ]
  ]

  -- A front in which the identifier starts nowhere is skipped.
  pub find_skip :
      (k : ℕ) (xs : Bytes)
      → ((j : ℕ) → j < k → ¬ At pat j xs)
      → find pat xs ≡ shift (find pat (drop k xs)) k
  find_skip zero xs h = shift_zero _
  find_skip (suc k) [] h = unfold find in refl
  find_skip (suc k) (x ∷ xs) h =
      find_later x xs (h 0 (omega arith))
      ∙ ap (λ o. shift o 1) (find_skip k xs (λ j lt. h (suc j) (omega arith)))
      ∙ shift-shift _ k

  none_suc :
      (x : ℕ) (xs : Bytes)
      → ¬ At pat 0 (x ∷ xs)
      → ((j : ℕ) → ¬ At pat j xs)
      → (j : ℕ) → ¬ At pat j (x ∷ xs)
  none_suc x xs h hs zero = h
  none_suc x xs h hs (suc j) = hs j

  before_suc :
      (x : ℕ) (xs : Bytes) (k : ℕ)
      → ¬ At pat 0 (x ∷ xs)
      → ((j : ℕ) → j < k → ¬ At pat j xs)
      → (j : ℕ) → j < suc k
      → ¬ At pat j (x ∷ xs)
  before_suc x xs k h hs zero lt = h
  before_suc x xs k h hs (suc j) lt = hs j (omega arith)

  -- What the search returns is the first occurrence, and it fails only if there is none.
  pub find_sound :
      (xs : Bytes) {i : ℕ}
      → 0 < length pat
      → find pat xs ≡ some i
      → At pat i xs × ((j : ℕ) → j < i → ¬ At pat j xs)
  find_sound [] pos e = absurd (unfold find in cc)
  find_sound (x ∷ xs) {i} pos e = elim (At-cases pat 0 (x ∷ xs)) [
    | inl here ↦
        let z : 0 ≡ i = cc (find_here x xs pos here) in
        rw (← z) (here, λ j lt. absurd (omega arith))
    | inr not_here ↦ elim (Option-cases (find pat xs)) [
      | inl n ↦ let f = find_later x xs not_here in absurd (ground (arith, f))
      | inr (k, f) ↦
          let z : suc k ≡ i = ground (arith, find_later x xs not_here) in
          let (at, before) = find_sound xs {i = k} pos f in
          rw (← z) (at, λ j lt. before_suc x xs k not_here before j lt)
    ]
  ]

  pub find_complete : (xs : Bytes) → 0 < length pat → find pat xs ≡ none → (j : ℕ) → ¬ At pat j xs
  find_complete [] pos e j = λ at. let le = At-bounds pat j [] pos at in omega arith
  find_complete (x ∷ xs) pos e j = elim (At-cases pat 0 (x ∷ xs)) [
    | inl here ↦ absurd (cc (find_here x xs pos here))
    | inr not_here ↦
        let f : find pat xs ≡ none = ground (arith, find_later x xs not_here) in
        none_suc x xs not_here (find_complete xs pos f) j
  ]
