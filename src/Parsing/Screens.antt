-- ===== src/Parsing/Screens.antt =====
-- llmsh/src/parsing.rs: what a terminal shows of a text with hidden identifiers. A terminal is any
-- machine that takes bytes one by one.
use mathlib.Core.Path.{ap₂}
use llmsh.Base.{
  ℕ, zero, suc, ◌-◌, ◌≤◌, true, false, [], ◌∷◌, ◌++◌, Bytes, ◌≡◌, refl, sym, ap, ◌∙◌, arith, length,
  length-take, length-drop, take, drop, take-append-drop, ltb, dec_lt,
}
use llmsh.Parsing.{delete_char}
use llmsh.Parsing.Reference.{deletions, display}

take_nil : (n : ℕ) → ◌≡◌ {A = Bytes} [] (take n [])
take_nil zero = refl
take_nil (suc n) = refl

take_split : (m n : ℕ) (xs : Bytes) → m ≤ n → take m xs ++ take (n - m) (drop m xs) ≡ take n xs
take_split zero n xs le = ap (λ n. take n xs) (omega arith)
take_split (suc m) zero xs le = absurd (omega arith)
take_split (suc m) (suc n) [] le = sym (take_nil (suc n - suc m))
take_split (suc m) (suc n) (x ∷ xs) le =
    let e : suc n - suc m ≡ n - m = omega arith in
    ap (λ k. x ∷ (take m xs ++ take k (drop m xs))) e
    ∙ ap (λ t. x ∷ t) (take_split m n xs (omega arith))

take-take : (m n : ℕ) (xs : Bytes) → m ≤ n → take m (take n xs) ≡ take m xs
take-take zero n xs le = refl
take-take (suc m) zero xs le = absurd (omega arith)
take-take (suc m) (suc n) [] le = refl
take-take (suc m) (suc n) (x ∷ xs) le = ap (λ t. x ∷ t) (take-take m n xs (omega arith))

module _ {Screen : Type 0} (put : ℕ → Screen → Screen) where
  abbrev pub write : Bytes → Screen → Screen
  write [] s = s
  write (c ∷ cs) s = write cs (put c s)

  -- Each byte, shown where it stands, is taken back by backspace, blank, backspace.
  abbrev pub AreWiped : Bytes → Screen → Type 0
  AreWiped [] s = Unit {0}
  AreWiped (c ∷ cs) s = (write delete_char (put c s) ≡ s) × AreWiped cs (put c s)

  pub write-append : (xs ys : Bytes) (s : Screen) → write (xs ++ ys) s ≡ write ys (write xs s)
  write-append [] ys s = refl
  write-append (x ∷ xs) ys s = write-append xs ys (put x s)

  deletions_last : (n : ℕ) → deletions n ++ delete_char ≡ deletions (suc n)
  deletions_last zero = refl
  deletions_last (suc n) = ap (λ t. delete_char ++ t) (deletions_last n)

  -- As many deletions as there are bytes.
  wiped : (xs : Bytes) (s : Screen) → AreWiped xs s → write (deletions (length xs)) (write xs s) ≡ s
  wiped [] s are = refl
  wiped (x ∷ xs) s (is, are) =
      ap (λ t. write t (write xs (put x s))) (sym (deletions_last (length xs)))
      ∙ write-append (deletions (length xs)) delete_char (write xs (put x s))
      ∙ ap (write delete_char) (wiped xs (put x s) are)
      ∙ is

  -- What a match shows turns what was seen into what stands before the end.
  pub write-display :
      (text : Bytes) (seen i end : ℕ) (s : Screen)
      → seen ≤ length text
      → (end ≤ seen → end ≡ i)
      → AreWiped (drop end (take seen text)) (write (take end text) s)
      → write (display text seen i end) (write (take seen text) s) ≡ write (take end text) s
  write-display text seen i end s le hidden are = elim (dec_lt seen end) [
    | yes lt ↦
        let e : ltb seen end ≡ true = ground arith in
        rw e (
          sym (write-append (take seen text) (take (end - seen) (drop seen text)) s)
          ∙ ap (λ t. write t s) (take_split seen end text (omega arith)))
    | no ge ↦
        let e : ltb seen end ≡ false = ground arith in
        let front = take seen text in
        let is_i = hidden (omega arith) in
        let many : seen - i ≡ length (drop end front) =
          omega (arith, is_i, length-drop end front, length-take seen text) in
        let split =
          ap (λ t. t ++ drop end front) (sym (take-take end seen text (omega arith)))
          ∙ take-append-drop end front in
        rw e (
          ap₂ (λ n t. write (deletions n) (write t s)) many (sym split)
          ∙ ap (write (deletions (length (drop end front))))
              (write-append (take end text) (drop end front) s)
          ∙ wiped (drop end front) (write (take end text) s) are)
  ]
