-- ===== src/Parsing/Smallest.antt =====
-- `find_smallest_present` returns the index of the least number, and of equal ones the first.
use llmsh.Base.{
  ℕ, zero, suc, ◌+◌, ◌≤◌, ◌<◌, Option, none, some, List, [], ◌∷◌, map, ◌≡◌, ◌≢◌, refl, sym, ap, ◌∙◌,
  ◌⊎◌, inl, inr, arith, ltb, if◌then◌else◌, get_elem?, shift, enumerate_from, Bool-cases, true,
  false,
}
use llmsh.Parsing.{present, min_by_val, first_of_min, find_smallest_present}

-- `best` beats or equals every number of `vec`, and beats those at positions before its own, where
-- `vec` begins at position `n`.
record IsLeast (n : ℕ) (vec : List (Option ℕ)) (best : ℕ × ℕ) : Type 0 where
  least : (j w : ℕ) → get_elem? vec j ≡ some (some w) → best.1 ≤ w
  first : (j w : ℕ) → get_elem? vec j ≡ some (some w) → n + j < best.0 → best.1 < w

-- Where the winner comes from: it is the old best, or a smaller number of `vec`.
abbrev Comes : ℕ → List (Option ℕ) → ℕ × ℕ → ℕ × ℕ → Type 0
Comes n vec old best =
    (best ≡ old)
    ⊎ ((idx : ℕ) × (best.0 ≡ n + idx) × (get_elem? vec idx ≡ some (some best.1)) × (best.1 < old.1))

IsLeast-cons :
    (n : ℕ) (o : Option ℕ) (vec : List (Option ℕ)) (best : ℕ × ℕ)
    → ((w : ℕ) → o ≡ some w → (best.1 ≤ w) × (n < best.0 → best.1 < w))
    → IsLeast (n + 1) vec best
    → IsLeast n (o ∷ vec) best
IsLeast-cons n o vec best here h = record { least = least'; first = first' }
  where
    least' : (j w : ℕ) → get_elem? (o ∷ vec) j ≡ some (some w) → best.1 ≤ w
    least' zero w e = (here w (cc)).0
    least' (suc j) w e = h.least j w e

    first' : (j w : ℕ) → get_elem? (o ∷ vec) j ≡ some (some w) → n + j < best.0 → best.1 < w
    first' zero w e lt = (here w (cc)).1 (omega arith)
    first' (suc j) w e lt = h.first j w e (omega arith)

Comes-cons :
    (n : ℕ) (o : Option ℕ) (vec : List (Option ℕ)) (old best : ℕ × ℕ)
    → Comes (n + 1) vec old best
    → Comes n (o ∷ vec) old best
Comes-cons n o vec old best (inl e) = inl e
Comes-cons n o vec old best (inr (idx, e, g, lt)) = inr (suc idx, omega arith, g, lt)

-- The fold over the numbers present, from position `n` on.
winner : ℕ → List (Option ℕ) → ℕ × ℕ → ℕ × ℕ
winner n vec old = min_by_val old (present (enumerate_from n vec))

winner-none :
    (n : ℕ) (vec : List (Option ℕ)) (old : ℕ × ℕ)
    → winner n (none ∷ vec) old ≡ winner (n + 1) vec old
unfolding winner present min_by_val enumerate_from
winner-none n vec old = refl

winner-some :
    (n w : ℕ) (vec : List (Option ℕ)) (old : ℕ × ℕ)
    → winner n (some w ∷ vec) old ≡ winner (n + 1) vec (if ltb w old.1 then (n, w) else old)
unfolding winner present min_by_val enumerate_from
winner-some n w vec old = refl

record Wins (n : ℕ) (vec : List (Option ℕ)) (old best : ℕ × ℕ) : Type 0 where
  is_least : IsLeast n vec best
  comes : Comes n vec old best
  le_old : best.1 ≤ old.1

-- A winner from behind the old best's position is less than the old best.
lt_of_Comes :
    (n : ℕ) (vec : List (Option ℕ)) (old best : ℕ × ℕ)
    → Comes n vec old best
    → old.0 < best.0
    → best.1 < old.1
lt_of_Comes n vec old best (inl e) lt =
    let e0 : best.0 ≡ old.0 = ap (λ p. p.0) e in absurd (omega arith)
lt_of_Comes n vec old best (inr (idx, e, g, less)) lt = less

Comes-new :
    (n w : ℕ) (vec : List (Option ℕ)) (old best : ℕ × ℕ)
    → w < old.1
    → Comes (n + 1) vec (n, w) best
    → Comes n (some w ∷ vec) old best
Comes-new n w vec old best lt (inl e) =
    inr (0, ap (λ p. p.0) e ∙ omega arith, ap (λ p. some (some p.1)) (sym e), rw e lt)
Comes-new n w vec old best lt (inr (idx, e, g, less)) = inr (suc idx, omega arith, g, omega arith)

Wins-none :
    (n : ℕ) (vec : List (Option ℕ)) (old best : ℕ × ℕ)
    → Wins (n + 1) vec old best
    → Wins n (none ∷ vec) old best
Wins-none n vec old best h = record {
  is_least = IsLeast-cons n none vec best (λ w e. cc) h.is_least;
  comes = Comes-cons n none vec old best h.comes;
  le_old = h.le_old;
}

Wins-less :
    (n w : ℕ) (vec : List (Option ℕ)) (old best : ℕ × ℕ)
    → w < old.1
    → Wins (n + 1) vec (n, w) best
    → Wins n (some w ∷ vec) old best
Wins-less n w vec old best lt h = record {
  is_least =
      IsLeast-cons n (some w) vec best
        (λ w' e.
          let e' : w ≡ w' = cc in rw (← e') (h.le_old, lt_of_Comes _ vec (n, w) best h.comes))
        h.is_least;
  comes = Comes-new n w vec old best lt h.comes;
  le_old = omega (arith, h.le_old);
}

Wins-more :
    (n w : ℕ) (vec : List (Option ℕ)) (old best : ℕ × ℕ)
    → old.0 < n
    → old.1 ≤ w
    → Wins (n + 1) vec old best
    → Wins n (some w ∷ vec) old best
Wins-more n w vec old best lt le h = record {
  is_least =
      IsLeast-cons n (some w) vec best
        (λ w' e.
          let e' : w ≡ w' = cc in
          let less = lt_of_Comes _ vec old best h.comes in
          rw (← e') (omega (arith, h.le_old), λ l. let less' = less (omega arith) in omega arith))
        h.is_least;
  comes = Comes-cons n (some w) vec old best h.comes;
  le_old = h.le_old;
}

winner-Wins :
    (n : ℕ) (vec : List (Option ℕ)) (old : ℕ × ℕ) → old.0 < n → Wins n vec old (winner n vec old)
winner-Wins n [] old lt =
    unfold winner present min_by_val enumerate_from in
    record {
      is_least = record { least = λ j w e. cc; first = λ j w e l. cc };
      comes = inl refl;
      le_old = omega arith;
    }
winner-Wins n (none ∷ vec) old lt =
    rw winner-none (Wins-none n vec old _ (winner-Wins (n + 1) vec old (omega arith)))
winner-Wins n (some w ∷ vec) old lt = elim (Bool-cases (ltb w old.1)) [
  | inl less ↦
      rw (winner-some n w vec old, less)
        (Wins-less n w vec old _ (ground arith) (winner-Wins (n + 1) vec (n, w) (omega arith)))
  | inr more ↦
      rw (winner-some n w vec old, more)
        (Wins-more n w vec old _ lt (ground arith) (winner-Wins (n + 1) vec old (omega arith)))
]

-- The answer for the positions from `n` on.
answer : ℕ → List (Option ℕ) → Option ℕ
answer n vec = first_of_min (present (enumerate_from n vec))

answer-none' : (n : ℕ) (vec : List (Option ℕ)) → answer n (none ∷ vec) ≡ answer (n + 1) vec
unfolding answer present enumerate_from
answer-none' n vec = refl

answer-some :
    (n w : ℕ) (vec : List (Option ℕ)) → answer n (some w ∷ vec) ≡ some (winner (n + 1) vec (n, w)).0
unfolding answer winner present enumerate_from
answer-some n w vec = refl

find-answer : (vec : List (Option ℕ)) → find_smallest_present vec ≡ answer 0 vec
unfolding find_smallest_present answer
find-answer vec = refl

record Answers (n : ℕ) (vec : List (Option ℕ)) (idx : ℕ) : Type 0 where
  val : ℕ
  offset : ℕ
  is_offset : idx ≡ n + offset
  has : get_elem? vec offset ≡ some (some val)
  is_least : IsLeast n vec (idx, val)

Answers-none :
    (n : ℕ) (vec : List (Option ℕ)) (idx : ℕ) → Answers (n + 1) vec idx → Answers n (none ∷ vec) idx
Answers-none n vec idx h = record {
  val = h.val;
  offset = suc h.offset;
  is_offset = omega (arith, h.is_offset);
  has = h.has;
  is_least = IsLeast-cons n none vec (idx, h.val) (λ w e. cc) h.is_least;
}

Answers-some :
    (n w : ℕ) (vec : List (Option ℕ)) (best : ℕ × ℕ)
    → Wins (n + 1) vec (n, w) best
    → Answers n (some w ∷ vec) best.0
Answers-some n w vec best h = go h.comes
  where
    here :
        (w' : ℕ)
        → ◌≡◌ {A = Option ℕ} (some w) (some w')
        → (best.1 ≤ w') × (n < best.0 → best.1 < w')
    here w' e = let e' : w ≡ w' = cc in rw (← e') (h.le_old, lt_of_Comes _ vec (n, w) best h.comes)

    least : IsLeast n (some w ∷ vec) best
    least = IsLeast-cons n (some w) vec best here h.is_least

    go : Comes (n + 1) vec (n, w) best → Answers n (some w ∷ vec) best.0
    go (inl e) = record {
      val = best.1;
      offset = 0;
      is_offset = ap (λ p. p.0) e ∙ omega arith;
      has = ap (λ p. some (some p.1)) (sym e);
      is_least = least;
    }
    go (inr (idx, e, g, less)) = record {
      val = best.1;
      offset = suc idx;
      is_offset = omega arith;
      has = g;
      is_least = least;
    }

answer-Answers :
    (n : ℕ) (vec : List (Option ℕ)) {idx : ℕ} → answer n vec ≡ some idx → Answers n vec idx
answer-Answers n [] e = absurd (unfold answer present enumerate_from in cc)
answer-Answers n (none ∷ vec) e =
    Answers-none n vec _ (answer-Answers (n + 1) vec (sym (answer-none' n vec) ∙ e))
answer-Answers n (some w ∷ vec) {idx} e =
    let is : (winner (n + 1) vec (n, w)).0 ≡ idx = cc (answer-some n w vec) in
    rw (← is) (Answers-some n w vec _ (winner-Wins (n + 1) vec (n, w) (omega arith)))

-- The answer is a position of the least number present, and the first such position.
pub find_smallest_present-some :
    (vec : List (Option ℕ)) {idx : ℕ}
    → find_smallest_present vec ≡ some idx
    → (val : ℕ) × (get_elem? vec idx ≡ some (some val))
      × ((j w : ℕ) → get_elem? vec j ≡ some (some w) → (val ≤ w) × (j < idx → val < w))
find_smallest_present-some vec {idx} e =
    let a = answer-Answers 0 vec (sym (find-answer vec) ∙ e) in
    let same : a.offset ≡ idx = omega (arith, a.is_offset) in
    (
      a.val,
      rw (← same) a.has,
      λ j w g. (a.is_least.least j w g, λ lt. a.is_least.first j w g (omega arith)),
    )

answer-none :
    (n : ℕ) (vec : List (Option ℕ))
    → answer n vec ≡ none
    → (j w : ℕ) → get_elem? vec j ≢ some (some w)
answer-none n [] e j w = λ g. cc
answer-none n (none ∷ vec) e zero w = λ g. cc
answer-none n (none ∷ vec) e (suc j) w = answer-none (n + 1) vec (sym (answer-none' n vec) ∙ e) j w
answer-none n (some v ∷ vec) e j w = absurd (cc (answer-some n v vec))

-- No answer means that no number is present.
pub find_smallest_present-none :
    (vec : List (Option ℕ))
    → find_smallest_present vec ≡ none
    → (j w : ℕ) → get_elem? vec j ≢ some (some w)
find_smallest_present-none vec e = answer-none 0 vec (sym (find-answer vec) ∙ e)

abbrev shift_all : ℕ → List (Option ℕ) → List (Option ℕ)
shift_all k vec = map (λ o. shift o k) vec

winner-shift :
    (n k : ℕ) (vec : List (Option ℕ)) (i v : ℕ)
    → (winner n (shift_all k vec) (i, v + k)).0 ≡ (winner n vec (i, v)).0
winner-shift n k [] i v = unfold winner present min_by_val enumerate_from in refl
winner-shift n k (none ∷ vec) i v =
    rw (winner-none n (shift_all k vec), winner-none n vec) (winner-shift (n + 1) k vec i v)
winner-shift n k (some w ∷ vec) i v =
    rw (winner-some n (w + k) (shift_all k vec), winner-some n w vec)
      (elim (Bool-cases (ltb w v)) [
        | inl less ↦
            let less' : ltb (w + k) (v + k) ≡ true = ground arith in
            rw (less, less') (winner-shift (n + 1) k vec n w)
        | inr more ↦
            let more' : ltb (w + k) (v + k) ≡ false = ground arith in
            rw (more, more') (winner-shift (n + 1) k vec i v)
      ])

answer-shift : (n k : ℕ) (vec : List (Option ℕ)) → answer n (shift_all k vec) ≡ answer n vec
answer-shift n k [] = unfold answer present enumerate_from in refl
answer-shift n k (none ∷ vec) =
    rw (answer-none' n (shift_all k vec), answer-none' n vec) (answer-shift (n + 1) k vec)
answer-shift n k (some w ∷ vec) =
    rw (answer-some n (w + k) (shift_all k vec), answer-some n w vec)
      (ap some (winner-shift (n + 1) k vec n w))

-- Adding one number to all that is present does not change which is least.
pub find_smallest_present-shift :
    (vec : List (Option ℕ)) (k : ℕ)
    → find_smallest_present (map (λ o. shift o k) vec) ≡ find_smallest_present vec
find_smallest_present-shift vec k =
    find-answer (shift_all k vec) ∙ answer-shift 0 k vec ∙ sym (find-answer vec)
