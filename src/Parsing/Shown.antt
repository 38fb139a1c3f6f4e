-- ===== src/Parsing/Shown.antt =====
-- The bytes that a match shows: the same, whether they are cut from the buffer or from all the text.
use llmsh.Base.{
  ℕ, zero, suc, ◌+◌, ◌-◌, ◌*◌, ◌≤◌, ◌<◌, Bool, true, false, ◌||◌, [], ◌∷◌, ◌++◌, Bytes, ◌≡◌, refl,
  sym, ap, ◌∙◌, arith, ok, ltb, length, take, drop, drop-append_add, cycle_take, slice, drain,
  dec_lt,
}
use mathlib.Core.Path.{ap₂}
use llmsh.Parsing.{shown, delete_char, end_of}
use llmsh.Parsing.Reference.{deletions, display}

cycle_take_again :
    (n x : ℕ) (xs : Bytes) → cycle_take n [] (x ∷ xs) ≡ cycle_take n (x ∷ xs) (x ∷ xs)
unfolding cycle_take
cycle_take_again zero x xs = refl
cycle_take_again (suc n) x xs = refl

cycle_take-deletions : (k : ℕ) → cycle_take (3 * k) delete_char delete_char ≡ deletions k
unfolding cycle_take
cycle_take-deletions zero = refl
cycle_take-deletions (suc k) =
    let e : 3 * suc k ≡ suc (suc (suc (3 * k))) = omega arith in
    rw e
      (ap (λ r. 8 ∷ 32 ∷ 8 ∷ r) (cycle_take_again (3 * k) 8 (32 ∷ 8 ∷ []) ∙ cycle_take-deletions k))

pub slice_ok :
    (lo hi : ℕ) (xs : Bytes)
    → lo ≤ hi
    → hi ≤ length xs
    → slice lo hi xs ≡ ok (take (hi - lo) (drop lo xs))
unfolding slice
slice_ok lo hi xs p q = let e : (ltb hi lo || ltb (length xs) hi) ≡ false = ground arith in rw e

pub drain_ok : (n : ℕ) (xs : Bytes) → n ≤ length xs → drain n xs ≡ ok (drop n xs)
unfolding drain
drain_ok n xs p = let e : ltb (length xs) n ≡ false = ground arith in rw e

shown_new : (b : Bytes) (n i end : ℕ) → n < end → shown b n i end ≡ slice n end b
unfolding shown
shown_new b n i end p = let e : ltb n end ≡ true = ground arith in rw e

shown_old :
    (b : Bytes) (n i end : ℕ)
    → end ≤ n
    → i ≤ n
    → shown b n i end ≡ ok (cycle_take (3 * (n - i)) delete_char delete_char)
unfolding shown
shown_old b n i end p q =
    let e : ltb n end ≡ false = ground arith in
    let e' : ltb n i ≡ false = ground arith in rw (e, e')

display_new :
    (text : Bytes) (seen i end : ℕ)
    → seen < end
    → display text seen i end ≡ take (end - seen) (drop seen text)
display_new text seen i end p = let e : ltb seen end ≡ true = ground arith in rw e

display_old :
    (text : Bytes) (seen i end : ℕ) → end ≤ seen → display text seen i end ≡ deletions (seen - i)
display_old text seen i end p = let e : ltb seen end ≡ false = ground arith in rw e

-- `d` was dropped in front of the buffer `b`.
shown_moved :
    (d b : Bytes) (n i end : ℕ)
    → i ≤ end
    → end ≤ length b
    → shown b n i end ≡ ok (display (d ++ b) (length d + n) (length d + i) (length d + end))
shown_moved d b n i end p q = elim (dec_lt n end) [
  | yes lt ↦
      let e : length d + end - (length d + n) ≡ end - n = omega arith in
      shown_new b n i end lt
      ∙ slice_ok n end b (omega arith) q
      ∙ ap ok (
          sym (
            display_new (d ++ b) (length d + n) (length d + i) (length d + end) (omega arith)
            ∙ ap₂ take e (drop-append_add d b n)))
  | no ge ↦
      let e : length d + n - (length d + i) ≡ n - i = omega arith in
      shown_old b n i end (omega arith) (omega arith)
      ∙ ap ok (
          cycle_take-deletions (n - i)
          ∙ ap deletions (sym e)
          ∙ sym (display_old (d ++ b) (length d + n) (length d + i) (length d + end) (omega arith)))
]

pub shown_lem :
    (d b : Bytes) (n i : ℕ) (visible : Bool) (id : Bytes)
    → i + length id ≤ length b
    → shown b n i (end_of visible i id)
      ≡ ok (display (d ++ b) (length d + n) (length d + i) (end_of visible (length d + i) id))
shown_lem d b n i true id p =
    let e : length d + (i + length id) ≡ length d + i + length id = omega arith in
    shown_moved d b n i (i + length id) (omega arith) p
    ∙ ap (λ t. ok (display (d ++ b) (length d + n) (length d + i) t)) e
shown_lem d b n i false id p = shown_moved d b n i i (omega arith) (omega arith)
