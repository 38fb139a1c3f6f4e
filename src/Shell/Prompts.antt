-- ===== src/Shell/Prompts.antt =====
-- shell.rs, `replace_last` and the prompt of `inject_markers`: the last `\$` of a prompt.
use mathlib.Core.Path.{ap₂}
use llmsh.Base.{
  ℕ, zero, suc, ◌+◌, ◌<◌, [], ◌∷◌, ◌++◌, Option, none, some, Bool, true, false, bytes_eq,
  bytes_eq_refl, eq_of_bytes_eq, length, take, drop, take-append-drop, drop-drop, drop-all, dec_lt,
  append_assoc, length-take, ◌≡◌, refl, sym, ap, ◌∙◌, arith, if◌then◌else◌,
}
use llmsh.Text.{Text}
use llmsh.Shell.Strings.{rfind, replace_last}
use llmsh.Shell.Start.{crab, dollar, marked_prompt}

-- The text `needle` stands at place `i`.
abbrev pub Stands : Text → Text → ℕ → Type 0
Stands needle haystack i = take (length needle) (drop i haystack) ≡ needle

-- What `rfind` answers: the last place but for the end.
abbrev Found : Text → Text → Option ℕ → Type 0
Found needle haystack none = (i : ℕ) → i < length haystack → ¬ Stands needle haystack i
Found needle haystack (some pos) =
    Stands needle haystack pos
    × ((i : ℕ) → pos < i → i < length haystack → ¬ Stands needle haystack i)

rfind-Found : (needle haystack : Text) → Found needle haystack (rfind needle haystack)
unfolding rfind
rfind-Found needle [] = λ i lt. absurd (omega arith)
rfind-Found needle (c ∷ cs) = found (rfind needle cs) (rfind-Found needle cs)
  where
    moved :
        (i : ℕ)
        → ((j : ℕ) → i < j → j < length cs → ¬ Stands needle cs j)
        → (j : ℕ) → suc i < j
        → j < suc (length cs)
        → ¬ Stands needle (c ∷ cs) j
    moved i later zero lt below s = omega arith
    moved i later (suc j) lt below s = later j (omega arith) (omega arith) s

    moved_all :
        ((j : ℕ) → j < length cs → ¬ Stands needle cs j)
        → (j : ℕ) → 0 < j
        → j < suc (length cs)
        → ¬ Stands needle (c ∷ cs) j
    moved_all f zero lt below s = omega arith
    moved_all f (suc j) lt below s = f j (omega arith) s

    neither :
        ((j : ℕ) → j < length cs → ¬ Stands needle cs j)
        → bytes_eq (take (length needle) (c ∷ cs)) needle ≡ false
        → (j : ℕ) → j < suc (length cs)
        → ¬ Stands needle (c ∷ cs) j
    neither f e zero below s =
        let r = bytes_eq_refl needle in let q = ap (λ t. bytes_eq t needle) s in cc
    neither f e (suc j) below s = f j (omega arith) s

    behind :
        (r : Option ℕ)
        → Found needle cs r
        → (b : Bool) → bytes_eq (take (length needle) (c ∷ cs)) needle ≡ b
        → Found needle
            (c ∷ cs)
            (elim r [ some i ↦ some (suc i) | none ↦ if b then some 0 else none ])
    behind (some i) (at, later) b e = (at, moved i later)
    behind none f true e = (eq_of_bytes_eq _ _ e, moved_all f)
    behind none f false e = λ j below. neither f e j below

    found :
        (r : Option ℕ)
        → Found needle cs r
        → Found needle (c ∷ cs) (elim r [
          | some i ↦ some (suc i)
          | none ↦ if bytes_eq (take (length needle) (c ∷ cs)) needle then some 0 else none
        ])
    found r f = behind r f _ refl

-- A text that stands at a place, and what is around it.
Stands-split :
    (needle haystack : Text) (pos : ℕ)
    → Stands needle haystack pos
    → haystack ≡ take pos haystack ++ needle ++ drop (pos + length needle) haystack
Stands-split needle haystack pos at =
    sym (take-append-drop pos haystack)
    ∙ ap (λ t. take pos haystack ++ t)
        (sym (take-append-drop (length needle) (drop pos haystack))
          ∙ ap₂ ◌++◌ at (drop-drop (length needle) pos haystack))
    ∙ sym (append_assoc (take pos haystack) needle (drop (pos + length needle) haystack))

-- The prompt's `\$` that is replaced, or its absence.
pub data Replaced (ps1 : Text) : Text → Type 0 where
  replaced :
      (pre post : Text)
      → ps1 ≡ pre ++ dollar ++ post
      → ((i : ℕ) → length pre < i → ¬ Stands dollar ps1 i)
      → Replaced ps1 (pre ++ crab ++ post)
  appended : ((i : ℕ) → ¬ Stands dollar ps1 i) → Replaced ps1 (ps1 ++ crab)

-- Nothing stands at the end.
within_length : (ps1 : Text) (i : ℕ) → Stands dollar ps1 i → i < length ps1
within_length ps1 i s = elim (dec_lt i (length ps1)) [
  | yes lt ↦ lt
  | no le ↦
      let empty : [] ≡ dollar =
        ap (take (length dollar)) (sym (drop-all i ps1 (omega arith))) ∙ s in
      cc
]

replace_last-some :
    (haystack needle replacement : Text) (pos : ℕ)
    → rfind needle haystack ≡ some pos
    → replace_last haystack needle replacement
      ≡ take pos haystack ++ replacement ++ drop (pos + length needle) haystack
unfolding replace_last
replace_last-some haystack needle replacement pos e = rw (replace_last, e) refl

-- The prompt that is written is the shell's own with its last `\$` replaced by the sign, or with the sign
-- at its end if it has none.
pub marked_prompt-Replaced : (ps1 : Text) → Replaced ps1 (marked_prompt ps1)
unfolding marked_prompt replace_last
marked_prompt-Replaced ps1 = of_found (rfind dollar ps1) refl (rfind-Found dollar ps1)
  where
    of_found :
        (r : Option ℕ)
        → rfind dollar ps1 ≡ r
        → Found dollar ps1 r
        → Replaced ps1 (marked_prompt ps1)
    of_found none e f = rw (marked_prompt, e) (appended (λ i s. f i (within_length ps1 i s) s))
    of_found (some pos) e (at, later) =
        rw (marked_prompt, e, replace_last-some ps1 dollar crab pos e)
          (replaced (take pos ps1) (drop (pos + length dollar) ps1) (Stands-split dollar ps1 pos at)
            (λ i lt s.
              later i (omega (arith, length-take pos ps1, lt, within_length ps1 pos at))
                (within_length ps1 i s) s))
