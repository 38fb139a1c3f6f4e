-- ===== src/Ansi.antt =====
-- llmsh/src/parsing.rs: `strip_ansi_escape_sequences`. The expression is read as its crate documents:
-- the leftmost match, of the alternatives at one place the first. In its verbose mode white space is
-- dropped in a class too, so the class written `[ -/]` holds a dash and a slash.
pub mod Bells
use llmsh.Base.{
  ℕ, zero, suc, ◌+◌, ◌-◌, Bool, ◌||◌, not, Option, none, some, [], ◌∷◌, ◌++◌, ◌==◌, if◌then◌else◌,
  take, drop, bytes_eq,
}
use llmsh.Text.{Text, within}

abbrev pub esc : ℕ
esc = 0x1B

abbrev pub bell : ℕ
bell = 7

-- The longest run of characters of a class.
unfoldable pub run : (ℕ → Bool) → Text → ℕ
run p [] = 0
run p (c ∷ cs) = let rest = run p cs in if p c then suc rest else 0

abbrev closed_by : (ℕ → Bool) → ℕ → Text → Option ℕ
closed_by q n [] = none
closed_by q n (c ∷ _) = if q c then some (n + 1) else none

-- A run of one class, then a character of another that is disjoint from it: what both measure.
unfoldable pub run_then : (ℕ → Bool) → (ℕ → Bool) → Text → Option ℕ
unfolding run
run_then p q cs = closed_by q (run p cs) (drop (run p cs) cs)

abbrev pub is_letter : ℕ → Bool
is_letter c = within b'a' b'z' c || within b'A' b'Z' c

abbrev pub plus : ℕ → Option ℕ → Option ℕ
plus k none = none
plus k (some n) = some (k + n)

infixr 30 ◌orelse◌
abbrev pub ◌orelse◌ : Option ℕ → Option ℕ → Option ℕ
some n orelse o = some n
none orelse o = o

-- The parameter says which characters `\d` fits; of ASCII these are the ten digits.
module _ (is_decimal : ℕ → Bool) where
  -- The alternatives that begin with ESC, behind it.
  unfoldable pub osc : Text → Option ℕ
  unfolding run_then
  osc [] = none
  osc (c ∷ cs) =
      if c == b']' then plus 1 (run_then (λ d. not (d == bell)) (λ d. d == bell) cs) else none

  unfoldable pub csi : Text → Option ℕ
  unfolding run_then
  csi [] = none
  csi (c ∷ cs) =
      if c == b'[' || c == b'?'
      then plus 1 (run_then (λ d. within b'0' b'9' d || d == b';') is_letter cs)
      else none

  unfoldable pub fe : Text → Option ℕ
  fe [] = none
  fe (c ∷ cs) = if c == b'F' || c == b'G' then some 1 else none

  -- `\d*(;\d*)*` fits any run of digits and semicolons.
  unfoldable pub sgr : Text → Option ℕ
  unfolding run_then
  sgr [] = none
  sgr (c ∷ cs) =
      if c == b'['
      then plus 1 (run_then (λ d. is_decimal d || d == b';') (λ d. d == b'm') cs)
      else none

  unfoldable pub c1 : Text → Option ℕ
  unfolding run_then run
  c1 [] = none
  c1 (c ∷ cs) =
      let n = run (within b'0' b'?') cs in
      if within b'@' b'_' c
      then plus (1 + n) (run_then (λ d. d == b'-' || d == b'/') (within b'@' b'~') (drop n cs))
      else none

  -- How long the match is that begins at the head of a text, if one does.
  unfoldable pub match_length : Text → Option ℕ
  unfolding osc csi fe sgr c1
  match_length [] = none
  match_length (c ∷ cs) =
      if c == esc
      then plus 1 (osc cs orelse csi cs orelse fe cs orelse sgr cs orelse c1 cs)
      else if c == bell
      then some 1
      else none

  -- The matches that stay: the left and the right arrow.
  unfoldable pub is_allowed : Text → Bool
  is_allowed cap = bytes_eq cap (esc ∷ b'[' ∷ b'D' ∷ []) || bytes_eq cap (esc ∷ b'[' ∷ b'C' ∷ [])

  -- The replacement of all matches, of which `skip` characters are to be passed over.
  unfoldable pub replace_from : ℕ → Text → Text
  unfolding match_length is_allowed
  replace_from skip [] = []
  replace_from (suc skip) (c ∷ cs) = replace_from skip cs
  replace_from zero (c ∷ cs) = elim (match_length (c ∷ cs)) [
    | none ↦ c ∷ replace_from 0 cs
    | some n ↦
        (if is_allowed (take n (c ∷ cs)) then take n (c ∷ cs) else []) ++ replace_from (n - 1) cs
  ]

  unfoldable pub strip_ansi_escape_sequences : Text → Text
  unfolding replace_from
  strip_ansi_escape_sequences = replace_from 0
