-- ===== src/Shell/Strings.antt =====
-- What shell.rs uses of strings: numbers in decimal, `trim`, `parse::<usize>`, `join`, `replace_last`.
use llmsh.Base.{
  ℕ, zero, suc, ◌+◌, ◌-◌, ◌*◌, ◌/◌, ◌%◌, ◌^◌, List, [], ◌∷◌, ◌++◌, Bool, ◌||◌, Option, none, some,
  Bytes, codes, ◌==◌, ltb, leb, if◌then◌else◌, length, take, drop, bytes_eq,
}
use mathlib.Core.List.{reverse}
use llmsh.Text.{Text, within}

-- `char::is_whitespace`
abbrev pub is_whitespace : ℕ → Bool
is_whitespace c =
    within 9 13 c
    || c == 32
    || c == 0x85
    || c == 0xA0
    || c == 0x1680
    || within 0x2000 0x200A c
    || within 0x2028 0x2029 c
    || c == 0x202F
    || c == 0x205F
    || c == 0x3000

unfoldable pub trim_start : Text → Text
trim_start [] = []
trim_start (c ∷ cs) = if is_whitespace c then trim_start cs else c ∷ cs

unfoldable pub trim : Text → Text
unfolding trim_start
trim s = reverse (trim_start (reverse (trim_start s)))

abbrev pub usize_max : ℕ
usize_max = 2 ^ 64 - 1

-- The digits of a number, with an error on a character that is none and on overflow.
unfoldable pub parse_digits : ℕ → Text → Option ℕ
parse_digits n [] = some n
parse_digits n (c ∷ cs) =
    let m = n * 10 + (c - b'0') in
    let rest = parse_digits m cs in
    if within b'0' b'9' c then (if leb m usize_max then rest else none) else none

-- `parse::<usize>()`: a sign `+` is allowed, no digits are an error.
unfoldable pub parse_usize : Text → Option ℕ
unfolding parse_digits
parse_usize [] = none
parse_usize (c ∷ []) = parse_digits 0 (c ∷ [])
parse_usize (c ∷ d ∷ cs) =
    if c == b'+' then parse_digits 0 (d ∷ cs) else parse_digits 0 (c ∷ d ∷ cs)

-- `{}` of a number. A number has no more digits than its value and one.
unfoldable pub decimal_from : ℕ → ℕ → Text → Text
decimal_from zero n out = out
decimal_from (suc fuel) n out =
    let out' = (b'0' + n % 10) ∷ out in
    let rest = decimal_from fuel (n / 10) out' in if ltb n 10 then out' else rest

unfoldable pub decimal : ℕ → Text
unfolding decimal_from
decimal n = decimal_from (suc n) n []

-- `.iter().enumerate().map(|(i, s)| format!("[{}] `{}`", i, s)).collect().join("\n")`, from `i` on
unfoldable pub choices_from : ℕ → List Text → Text
unfolding decimal
choices_from i [] = []
choices_from i (s ∷ []) = codes "[" ++ decimal i ++ codes "] `" ++ s ++ codes "`"
choices_from i (s ∷ t ∷ r) =
    codes "[" ++ decimal i ++ codes "] `" ++ s ++ codes "`\n" ++ choices_from (i + 1) (t ∷ r)

-- haystack.rfind(needle), for a needle that is not empty
unfoldable pub rfind : Bytes → Bytes → Option ℕ
unfolding bytes_eq
rfind needle [] = none
rfind needle (c ∷ cs) = elim (rfind needle cs) [
  | some i ↦ some (suc i)
  | none ↦ if bytes_eq (take (length needle) (c ∷ cs)) needle then some 0 else none
]

unfoldable pub replace_last : Bytes → Bytes → Bytes → Bytes
unfolding rfind
replace_last haystack needle replacement = elim (rfind needle haystack) [
  | some pos ↦ take pos haystack ++ replacement ++ drop (pos + length needle) haystack
  | none ↦ haystack
]
