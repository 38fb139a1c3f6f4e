-- ===== src/Text.antt =====
-- Strings as lists of code points, and `String::from_utf8_lossy`, by which shell.rs turns the bytes
-- of the terminal into text: the longest start of an ill-formed sequence becomes one U+FFFD.
pub mod Utf8
use llmsh.Base.{
  ℕ, zero, suc, ◌+◌, ◌-◌, ◌*◌, ◌/◌, ◌%◌, Bool, ◌&&◌, List, [], ◌∷◌, ◌++◌, Bytes, ◌==◌, leb,
  if◌then◌else◌,
}

abbrev pub Text : Type 0
Text = List ℕ

abbrev pub replacement_char : ℕ
replacement_char = 0xFFFD

abbrev pub within : ℕ → ℕ → ℕ → Bool
within lo hi b = leb lo b && leb b hi

-- Between two bytes: nothing, or a sequence that wants `needed` + 1 more bytes, the next from `lo` to
-- `hi`.
pub data Pending : Type 0 where
  idle : Pending
  partial : (needed lo hi acc : ℕ) → Pending

-- The first byte of a sequence.
unfoldable pub begin : ℕ → Text × Pending
begin b =
    if leb b 0x7F
    then (b ∷ [], idle)
    else if within 0xC2 0xDF b
    then ([], partial 0 0x80 0xBF (b - 0xC0))
    else if b == 0xE0
    then ([], partial 1 0xA0 0xBF 0)
    else if b == 0xED
    then ([], partial 1 0x80 0x9F 0xD)
    else if within 0xE1 0xEF b
    then ([], partial 1 0x80 0xBF (b - 0xE0))
    else if b == 0xF0
    then ([], partial 2 0x90 0xBF 0)
    else if within 0xF1 0xF3 b
    then ([], partial 2 0x80 0xBF (b - 0xF0))
    else if b == 0xF4
    then ([], partial 2 0x80 0x8F 4)
    else (replacement_char ∷ [], idle)

abbrev restart : Text × Pending → Text × Pending
restart (out, next) = (replacement_char ∷ out, next)

abbrev extend : ℕ → ℕ → Text × Pending
extend zero acc = (acc ∷ [], idle)
extend (suc needed) acc = ([], partial needed 0x80 0xBF acc)

unfoldable pub decode_byte : Pending → ℕ → Text × Pending
unfolding begin
decode_byte idle b = begin b
decode_byte (partial needed lo hi acc) b =
    if within lo hi b then extend needed (acc * 64 + (b - 0x80)) else restart (begin b)

unfoldable pub decode_from : Pending → Bytes → Text
unfolding decode_byte
decode_from idle [] = []
decode_from (partial _ _ _ _) [] = replacement_char ∷ []
decode_from pending (b ∷ bs) = let (out, next) = decode_byte pending b in out ++ decode_from next bs

unfoldable pub from_utf8_lossy : Bytes → Text
unfolding decode_from
from_utf8_lossy = decode_from idle

-- The UTF-8 of a character, and of a string: `into_bytes`.
unfoldable pub encode_char : ℕ → Bytes
encode_char c =
    if leb c 0x7F
    then c ∷ []
    else if leb c 0x7FF
    then (0xC0 + c / 64) ∷ (0x80 + c % 64) ∷ []
    else if leb c 0xFFFF
    then (0xE0 + c / 4096) ∷ (0x80 + c / 64 % 64) ∷ (0x80 + c % 64) ∷ []
    else (0xF0 + c / 262144) ∷ (0x80 + c / 4096 % 64) ∷ (0x80 + c / 64 % 64) ∷ (0x80 + c % 64) ∷ []

unfoldable pub into_bytes : Text → Bytes
unfolding encode_char
into_bytes [] = []
into_bytes (c ∷ cs) = encode_char c ++ into_bytes cs
