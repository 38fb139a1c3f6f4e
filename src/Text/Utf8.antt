-- ===== src/Text/Utf8.antt =====
-- UTF-8: `from_utf8_lossy` takes back what `into_bytes` made of a string.
use llmsh.Base.{
  ℕ, suc, ◌+◌, ◌-◌, ◌*◌, ◌/◌, ◌%◌, ◌<◌, ◌≤◌, true, false, [], ◌∷◌, ◌++◌, Bytes, All, ◌≡◌, ◌⊎◌, inl,
  inr, refl, ap, ◌∙◌, arith, leb, dec_lt,
}
use llmsh.Text.{
  Text, Pending, idle, partial, begin, decode_byte, decode_from, from_utf8_lossy, encode_char,
  into_bytes,
}

-- A Unicode scalar value, which a `char` is.
abbrev pub IsScalar : ℕ → Type 0
IsScalar c = (c < 0xD800) ⊎ ((0xE000 ≤ c) × (c ≤ 0x10FFFF))

one_byte : (c : ℕ) → c < 0x80 → begin c ≡ (c ∷ [], idle)
unfolding begin
one_byte c lt = ground arith

begin_two :
    (c : ℕ) → 0x80 ≤ c → c < 0x800 → begin (0xC0 + c / 64) ≡ ([], partial 0 0x80 0xBF (c / 64))
unfolding begin
begin_two c ge lt = ground arith

begin_three :
    (c : ℕ)
    → (0x1000 ≤ c) × (c < 0xD000) ⊎ (0xE000 ≤ c) × (c < 0x10000)
    → begin (0xE0 + c / 4096) ≡ ([], partial 1 0x80 0xBF (c / 4096))
unfolding begin
begin_three c is = ground arith

begin_four :
    (c : ℕ)
    → 0x40000 ≤ c
    → c < 0x100000
    → begin (0xF0 + c / 262144) ≡ ([], partial 2 0x80 0xBF (c / 262144))
unfolding begin
begin_four c ge lt = ground arith

-- A sequence is read byte by byte: the last byte ends a character, any other is in its range.
last_byte :
    (lo hi acc b : ℕ) (bs : Bytes)
    → lo ≤ b
    → b ≤ hi
    → decode_from (partial 0 lo hi acc) (b ∷ bs) ≡ (acc * 64 + (b - 0x80)) ∷ decode_from idle bs
unfolding decode_from decode_byte
last_byte lo hi acc b bs ge le = ground arith

next_byte :
    (needed lo hi acc b : ℕ) (bs : Bytes)
    → lo ≤ b
    → b ≤ hi
    → decode_from (partial (suc needed) lo hi acc) (b ∷ bs)
      ≡ decode_from (partial needed 0x80 0xBF (acc * 64 + (b - 0x80))) bs
unfolding decode_from decode_byte
next_byte needed lo hi acc b bs ge le = ground arith

first_byte :
    (b : ℕ) (bs : Bytes) (p : Pending)
    → begin b ≡ ([], p)
    → decode_from idle (b ∷ bs) ≡ decode_from p bs
unfolding decode_from decode_byte
first_byte b bs p e = rw e

read_three :
    (c lo hi : ℕ) (bs : Bytes)
    → begin (0xE0 + c / 4096) ≡ ([], partial 1 lo hi (c / 4096))
    → lo ≤ 0x80 + c / 64 % 64
    → 0x80 + c / 64 % 64 ≤ hi
    → decode_from idle ((0xE0 + c / 4096) ∷ (0x80 + c / 64 % 64) ∷ (0x80 + c % 64) ∷ bs)
      ≡ c ∷ decode_from idle bs
read_three c lo hi bs begins ge le =
    first_byte _ _ _ begins
    ∙ next_byte 0 lo hi (c / 4096) (0x80 + c / 64 % 64) _ ge le
    ∙ last_byte 0x80 0xBF _ (0x80 + c % 64) bs (omega arith) (omega arith)
    ∙ ap (λ n. n ∷ decode_from idle bs) (omega arith)

read_four :
    (c lo hi : ℕ) (bs : Bytes)
    → begin (0xF0 + c / 262144) ≡ ([], partial 2 lo hi (c / 262144))
    → lo ≤ 0x80 + c / 4096 % 64
    → 0x80 + c / 4096 % 64 ≤ hi
    → decode_from idle
        ((0xF0 + c / 262144) ∷ (0x80 + c / 4096 % 64) ∷ (0x80 + c / 64 % 64) ∷ (0x80 + c % 64) ∷ bs)
      ≡ c ∷ decode_from idle bs
read_four c lo hi bs begins ge le =
    first_byte _ _ _ begins
    ∙ next_byte 1 lo hi (c / 262144) (0x80 + c / 4096 % 64) _ ge le
    ∙ next_byte 0 0x80 0xBF _ (0x80 + c / 64 % 64) _ (omega arith) (omega arith)
    ∙ last_byte 0x80 0xBF _ (0x80 + c % 64) bs (omega arith) (omega arith)
    ∙ ap (λ n. n ∷ decode_from idle bs) (omega arith)

three :
    (c : ℕ) (bs : Bytes)
    → IsScalar c
    → 0x800 ≤ c
    → c < 0x10000
    → decode_from idle ((0xE0 + c / 4096) ∷ (0x80 + c / 64 % 64) ∷ (0x80 + c % 64) ∷ bs)
      ≡ c ∷ decode_from idle bs
unfolding begin
three c bs scalar ge lt = elim (dec_lt c 0x1000) [
  | yes low ↦
      let e : c / 4096 ≡ 0 = omega arith in
      read_three c 0xA0 0xBF bs (rw e refl) (omega arith) (omega arith)
  | no above ↦ elim (dec_lt c 0xD000) [
    | yes mid ↦
        read_three c 0x80 0xBF bs (begin_three c (inl (omega arith, mid))) (omega arith)
          (omega arith)
    | no high ↦ elim (dec_lt c 0xD800) [
      | yes d ↦
          let e : c / 4096 ≡ 13 = omega arith in
          read_three c 0x80 0x9F bs (rw e refl) (omega arith) (omega arith)
      | no e ↦
          read_three c 0x80 0xBF bs (begin_three c (inr (above_gap scalar (omega arith), lt)))
            (omega arith) (omega arith)
    ]
  ]
]
  where
    above_gap : IsScalar c → 0xD800 ≤ c → 0xE000 ≤ c
    above_gap (inl under) ge = absurd (omega arith)
    above_gap (inr (ge', le)) ge = ge'

four :
    (c : ℕ) (bs : Bytes)
    → 0x10000 ≤ c
    → c ≤ 0x10FFFF
    → decode_from idle
        ((0xF0 + c / 262144) ∷ (0x80 + c / 4096 % 64) ∷ (0x80 + c / 64 % 64) ∷ (0x80 + c % 64) ∷ bs)
      ≡ c ∷ decode_from idle bs
unfolding begin
four c bs ge le = elim (dec_lt c 0x40000) [
  | yes low ↦
      let e : c / 262144 ≡ 0 = omega arith in
      read_four c 0x90 0xBF bs (rw e refl) (omega arith) (omega arith)
  | no above ↦ elim (dec_lt c 0x100000) [
    | yes mid ↦
        read_four c 0x80 0xBF bs (begin_four c (omega arith) mid) (omega arith) (omega arith)
    | no high ↦
        let e : c / 262144 ≡ 4 = omega arith in
        read_four c 0x80 0x8F bs (rw e refl) (omega arith) (omega arith)
  ]
]

two :
    (c : ℕ) (bs : Bytes)
    → 0x80 ≤ c
    → c < 0x800
    → decode_from idle ((0xC0 + c / 64) ∷ (0x80 + c % 64) ∷ bs) ≡ c ∷ decode_from idle bs
two c bs ge lt =
    first_byte _ _ _ (begin_two c ge lt)
    ∙ last_byte 0x80 0xBF (c / 64) (0x80 + c % 64) bs (omega arith) (omega arith)
    ∙ ap (λ n. n ∷ decode_from idle bs) (omega arith)

one : (c : ℕ) (bs : Bytes) → c < 0x80 → decode_from idle (c ∷ bs) ≡ c ∷ decode_from idle bs
unfolding decode_from decode_byte
one c bs lt = rw (one_byte c lt)

at_most : (c : ℕ) → IsScalar c → c ≤ 0x10FFFF
at_most c (inl under) = omega arith
at_most c (inr (ge, le)) = le

-- One character, and what is behind it.
decode_from-encode_char :
    (c : ℕ) (bs : Bytes)
    → IsScalar c
    → decode_from idle (encode_char c ++ bs) ≡ c ∷ decode_from idle bs
unfolding encode_char
decode_from-encode_char c bs scalar = elim (dec_lt c 0x80) [
  | yes short ↦ let e : leb c 0x7F ≡ true = ground arith in rw e (one c bs short)
  | no past ↦
      let e : leb c 0x7F ≡ false = ground arith in
      elim (dec_lt c 0x800) [
        | yes second ↦
            let f : leb c 0x7FF ≡ true = ground arith in rw (e, f) (two c bs (omega arith) second)
        | no past2 ↦
            let f : leb c 0x7FF ≡ false = ground arith in
            elim (dec_lt c 0x10000) [
              | yes third ↦
                  let g : leb c 0xFFFF ≡ true = ground arith in
                  rw (e, f, g) (three c bs scalar (omega arith) third)
              | no past3 ↦
                  let g : leb c 0xFFFF ≡ false = ground arith in
                  rw (e, f, g) (four c bs (omega arith) (at_most c scalar))
            ]
      ]
]

decode_from-into_bytes : (t : Text) → All IsScalar t → decode_from idle (into_bytes t) ≡ t
unfolding into_bytes decode_from
decode_from-into_bytes [] are = refl
decode_from-into_bytes (c ∷ cs) (is, are) =
    decode_from-encode_char c (into_bytes cs) is ∙ ap (λ t. c ∷ t) (decode_from-into_bytes cs are)

-- The bytes of a string of characters are read as that string.
pub from_utf8_lossy-into_bytes : (t : Text) → All IsScalar t → from_utf8_lossy (into_bytes t) ≡ t
unfolding from_utf8_lossy
from_utf8_lossy-into_bytes t are = decode_from-into_bytes t are
