-- ===== src/Utf8.antt =====
-- utf8_validate_len (src/utf8.c). The list holds the max_len bytes; `b & mask == expect` is written
-- as a quotient, the masks being leading bits.
pub mod WellFormed
use mandb.Base.{
  ℕ, zero, suc, ◌+◌, ◌/◌, ◌%◌, Bool, true, false, not, ◌&&◌, List, [], ◌∷◌, Bytes, ◌==◌, ltb,
  if◌then◌else◌, length, drop,
}

-- (b & 0xc0) == 0x80
unfoldable pub is_tail : ℕ → Bool
is_tail b = b / 64 == 2

-- The second byte behind 1110xxxx, by the lower half of the first.
unfoldable pub second_of_three : ℕ → ℕ → Bool
second_of_three a b =
    if a % 16 == 0 then b / 32 == 5 else if a % 16 == 13 then b / 32 == 4 else is_tail b

-- The second byte behind 11110xxx, by the last three bits of the first.
unfoldable pub second_of_four : ℕ → ℕ → Bool
second_of_four a b =
    if a % 8 == 0
    then is_tail b && not ((b / 16) % 4 == 0)
    else if a % 8 == 4
    then b / 16 == 8
    else is_tail b

-- What is taken of the text by one round of the loop, which is no more than it holds; `zero` is the
-- end of the loop or an error.
unfoldable pub char_length : Bytes → ℕ
char_length [] = 0
char_length (a ∷ s) =
    if a == 0
    then 0
    else if ltb a 128
    then 1
    else if ltb a 224
    then elim s [ [] ↦ 0 | b ∷ t ↦ if ltb a 194 then 0 else if is_tail b then 2 else 0 ]
    else if ltb a 240
    then elim s [
      | [] ↦ 0
      | b ∷ t ↦ elim t [ [] ↦ 0 | c ∷ u ↦ if second_of_three a b && is_tail c then 3 else 0 ]
    ]
    else if ltb a 245
    then elim s [
      | [] ↦ 0
      | b ∷ t ↦ elim t [
        | [] ↦ 0
        | c ∷ u ↦ elim u [
          | [] ↦ 0
          | d ∷ v ↦ if second_of_four a b && (is_tail c && is_tail d) then 4 else 0
        ]
      ]
    ]
    else 0

-- The bytes before the place that is returned; the fuel is that of max_len rounds.
unfoldable pub fast_validate_len : ℕ → Bytes → ℕ
fast_validate_len zero s = 0
fast_validate_len (suc f) s =
    let rest = fast_validate_len f in
    elim s [
      | [] ↦ 0
      | a ∷ t ↦ elim (char_length (a ∷ t)) [ zero ↦ 0 | suc n ↦ suc n + rest (drop n t) ]
    ]

unfoldable pub utf8_validate_len : Bytes → Bool
utf8_validate_len str = fast_validate_len (length str) str == length str
