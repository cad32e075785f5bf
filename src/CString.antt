-- ===== src/CString.antt =====
-- The C library's string functions that man-db calls, on strings without their terminating NUL.
-- A string is the list of its bytes; the locale is "C".
pub mod Compare
pub mod Search
pub mod Long
pub mod Fields
use mandb.Base.{
  ℕ, ◌+◌, ◌&&◌, ◌||◌, not, Bool, true, false, Option, none, some, List, [], ◌∷◌, ◌++◌, Bytes, ◌==◌,
  leb, if◌then◌else◌, compare, Ordering, map,
}

-- strcmp (a, b) == 0
unfoldable pub streq : Bytes → Bytes → Bool
streq [] [] = true
streq (x ∷ a) (y ∷ b) = x == y && streq a b
streq _ _ = false

-- strncmp (a, b, strlen (a)) == 0
unfoldable pub starts_with : Bytes → Bytes → Bool
starts_with [] b = true
starts_with (x ∷ a) [] = false
starts_with (x ∷ a) (y ∷ b) = x == y && starts_with a b

-- What the callers read of an `int` result of a comparison: its sign.
abbrev pub or_else : Ordering → Ordering → Ordering
or_else Ordering.eq o = o
or_else Ordering.lt o = Ordering.lt
or_else Ordering.gt o = Ordering.gt

-- The sign of strcmp (a, b): bytes are compared as unsigned char.
unfoldable pub strcmp : Bytes → Bytes → Ordering
strcmp [] [] = Ordering.eq
strcmp [] (y ∷ b) = Ordering.lt
strcmp (x ∷ a) [] = Ordering.gt
strcmp (x ∷ a) (y ∷ b) = or_else (compare x y) (strcmp a b)

-- Whether the byte stands in the string.
unfoldable pub has : ℕ → Bytes → Bool
has d [] = false
has d (c ∷ s) = c == d || has d s

-- The bytes before the first `d`, or all.
unfoldable pub before : ℕ → Bytes → Bytes
before d [] = []
before d (c ∷ s) = if c == d then [] else c ∷ before d s

-- strchr (s, d) + 1: the bytes behind the first `d`, if there is one.
unfoldable pub behind : ℕ → Bytes → Option Bytes
behind d [] = none
behind d (c ∷ s) = if c == d then some s else behind d s

-- strrchr (s, d): the bytes before the last `d` and those behind it.
unfoldable pub split_last : ℕ → Bytes → Option (Bytes × Bytes)
unfolding has
split_last d [] = none
split_last d (c ∷ s) = elim (split_last d s) [
  | some (a, b) ↦ some (c ∷ a, b)
  | none ↦ if c == d then some ([], s) else none
]

-- strsep (&p, "d"): the token, and the new value of `p`.
unfoldable pub strsep : ℕ → Option Bytes → Option (Bytes × Option Bytes)
unfolding before behind
strsep d none = none
strsep d (some s) = some (before d s, behind d s)

-- strstr (s, pat): the bytes before the first occurrence, and those from its start on.
unfoldable pub strstr : Bytes → Bytes → Option (Bytes × Bytes)
unfolding starts_with
strstr pat [] = if starts_with pat [] then some ([], []) else none
strstr pat (c ∷ s) =
    if starts_with pat (c ∷ s)
    then some ([], c ∷ s)
    else elim (strstr pat s) [ none ↦ none | some (a, b) ↦ some (c ∷ a, b) ]

unfoldable pub is_upper : ℕ → Bool
is_upper c = leb b'A' c && leb c b'Z'

unfoldable pub is_lower : ℕ → Bool
is_lower c = leb b'a' c && leb c b'z'

unfoldable pub is_digit : ℕ → Bool
is_digit c = leb b'0' c && leb c b'9'

unfoldable pub is_space : ℕ → Bool
is_space c = c == b' ' || leb 9 c && leb c 13

unfoldable pub is_alpha : ℕ → Bool
unfolding is_upper is_lower
is_alpha c = is_upper c || is_lower c

unfoldable pub tolower : ℕ → ℕ
unfolding is_upper
tolower c = if is_upper c then c + 32 else c
