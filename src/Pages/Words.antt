-- ===== src/Pages/Words.antt =====
-- Words that sh_lang_first_word (src/man.c) reads back, and the size of escaped texts.
use mandb.Base.{
  ℕ, ◌*◌, ◌≤◌, true, false, none, some, [], ◌∷◌, ◌++◌, Bytes, codes, ◌==◌, ◌≡◌, ◌≢◌, refl, ap, ◌∙◌,
  arith, if◌then◌else◌, length, map, Lacks, Bool-cases, inl, inr,
}
use mandb.CString.{has, is_digit, is_upper, is_lower}
use mandb.Pages.{
  plain, escaped, single, go, next, at_end, word_from, sh_lang_first_word, is_shell_safe,
  escape_shell, escape_less, dollar_mark,
}

-- A byte that escape_shell leaves stands for itself.
next_safe : (c : ℕ) → is_shell_safe c ≡ true → next plain c ≡ go (c ∷ []) plain
unfolding next is_shell_safe is_digit is_upper is_lower has
next_safe c h = ground (arith, h)

next_backslash : next plain b'\\' ≡ go [] escaped
unfolding next
next_backslash = refl

next_escaped : (c : ℕ) → c ≢ 10 → next escaped c ≡ go (c ∷ []) plain
unfolding next
next_escaped c l = ground (arith, l)

word-escape_shell :
    (s rest : Bytes) → Lacks 10 s → word_from plain (escape_shell s ++ (b' ' ∷ rest)) ≡ some s
unfolding word_from escape_shell
word-escape_shell [] rest l = unfold next in refl
word-escape_shell (c ∷ s) rest (l, ls) = elim (Bool-cases (is_shell_safe c)) [
  | inl e ↦ ground (arith, e, next_safe c e, word-escape_shell s rest ls)
  | inr e ↦ ground (arith, e, next_backslash, next_escaped c l, word-escape_shell s rest ls)
]

-- The first word of a command that begins with an escaped text and a blank is that text, if it has
-- no newline.
pub sh_lang_first_word-escape_shell :
    (s rest : Bytes) → Lacks 10 s → sh_lang_first_word (escape_shell s ++ (b' ' ∷ rest)) ≡ some s
unfolding sh_lang_first_word
sh_lang_first_word-escape_shell = word-escape_shell

open_single : (s : Bytes) → Lacks b'\'' s → word_from single s ≡ none
unfolding word_from next at_end
open_single [] l = refl
open_single (c ∷ s) (l, ls) = ground (arith, l, open_single s ls)

closed_single :
    (s rest : Bytes) → Lacks b'\'' s → word_from single (s ++ (b'\'' ∷ b' ' ∷ rest)) ≡ some s
unfolding word_from next
closed_single [] rest l = refl
closed_single (c ∷ s) rest (l, ls) = ground (arith, l, closed_single s rest ls)

-- A text without a single quote, behind one, is the word when the quote is closed before a blank;
-- when it is not, the loop goes on behind the end of the string.
pub sh_lang_first_word_quoted :
    (s rest : Bytes)
    → Lacks b'\'' s
    → (sh_lang_first_word (b'\'' ∷ (s ++ (b'\'' ∷ b' ' ∷ rest))) ≡ some s)
      × (sh_lang_first_word (b'\'' ∷ s) ≡ none)
unfolding sh_lang_first_word word_from next
sh_lang_first_word_quoted s rest l =
    (ground (arith, closed_single s rest l), ground (arith, open_single s l))

-- The text that less shows for an escaped one.
unfoldable pub shown : Bytes → Bytes
shown [] = []
shown (c ∷ []) = c ∷ []
shown (c ∷ d ∷ s) = if c == b'\\' then d ∷ shown s else c ∷ shown (d ∷ s)

escape_less_bound : (s : Bytes) → length (escape_less s) ≤ 2 * length s
unfolding escape_less
escape_less_bound [] = ground arith
escape_less_bound (c ∷ s) = ground (arith, escape_less_bound s)

shown_plain : (c : ℕ) (s : Bytes) → c ≢ b'\\' → shown (c ∷ s) ≡ c ∷ shown s
unfolding shown
shown_plain c [] n = refl
shown_plain c (d ∷ s) n = ground (arith, n)

shown_escaped : (d : ℕ) (s : Bytes) → shown (b'\\' ∷ d ∷ s) ≡ d ∷ shown s
unfolding shown
shown_escaped d s = refl

not_special : (d : ℕ) → has d (codes "?:.%\\") ≡ false → d ≢ b'\\'
unfolding has
not_special d h k = ground (arith, h, k)

shown-escape_less : (s : Bytes) → shown (escape_less s) ≡ map dollar_mark s
unfolding escape_less
shown-escape_less [] = unfold shown in refl
shown-escape_less (c ∷ s) = elim (Bool-cases (has (dollar_mark c) (codes "?:.%\\"))) [
  | inl e ↦ rw e (
      shown_escaped (dollar_mark c) (escape_less s)
      ∙ ap (λ t. dollar_mark c ∷ t) (shown-escape_less s))
  | inr e ↦ rw e (
      shown_plain (dollar_mark c) (escape_less s) (not_special (dollar_mark c) e)
      ∙ ap (λ t. dollar_mark c ∷ t) (shown-escape_less s))
]

-- What escape_less writes fits into twice the length of the text, and taking the escaped bytes
-- behind their backslashes gives the text with a question mark for each dollar sign.
escape_less_lem :
    (s : Bytes)
    → (length (escape_less s) ≤ 2 * length s) × (shown (escape_less s) ≡ map dollar_mark s)
escape_less_lem s = (escape_less_bound s, shown-escape_less s)
