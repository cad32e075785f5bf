-- ===== src/WordFnmatch.antt =====
-- lib/wordfnmatch.c: a pattern against the words of a text.
pub mod Words
use mandb.Base.{
  ℕ, zero, suc, ◌+◌, Bool, true, false, not, ◌&&◌, ◌||◌, List, [], ◌∷◌, ◌++◌, Bytes, ◌==◌, leb,
  if◌then◌else◌, length,
}
use mandb.CString.{is_alpha}

unfoldable pub is_word_char : ℕ → Bool
unfolding is_alpha
is_word_char c = is_alpha c || c == b'_'

-- The loop: `word` is the text from `begin` up to `p`, and the list begins at `p`. So `p <= begin + 1`
-- is the test that `word` has at most one byte, and `begin++` takes a byte off `word` and the bytes
-- behind it. The first argument is fnmatch (…, FNM_CASEFOLD) == 0, of the C library.
unfoldable pub scan : (Bytes → Bytes → Bool) → Bytes → Bytes → Bytes → Bool
unfolding is_word_char
scan fnmatch pattern word [] = false
scan fnmatch pattern word (c ∷ s) =
    let longer = scan fnmatch pattern (word ++ (c ∷ [])) s in
    let anew = scan fnmatch pattern [] s in
    let shorter = scan fnmatch pattern (c ∷ []) s in
    if is_word_char c then longer else elim word [
      | [] ↦ anew
      | x ∷ xs ↦ elim xs [
        | [] ↦ shorter
        | y ∷ ys ↦ if fnmatch pattern (x ∷ y ∷ ys) then true else anew
      ]
    ]

unfoldable pub word_fnmatch : (Bytes → Bytes → Bool) → Bytes → Bytes → Bool
unfolding scan
word_fnmatch fnmatch pattern string = scan fnmatch pattern [] string
