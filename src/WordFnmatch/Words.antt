-- ===== src/WordFnmatch/Words.antt =====
-- word_fnmatch (lib/wordfnmatch.c) and the words of a text.
use mandb.Base.{
  ℕ, Bool, true, false, ◌||◌, List, [], ◌∷◌, ◌++◌, Bytes, ◌≡◌, refl, sym, ap, ◌∙◌, arith,
  if◌then◌else◌, All, append_assoc, append-nil,
}
use mandb.WordFnmatch.{is_word_char, scan, word_fnmatch}

abbrev pub IsWord : Bytes → Type 0
IsWord = All (λ c. is_word_char c ≡ true)

abbrev Long : Bytes → Type 0
Long [] = Unit {0}
Long (x ∷ []) = ⊥
Long (x ∷ y ∷ ys) = Unit {0}

-- Words of no byte or of two or more, each with a byte behind it that is no word byte.
abbrev pub IsSplit : List (Bytes × ℕ) → Type 0
IsSplit [] = Unit {0}
IsSplit ((w, c) ∷ r) = Long w × (IsWord w × ((is_word_char c ≡ false) × IsSplit r))

abbrev pub text_of : List (Bytes × ℕ) → Bytes
text_of [] = []
text_of ((w, c) ∷ r) = w ++ (c ∷ text_of r)

abbrev pub any_word : (Bytes → Bool) → List (Bytes × ℕ) → Bool
any_word p [] = false
any_word p (([], c) ∷ r) = any_word p r
any_word p ((x ∷ w, c) ∷ r) = p (x ∷ w) || any_word p r

module _ (fnmatch : Bytes → Bytes → Bool) (pattern : Bytes) where
  scan-IsWord : (w word : Bytes) → IsWord w → scan fnmatch pattern word w ≡ false
  unfolding scan
  scan-IsWord [] word h = refl
  scan-IsWord (c ∷ w) word (h, hs) = ground (arith, scan-IsWord w (word ++ (c ∷ [])) hs)

  -- What a word at the end of the text would be tested by: nothing.
  scan_last :
      (s word : Bytes) (c : ℕ) (w : Bytes)
      → IsWord w
      → scan fnmatch pattern word (s ++ (c ∷ w)) ≡ scan fnmatch pattern word (s ++ (c ∷ []))
  unfolding scan
  scan_last [] [] c w h = ground (arith, scan-IsWord w (c ∷ []) h, scan-IsWord w [] h)
  scan_last [] (x ∷ []) c w h =
      ground (arith, scan-IsWord w (x ∷ c ∷ []) h, scan-IsWord w (c ∷ []) h)
  scan_last [] (x ∷ y ∷ ys) c w h =
      ground (arith, scan-IsWord w ((x ∷ y ∷ ys) ++ (c ∷ [])) h, scan-IsWord w [] h)
  scan_last (d ∷ s) [] c w h = ground (arith, scan_last s (d ∷ []) c w h, scan_last s [] c w h)
  scan_last (d ∷ s) (x ∷ []) c w h =
      ground (arith, scan_last s (x ∷ d ∷ []) c w h, scan_last s (d ∷ []) c w h)
  scan_last (d ∷ s) (x ∷ y ∷ ys) c w h =
      ground (arith, scan_last s ((x ∷ y ∷ ys) ++ (d ∷ [])) c w h, scan_last s [] c w h)

  -- Behind a byte, a word at the end of a text makes no difference to word_fnmatch, whatever the
  -- pattern.
  word_fnmatch_last :
      (s : Bytes) (c : ℕ) (w : Bytes)
      → IsWord w
      → word_fnmatch fnmatch pattern (s ++ (c ∷ w)) ≡ word_fnmatch fnmatch pattern (s ++ (c ∷ []))
  unfolding word_fnmatch
  word_fnmatch_last s c w h = scan_last s [] c w h

  -- A word is gathered byte by byte.
  scan_word :
      (w word rest : Bytes)
      → IsWord w
      → scan fnmatch pattern word (w ++ rest) ≡ scan fnmatch pattern (word ++ w) rest
  unfolding scan
  scan_word [] word rest h = ap (λ x. scan fnmatch pattern x rest) (sym (append-nil word))
  scan_word (c ∷ w) word rest (h, hs) = rw h (
      scan_word w (word ++ (c ∷ [])) rest hs
      ∙ ap (λ x. scan fnmatch pattern x rest) (append_assoc word (c ∷ []) w))

  -- In a text of a word of one byte, a separator, a word that is not empty and a separator,
  -- word_fnmatch tests the second word with the first separator in front, and nothing else.
  word_fnmatch_single :
      (x c : ℕ) (y : ℕ) (w : Bytes) (e : ℕ)
      → is_word_char x ≡ true
      → is_word_char c ≡ false
      → IsWord (y ∷ w)
      → is_word_char e ≡ false
      → word_fnmatch fnmatch pattern (x ∷ c ∷ ((y ∷ w) ++ (e ∷ []))) ≡ fnmatch pattern (c ∷ y ∷ w)
  unfolding word_fnmatch
  word_fnmatch_single x c y w e hx hc hw he =
      ground (arith, scan_word (y ∷ w) (c ∷ []) (e ∷ []) hw, single_start, single_end)
    where
      single_start :
          scan fnmatch pattern [] (x ∷ c ∷ ((y ∷ w) ++ (e ∷ [])))
          ≡ scan fnmatch pattern (c ∷ []) ((y ∷ w) ++ (e ∷ []))
      single_start = unfold scan in ground (arith, hx, hc)

      single_end : scan fnmatch pattern (c ∷ y ∷ w) (e ∷ []) ≡ fnmatch pattern (c ∷ y ∷ w)
      single_end = unfold scan in ground (arith, he)

  scan_separator :
      (w : Bytes) (c : ℕ) (rest : Bytes)
      → Long w
      → is_word_char c ≡ false
      → scan fnmatch pattern w (c ∷ rest)
        ≡ (if any_word (fnmatch pattern) ((w, c) ∷ []) then true else scan fnmatch pattern [] rest)
  unfolding scan
  scan_separator [] c rest h hc = ground arith
  scan_separator (x ∷ []) c rest h hc = absurd h
  scan_separator (x ∷ y ∷ ys) c rest h hc = ground arith

  -- In a text whose words each have two bytes or more and a byte behind them that is no word byte,
  -- word_fnmatch tells whether the pattern matches one of the words.
  pub word_fnmatch-any_word :
      (ws : List (Bytes × ℕ))
      → IsSplit ws
      → word_fnmatch fnmatch pattern (text_of ws) ≡ any_word (fnmatch pattern) ws
  unfolding word_fnmatch
  word_fnmatch-any_word [] h = unfold scan in refl
  word_fnmatch-any_word ((w, c) ∷ r) (long, (word, (sep, hs))) =
      scan_word w [] (c ∷ text_of r) word
      ∙ scan_separator w c (text_of r) long sep
      ∙ by_word w (word_fnmatch-any_word r hs)
    where
      by_word :
          (v : Bytes)
          → scan fnmatch pattern [] (text_of r) ≡ any_word (fnmatch pattern) r
          → (if any_word (fnmatch pattern) ((v, c) ∷ [])
              then true
              else scan fnmatch pattern [] (text_of r))
            ≡ any_word (fnmatch pattern) ((v, c) ∷ r)
      by_word [] e = e
      by_word (x ∷ v) e = ground (arith, e)
