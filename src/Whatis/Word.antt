-- ===== src/Whatis/Word.antt =====
-- match (src/whatis.c) against the words of a text.
use mandb.Base.{
  ℕ, zero, suc, ◌<◌, ◌≤◌, Bool, true, false, ◌&&◌, ◌||◌, Option, none, some, [], ◌∷◌, Bytes, ◌≡◌,
  ◌≢◌, refl, ap, arith, if◌then◌else◌, map, drop, length, Bool-cases, Option-cases, inl, inr, subst,
  get_or,
}
use mandb.CString.{starts_with, tolower}
use mandb.Whatis.{strcasestr, is_boundary, first_byte, last_byte, match_from, match}

-- Whether the page stands here, between boundaries.
unfoldable pub word_here : Bytes → Option ℕ → Bytes → Bool
word_here page prev s =
    starts_with (map tolower page) (map tolower s)
    && (is_boundary prev && is_boundary (first_byte (drop (length page) s)))

-- Whether it does at any place of the text.
unfoldable pub word_occurs : Bytes → Option ℕ → Bytes → Bool
word_occurs page prev [] = false
word_occurs page prev (c ∷ s) = word_here page prev (c ∷ s) || word_occurs page (some c) s

-- strcasestr passes over no place at which the page stands.
abbrev Passed : Bytes → Option ℕ → Bytes → Bytes × Bytes → Type 0
Passed page prev s (x, p) =
    (word_occurs page prev s ≡ word_occurs page (last_byte prev x) p)
    × (starts_with (map tolower page) (map tolower p) ≡ true)
    × (length p ≤ length s)

found_at :
    (page : Bytes) (prev : Option ℕ) (s : Bytes) (r r' : Bytes × Bytes)
    → some r ≡ some r'
    → Passed page prev s r
    → Passed page prev s r'
found_at page prev s r r' e = subst (Passed page prev s) (ap (get_or r) e)

passed :
    (page : Bytes) (prev : Option ℕ) (s : Bytes) (r : Bytes × Bytes)
    → strcasestr page s ≡ some r
    → Passed page prev s r
unfolding strcasestr word_occurs word_here last_byte
passed page prev [] r h = elim (Bool-cases (starts_with (map tolower page) [])) [
  | inr e ↦ absurd (ground (arith, h, e))
  | inl e ↦ found_at page prev [] ([], []) r (ground (arith, h, e)) (refl, e, ground arith)
]
passed page prev (c ∷ s) r h =
    elim (Bool-cases (starts_with (map tolower page) (map tolower (c ∷ s)))) [
      | inl e ↦
          found_at page prev (c ∷ s) ([], c ∷ s) r (ground (arith, h, e)) (refl, e, ground arith)
      | inr e ↦ elim (Option-cases (strcasestr page s)) [
        | inl k ↦ absurd (ground (arith, h, e, k))
        | inr ((x, p), k) ↦
            let (same, here, short) = passed page (some c) s (x, p) k in
            found_at page prev (c ∷ s) (c ∷ x, p) r (ground (arith, h, e, k))
              (ground (arith, e, same), here, ground (arith, short))
      ]
    ]

absent :
    (page : Bytes) (prev : Option ℕ) (s : Bytes)
    → strcasestr page s ≡ none
    → word_occurs page prev s ≡ false
unfolding strcasestr word_occurs word_here
absent page prev [] h = refl
absent page prev (c ∷ s) h = ground (arith, h, absent page (some c) s)

-- A place that is found: it is a word, or the search goes on behind its first byte.
match_step :
    (f : ℕ) (page : Bytes) (prev : Option ℕ) (c : ℕ) (p : Bytes)
    → starts_with (map tolower page) (map tolower (c ∷ p)) ≡ true
    → match_from f page (some c) p ≡ some (word_occurs page (some c) p)
    → (if is_boundary prev && is_boundary (first_byte (drop (length page) (c ∷ p)))
        then some true
        else match_from f page (some c) p)
      ≡ some (word_occurs page prev (c ∷ p))
unfolding word_occurs word_here
match_step f page prev c p e h = ground (arith, e, h)

found_nonempty :
    (f : ℕ) (page : Bytes) (prev : Option ℕ) (p : Bytes)
    → page ≢ []
    → starts_with (map tolower page) (map tolower p) ≡ true
    → ((c : ℕ) (rest : Bytes)
        → p ≡ c ∷ rest
        → match_from f page (some c) rest ≡ some (word_occurs page (some c) rest))
    → (if is_boundary prev && is_boundary (first_byte (drop (length page) p))
        then some true
        else elim p [ [] ↦ none | c ∷ rest ↦ match_from f page (some c) rest ])
      ≡ some (word_occurs page prev p)
found_nonempty f [] prev p n e h = absurd (n refl)
found_nonempty f (a ∷ page) prev [] n e h = absurd (unfold starts_with in ground (arith, e))
found_nonempty f (a ∷ page) prev (c ∷ rest) n e h =
    match_step f (a ∷ page) prev c rest e (h c rest refl)

match_from-word_occurs :
    (f : ℕ) (page : Bytes) (prev : Option ℕ) (s : Bytes)
    → page ≢ []
    → length s < f
    → match_from f page prev s ≡ some (word_occurs page prev s)
unfolding match_from
match_from-word_occurs zero page prev s n h = absurd (ground (arith, h))
match_from-word_occurs (suc f) page prev s n h = elim (Option-cases (strcasestr page s)) [
  | inl e ↦ ground (arith, e, absent page prev s e)
  | inr ((x, p), e) ↦
      let (same, here, short) = passed page prev s (x, p) e in
      let rest_found =
        found_nonempty f page (last_byte prev x) p n here (λ c rest k.
          match_from-word_occurs f page (some c) rest n (ground (arith, h, short, k))) in
      ground (arith, e, same, rest_found)
]

-- For a keyword that is not empty, match decides whether it stands at any place of the text, in
-- whatever case, with no letter and no underscore directly before or behind it, and searches
-- nothing behind the end of the text.
pub match-word_occurs :
    (page whatis : Bytes) → page ≢ [] → match page whatis ≡ some (word_occurs page none whatis)
unfolding match
match-word_occurs page whatis n =
    match_from-word_occurs (suc (length whatis)) page none whatis n (ground arith)
