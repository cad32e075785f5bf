-- ===== src/Utf8/WellFormed.antt =====
-- Well-formed UTF-8 by the syntax of RFC 3629, section 4.
use mandb.Base.{
  ℕ, zero, suc, ◌+◌, ◌<◌, ◌≤◌, Bool, true, not, ◌&&◌, ◌||◌, [], ◌∷◌, Bytes, ◌==◌, ltb, leb, length,
  drop, ◌≡◌, ◌↔◌, refl, ap, arith, Bool-cases, inl, inr, subst, ◌⊎◌, length-drop,
}
use mandb.Utf8.{
  is_tail, second_of_three, second_of_four, char_length, fast_validate_len, utf8_validate_len,
}

unfoldable pub in_range : ℕ → ℕ → ℕ → Bool
in_range low high b = leb low b && leb b high

-- UTF8-tail, and what precedes the last bytes in UTF8-3 and UTF8-4.
unfoldable pub utf8_tail : ℕ → Bool
utf8_tail b = in_range 128 191 b

unfoldable pub utf8_3 : ℕ → ℕ → Bool
utf8_3 a b =
    (a == 224 && in_range 160 191 b)
    || (in_range 225 236 a && utf8_tail b)
    || (a == 237 && in_range 128 159 b)
    || (in_range 238 239 a && utf8_tail b)

unfoldable pub utf8_4 : ℕ → ℕ → Bool
utf8_4 a b =
    (a == 240 && in_range 144 191 b)
    || (in_range 241 243 a && utf8_tail b)
    || (a == 244 && in_range 128 143 b)

-- UTF8-octets, without NUL.
pub data WellFormed : Bytes → Type 0 where
  end : WellFormed []
  one : (a : ℕ) (s : Bytes) → in_range 1 127 a ≡ true → WellFormed s → WellFormed (a ∷ s)
  two :
      (a b : ℕ) (s : Bytes)
      → in_range 194 223 a ≡ true
      → utf8_tail b ≡ true
      → WellFormed s
      → WellFormed (a ∷ b ∷ s)
  three :
      (a b c : ℕ) (s : Bytes)
      → utf8_3 a b ≡ true
      → utf8_tail c ≡ true
      → WellFormed s
      → WellFormed (a ∷ b ∷ c ∷ s)
  four :
      (a b c d : ℕ) (s : Bytes)
      → utf8_4 a b ≡ true
      → utf8_tail c ≡ true
      → utf8_tail d ≡ true
      → WellFormed s
      → WellFormed (a ∷ b ∷ c ∷ d ∷ s)

tail_same : (b : ℕ) → is_tail b ≡ utf8_tail b
unfolding is_tail utf8_tail in_range
tail_same b = ground arith

three_same : (a b : ℕ) → 224 ≤ a → a < 240 → second_of_three a b ≡ utf8_3 a b
unfolding second_of_three utf8_3 utf8_tail in_range is_tail
three_same a b l h = ground (arith, l, h)

four_same : (a b : ℕ) → 240 ≤ a → a < 245 → second_of_four a b ≡ utf8_4 a b
unfolding second_of_four utf8_4 utf8_tail in_range is_tail
four_same a b l h = ground (arith, l, h)

-- That many bytes are a character, if the rest is well-formed.
abbrev Leads : Bytes → ℕ → Type 0
Leads s n = (WellFormed (drop n s) → WellFormed s) × (n ≤ length s)

Leads-one : (a n : ℕ) (s : Bytes) → a < 128 → char_length (a ∷ s) ≡ suc n → Leads (a ∷ s) (suc n)
unfolding char_length
Leads-one a n s l h = elim (Bool-cases (a == 0)) [
  | inl z ↦ absurd (ground (arith, h, z))
  | inr z ↦
      let e : 0 ≡ n = ground (arith, h, z, l) in
      subst (λ m. Leads (a ∷ s) (suc m)) e
        ((λ w. one a s (unfold in_range in ground (arith, z, l)) w), ground arith)
]

Leads-two :
    (a n : ℕ) (s : Bytes) → 128 ≤ a → a < 224 → char_length (a ∷ s) ≡ suc n → Leads (a ∷ s) (suc n)
unfolding char_length
Leads-two a n [] l u h = absurd (ground (arith, h, l, u))
Leads-two a n (b ∷ t) l u h = elim (Bool-cases (not (ltb a 194) && is_tail b)) [
  | inr k ↦ absurd (ground (arith, h, l, u, k))
  | inl k ↦
      let e : 1 ≡ n = ground (arith, h, l, u, k) in
      subst (λ m. Leads (a ∷ b ∷ t) (suc m)) e
        (
          (λ w.
              two a b t (unfold in_range in ground (arith, k, u)) (ground (arith, k, tail_same b))
                w),
          ground arith,
        )
]

Leads-three :
    (a n : ℕ) (s : Bytes) → 224 ≤ a → a < 240 → char_length (a ∷ s) ≡ suc n → Leads (a ∷ s) (suc n)
unfolding char_length
Leads-three a n [] l u h = absurd (ground (arith, h, l, u))
Leads-three a n (b ∷ []) l u h = absurd (ground (arith, h, l, u))
Leads-three a n (b ∷ c ∷ t) l u h = elim (Bool-cases (second_of_three a b && is_tail c)) [
  | inr k ↦ absurd (ground (arith, h, l, u, k))
  | inl k ↦
      let e : 2 ≡ n = ground (arith, h, l, u, k) in
      subst (λ m. Leads (a ∷ b ∷ c ∷ t) (suc m)) e
        (
          (λ w.
              three a b c t (ground (arith, k, three_same a b l u)) (ground (arith, k, tail_same c))
                w),
          ground arith,
        )
]

Leads-four : (a n : ℕ) (s : Bytes) → 240 ≤ a → char_length (a ∷ s) ≡ suc n → Leads (a ∷ s) (suc n)
unfolding char_length
Leads-four a n [] l h = absurd (ground (arith, h, l))
Leads-four a n (b ∷ []) l h = absurd (ground (arith, h, l))
Leads-four a n (b ∷ c ∷ []) l h = absurd (ground (arith, h, l))
Leads-four a n (b ∷ c ∷ d ∷ t) l h =
    elim (Bool-cases (ltb a 245 && (second_of_four a b && (is_tail c && is_tail d)))) [
      | inr k ↦ absurd (ground (arith, h, l, k))
      | inl k ↦
          let e : 3 ≡ n = ground (arith, h, l, k) in
          let u : a < 245 = ground (arith, k) in
          subst (λ m. Leads (a ∷ b ∷ c ∷ d ∷ t) (suc m)) e
            (
              (λ w.
                  four a b c d t (ground (arith, k, four_same a b l u))
                    (ground (arith, k, tail_same c)) (ground (arith, k, tail_same d)) w),
              ground arith,
            )
    ]

leads : (n : ℕ) (s : Bytes) → char_length s ≡ suc n → Leads s (suc n)
leads n [] h = absurd (unfold char_length in ground (arith, h))
leads n (a ∷ s) h = elim (Bool-cases (ltb a 128)) [
  | inl e ↦ Leads-one a n s (ground (arith, e)) h
  | inr e ↦ elim (Bool-cases (ltb a 224)) [
    | inl k ↦ Leads-two a n s (ground (arith, e)) (ground (arith, k)) h
    | inr k ↦ elim (Bool-cases (ltb a 240)) [
      | inl q ↦ Leads-three a n s (ground (arith, k)) (ground (arith, q)) h
      | inr q ↦ Leads-four a n s (ground (arith, q)) h
    ]
  ]
]

ℕ-cases : (n : ℕ) → (n ≡ 0) ⊎ ((m : ℕ) × (n ≡ suc m))
ℕ-cases zero = inl refl
ℕ-cases (suc m) = inr (m, refl)

one_length : (a : ℕ) (s : Bytes) → in_range 1 127 a ≡ true → char_length (a ∷ s) ≡ 1
unfolding char_length in_range
one_length a s r = ground (arith, r)

two_length :
    (a b : ℕ) (s : Bytes)
    → in_range 194 223 a ≡ true
    → utf8_tail b ≡ true
    → char_length (a ∷ b ∷ s) ≡ 2
unfolding char_length in_range
two_length a b s r t = ground (arith, r, t, tail_same b)

first_of_three : (a b : ℕ) → utf8_3 a b ≡ true → (224 ≤ a) × (a < 240)
unfolding utf8_3 in_range
first_of_three a b r = (ground (arith, r), ground (arith, r))

three_length :
    (a b c : ℕ) (s : Bytes)
    → utf8_3 a b ≡ true
    → utf8_tail c ≡ true
    → char_length (a ∷ b ∷ c ∷ s) ≡ 3
unfolding char_length
three_length a b c s r t =
    let (l, u) = first_of_three a b r in ground (arith, r, t, l, u, three_same a b l u, tail_same c)

first_of_four : (a b : ℕ) → utf8_4 a b ≡ true → (240 ≤ a) × (a < 245)
unfolding utf8_4 in_range
first_of_four a b r = (ground (arith, r), ground (arith, r))

four_length :
    (a b c d : ℕ) (s : Bytes)
    → utf8_4 a b ≡ true
    → utf8_tail c ≡ true
    → utf8_tail d ≡ true
    → char_length (a ∷ b ∷ c ∷ d ∷ s) ≡ 4
unfolding char_length
four_length a b c d s r t v =
    let (l, u) = first_of_four a b r in
    ground (arith, r, t, v, l, u, four_same a b l u, tail_same c, tail_same d)

-- A round that takes so many bytes.
round :
    (f n a : ℕ) (s : Bytes)
    → char_length (a ∷ s) ≡ suc n
    → fast_validate_len (suc f) (a ∷ s) ≡ suc n + fast_validate_len f (drop n s)
unfolding fast_validate_len
round f n a s e = ground (arith, e)

validates : (f : ℕ) (s : Bytes) → length s ≤ f → fast_validate_len f s ≡ length s → WellFormed s
validates f [] l h = end
validates zero (a ∷ s) l h = absurd (ground (arith, l))
validates (suc f) (a ∷ s) l h = elim (ℕ-cases (char_length (a ∷ s))) [
  | inl e ↦ absurd (unfold fast_validate_len in ground (arith, e, h))
  | inr (n, e) ↦
      let (build, short) = leads n (a ∷ s) e in
      build (
        validates f (drop n s) (ground (arith, l, short, length-drop n s))
          (ground (arith, h, round f n a s e, short, length-drop n s)))
]

-- The same the other way: a character is taken whole.
taken :
    (f n a : ℕ) (s t : Bytes)
    → char_length (a ∷ s) ≡ suc n
    → drop n s ≡ t
    → n + length t ≡ length s
    → fast_validate_len f t ≡ length t
    → fast_validate_len (suc f) (a ∷ s) ≡ suc (length s)
taken f n a s t e d l h = ground (arith, round f n a s e, ap (fast_validate_len f) d, h, l)

well_formed : (f : ℕ) (s : Bytes) → length s ≤ f → WellFormed s → fast_validate_len f s ≡ length s
well_formed zero [] l w = unfold fast_validate_len in refl
well_formed zero (a ∷ s) l w = absurd (ground (arith, l))
well_formed (suc f) _ l end = unfold fast_validate_len in refl
well_formed (suc f) _ l (one a s r w) =
    taken f 0 a s s (one_length a s r) refl (ground arith) (well_formed f s (ground (arith, l)) w)
well_formed (suc f) _ l (two a b s r t w) =
    taken f 1 a (b ∷ s) s (two_length a b s r t) refl (ground arith)
      (well_formed f s (ground (arith, l)) w)
well_formed (suc f) _ l (three a b c s r t w) =
    taken f 2 a (b ∷ c ∷ s) s (three_length a b c s r t) refl (ground arith)
      (well_formed f s (ground (arith, l)) w)
well_formed (suc f) _ l (four a b c d s r t v w) =
    taken f 3 a (b ∷ c ∷ d ∷ s) s (four_length a b c d s r t v) refl (ground arith)
      (well_formed f s (ground (arith, l)) w)

-- utf8_validate_len accepts exactly the texts that are a sequence of the characters that the syntax
-- of RFC 3629 allows, other than NUL.
pub utf8_validate_len-WellFormed : (str : Bytes) → (utf8_validate_len str ≡ true) ↔ WellFormed str
unfolding utf8_validate_len
utf8_validate_len-WellFormed str = (
  (λ h. validates (length str) str (ground arith) (ground (arith, h))),
  (λ w. ground (arith, well_formed (length str) str (ground arith) w)),
)
