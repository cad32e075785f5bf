-- ===== src/CString/Search.antt =====
-- Laws of the searches for a byte.
use mandb.Base.{
  ℕ, none, some, [], ◌∷◌, ◌++◌, ◌≡◌, refl, arith, Bytes, Lacks, Option-cases, Bool-cases, inl, inr,
  true, drop, length,
}
use mandb.CString.{before, behind, strsep, split_last, strstr, starts_with}

pub before-append : (d : ℕ) (a rest : Bytes) → Lacks d a → before d (a ++ (d ∷ rest)) ≡ a
unfolding before
before-append d [] rest h = ground arith
before-append d (c ∷ a) rest h = ground (arith, before-append d a rest)

pub before-Lacks_eq : (d : ℕ) (a : Bytes) → Lacks d a → before d a ≡ a
unfolding before
before-Lacks_eq d [] h = refl
before-Lacks_eq d (c ∷ a) h = ground (arith, before-Lacks_eq d a)

pub behind-append : (d : ℕ) (a rest : Bytes) → Lacks d a → behind d (a ++ (d ∷ rest)) ≡ some rest
unfolding behind
behind-append d [] rest h = ground arith
behind-append d (c ∷ a) rest h = ground (arith, behind-append d a rest)

pub behind-Lacks_eq : (d : ℕ) (a : Bytes) → Lacks d a → behind d a ≡ none
unfolding behind
behind-Lacks_eq d [] h = refl
behind-Lacks_eq d (c ∷ a) h = ground (arith, behind-Lacks_eq d a)

pub before-Lacks : (d : ℕ) (s : Bytes) → Lacks d (before d s)
unfolding before
before-Lacks d [] = tt
before-Lacks d (c ∷ s) = ground (arith, before-Lacks d s)

pub strsep-append :
    (d : ℕ) (a rest : Bytes) → Lacks d a → strsep d (some (a ++ (d ∷ rest))) ≡ some (a, some rest)
unfolding strsep
strsep-append d a rest h = ground (arith, before-append d a rest, behind-append d a rest)

pub strsep-Lacks : (d : ℕ) (a : Bytes) → Lacks d a → strsep d (some a) ≡ some (a, none)
unfolding strsep
strsep-Lacks d a h = ground (arith, before-Lacks_eq d a, behind-Lacks_eq d a)

split_last-none : (d : ℕ) (s : Bytes) → split_last d s ≡ none → Lacks d s
unfolding split_last
split_last-none d [] h = tt
split_last-none d (c ∷ s) h = elim (Option-cases (split_last d s)) [
  | inr ((x, y), e) ↦ absurd (ground (arith, e))
  | inl e ↦ ground (arith, e, split_last-none d s e)
]

-- The two parts around the last `d` spell the string, and the second holds none.
split_last_sound :
    (d : ℕ) (s a b : Bytes) → split_last d s ≡ some (a, b) → (s ≡ a ++ (d ∷ b)) × Lacks d b
unfolding split_last
split_last_sound d [] a b h = ground arith
split_last_sound d (c ∷ s) a b h = elim (Option-cases (split_last d s)) [
  | inr ((x, y), e) ↦ ground (arith, e, split_last_sound d s x y e)
  | inl e ↦ ground (arith, e, split_last-none d s e)
]

pub split_last-Lacks : (d : ℕ) (s : Bytes) → Lacks d s → split_last d s ≡ none
unfolding split_last
split_last-Lacks d [] h = refl
split_last-Lacks d (c ∷ s) h = ground (arith, split_last-Lacks d s)

pub split_last-append :
    (d : ℕ) (a b : Bytes) → Lacks d b → split_last d (a ++ (d ∷ b)) ≡ some (a, b)
unfolding split_last
split_last-append d [] b h = ground (arith, split_last-Lacks d b)
split_last-append d (c ∷ a) b h = ground (arith, split_last-append d a b)

pub starts_with-split : (a s : Bytes) → starts_with a s ≡ true → s ≡ a ++ drop (length a) s
unfolding starts_with
starts_with-split [] s h = refl
starts_with-split (x ∷ a) [] h = ground arith
starts_with-split (x ∷ a) (y ∷ s) h = ground (arith, starts_with-split a s)

pub strstr_sound :
    (pat s x y : Bytes)
    → strstr pat s ≡ some (x, y)
    → (s ≡ x ++ y) × (y ≡ pat ++ drop (length pat) y)
unfolding strstr starts_with
strstr_sound [] [] x y h = ground arith
strstr_sound (p ∷ pat) [] x y h = ground arith
strstr_sound pat (c ∷ s) x y h = elim (Bool-cases (starts_with pat (c ∷ s))) [
  | inl e ↦ ground (arith, h, e, starts_with-split pat (c ∷ s) e)
  | inr e ↦ elim (Option-cases (strstr pat s)) [
    | inl k ↦ absurd (ground (arith, h, e, k))
    | inr ((a, b), k) ↦ ground (arith, h, e, k, strstr_sound pat s a b k)
  ]
]
