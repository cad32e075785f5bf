-- ===== src/Decompress/Laws.antt =====
-- The reader over a buffer of src/decompress.c and the bytes that are left in it.
use mandb.Base.{
  ℕ, zero, suc, ◌+◌, ◌-◌, ◌≤◌, ◌<◌, min, true, false, none, some, List, [], ◌∷◌, ◌++◌, Bytes,
  length, take, drop, leb, ◌≡◌, refl, sym, ap, ◌∙◌, arith, Lacks, length-append, length-take,
  length-drop, take-append-drop, append_assoc, Bool-cases, inl, inr, ◌↔◌, ◌==◌,
}
use mandb.CString.{has, before}
use mandb.CString.Search.{before-Lacks}
use mandb.Decompress.{
  Inprocess, newline, rest, inprocess_read, inprocess_peek, inprocess_peek_skip, inprocess_readline,
  inprocess_peekline,
}

-- The length is the buffer's, and the offset does not go past it.
pub record IsReader (d : Inprocess) : Type 0 where
  pub sized : d.len ≡ length d.buf
  pub within : d.offset ≤ d.len

take_all {ℓ} : {A : Type ℓ} (n : ℕ) (xs : List A) → length xs ≤ n → take n xs ≡ xs
take_all zero [] h = refl
take_all zero (x ∷ xs) h = absurd (omega arith)
take_all (suc n) [] h = refl
take_all (suc n) (x ∷ xs) h = ap (◌∷◌ x) (take_all n xs (omega arith))

drop_add {ℓ} : {A : Type ℓ} (m n : ℕ) (xs : List A) → drop (m + n) xs ≡ drop n (drop m xs)
drop_add zero n xs = ap (λ k. drop k xs) (omega arith)
drop_add (suc m) zero [] = ap (λ k. drop k []) {x = suc m + zero} {y = suc m} (omega arith)
drop_add (suc m) (suc n) [] =
    ap (λ k. drop k []) {x = suc m + suc n} {y = suc (m + suc n)} (omega arith)
drop_add (suc m) n (x ∷ xs) =
    ap (λ k. drop k (x ∷ xs)) {x = suc m + n} {y = suc (m + n)} (omega arith) ∙ drop_add m n xs

-- What is left is what stands behind the offset.
rest_lem : (d : Inprocess) → IsReader d → rest d ≡ drop d.offset d.buf
rest_lem d v =
    take_all (d.len - d.offset) (drop d.offset d.buf)
      (omega (arith, length-drop d.offset d.buf, v.sized))

min_le : (n k : ℕ) → min n k ≤ k
min_le n k = omega arith

take-min {ℓ} : {A : Type ℓ} (n : ℕ) (xs : List A) → take (min n (length xs)) xs ≡ take n xs
take-min n xs = elim (Bool-cases (leb n (length xs))) [
  | inl h ↦ ap (λ k. take k xs) {x = min n (length xs)} {y = n} (ground arith)
  | inr h ↦ take_all (min n (length xs)) xs (ground arith) ∙ sym (take_all n xs (ground arith))
]

-- For a reader whose length is its buffer's and whose offset is not past the end: reading gives
-- the first bytes that are left, at most as many as asked for, leaves the others, and leaves such
-- a reader.
inprocess_read_lem :
    (n : ℕ) (d : Inprocess)
    → IsReader d
    → IsReader (inprocess_read n d).0
      × ((inprocess_read n d).1 ≡ take n (rest d))
      × ((inprocess_read n d).1 ++ rest (inprocess_read n d).0 ≡ rest d)
unfolding inprocess_read
inprocess_read_lem n d v =
    let k = min n (d.len - d.offset) in
    let d' : Inprocess = record d { offset = d.offset + k } in
    let v' : IsReader d' = record { sized = v.sized; within = omega (arith, v.within) } in
    let behind : length (drop d.offset d.buf) ≡ d.len - d.offset =
      omega (arith, length-drop d.offset d.buf, v.sized) in
    (
      v',
      ap (λ j. take (min n j) (drop d.offset d.buf)) (sym behind)
          ∙ take-min n (drop d.offset d.buf)
          ∙ ap (take n) (sym (rest_lem d v)),
      ap (λ z. take k (drop d.offset d.buf) ++ z) (rest_lem d' v' ∙ drop_add d.offset k d.buf)
          ∙ take-append-drop k (drop d.offset d.buf)
          ∙ sym (rest_lem d v),
    )

-- For a reader whose length is its buffer's and whose offset is not past the end: peeking shows
-- what reading would give, and skipping as much leaves what reading would leave.
inprocess_peek-read :
    (n : ℕ) (d : Inprocess)
    → IsReader d
    → (inprocess_peek n d ≡ (inprocess_read n d).1)
      × (inprocess_peek_skip (length (inprocess_peek n d)) d ≡ some (inprocess_read n d).0)
unfolding inprocess_peek inprocess_read inprocess_peek_skip
inprocess_peek-read n d v =
    let k = min n (d.len - d.offset) in
    let sized : length (take k (drop d.offset d.buf)) ≡ k =
      length-take k (drop d.offset d.buf) (omega (arith, length-drop d.offset d.buf, v.sized)) in
    (refl, ground (arith, sized))

-- For a reader whose length is its buffer's and whose offset is not past the end: skipping fails
-- its assertion exactly if it would go past the end.
inprocess_peek_skip-none :
    (n : ℕ) (d : Inprocess) → IsReader d → (inprocess_peek_skip n d ≡ none) ↔ (length (rest d) < n)
unfolding inprocess_peek_skip
inprocess_peek_skip-none n d v =
    let left : length (rest d) ≡ d.len - d.offset =
      ap length (rest_lem d v) ∙ omega (arith, length-drop d.offset d.buf, v.sized) in
    ground (arith, left)

before_split : (c : ℕ) (s : Bytes) → has c s ≡ true → (t : Bytes) × (s ≡ before c s ++ (c ∷ t))
unfolding has before
before_split c [] h = absurd (ground arith)
before_split c (x ∷ s) h = elim (Bool-cases (x == c)) [
  | inl e ↦ (s, ground (arith))
  | inr e ↦ let (t, k) = before_split c s (ground arith) in (t, ground (arith, k))
]

drop-length {ℓ} : {A : Type ℓ} (xs ys : List A) → drop (length xs) (xs ++ ys) ≡ ys
drop-length [] ys = refl
drop-length (x ∷ xs) ys = drop-length xs ys

-- For a reader whose length is its buffer's and whose offset is not past the end: with a newline
-- left, a line is read that has its one newline at its end, the line and what is left after it are
-- what was left before, and the reader is such a one again.
inprocess_readline_lem :
    (d : Inprocess)
    → IsReader d
    → has newline (rest d) ≡ true
    → (text : Bytes) × Lacks newline text
      × ((inprocess_readline d).1 ≡ some (text ++ (newline ∷ [])))
      × IsReader (inprocess_readline d).0
      × ((text ++ (newline ∷ [])) ++ rest (inprocess_readline d).0 ≡ rest d)
unfolding inprocess_readline
inprocess_readline_lem d v h =
    let text = before newline (rest d) in
    let line = text ++ (newline ∷ []) in
    let d' : Inprocess = record d { line_cache = some line; offset = d.offset + length line } in
    let (t, split) = before_split newline (rest d) h in
    let spelt : rest d ≡ line ++ t = split ∙ sym (append_assoc text (newline ∷ []) t) in
    let fits : length line ≤ d.len - d.offset = omega (
      arith,
      ap length spelt,
      length-append line t,
      ap length (rest_lem d v),
      length-drop d.offset d.buf,
      v.sized,
    ) in
    let v' : IsReader d' = record { sized = v.sized; within = omega (arith, fits, v.within) } in
    let left : rest d' ≡ t =
      rest_lem d' v'
      ∙ drop_add d.offset (length line) d.buf
      ∙ ap (drop (length line)) (sym (rest_lem d v) ∙ spelt)
      ∙ drop-length line t in
    rw h (text, before-Lacks newline (rest d), refl, v', ap (◌++◌ line) left ∙ sym spelt)

-- With no newline left, reading a line gives none, and what is left stays the same.
inprocess_readline_end :
    (d : Inprocess)
    → has newline (rest d) ≡ false
    → ((inprocess_readline d).1 ≡ none) × (rest (inprocess_readline d).0 ≡ rest d)
unfolding inprocess_readline
inprocess_readline_end d h = rw h (refl, refl)

-- Peeking at a line shows the line that reading would give, and takes nothing.
inprocess_peekline-readline :
    (d : Inprocess)
    → ((inprocess_peekline d).1 ≡ (inprocess_readline d).1)
      × (rest (inprocess_peekline d).0 ≡ rest d)
      × ((inprocess_readline (inprocess_peekline d).0).1 ≡ (inprocess_readline d).1)
unfolding inprocess_peekline inprocess_readline
inprocess_peekline-readline d = elim (Bool-cases (has newline (rest d))) [
  | inl h ↦ rw h (refl, refl, rw h refl)
  | inr h ↦ rw h (refl, refl, rw h refl)
]
