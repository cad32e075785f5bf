-- ===== src/Preconv/Declares.antt =====
-- What check_preprocessor_encoding (src/manconv.c) finds on a line.
use mandb.Base.{
  ◌==◌, ℕ, zero, suc, Bool, true, false, ◌||◌, some, [], ◌∷◌, ◌++◌, Bytes, codes, take, drop,
  length, ◌≡◌, ◌⊎◌, inl, inr, refl, sym, ap, ◌∙◌, subst, arith, All, append_assoc, append-nil,
  take-append-drop, Option-cases, Bool-cases,
}
use mandb.CString.{starts_with, strstr, before, behind}
use mandb.CString.Search.{starts_with-split, strstr_sound}
use mandb.Mandirs.{same_case}
use mandb.Preconv.{
  newline, strspn, is_blank, is_encoding_char, convert_encoding, Declared, declared, find_coding,
  find_in_directive, find_declared, modified, check_preprocessor_encoding,
}

take_prefix : (k s : Bytes) → take (length k) (k ++ s) ≡ k
take_prefix [] s = refl
take_prefix (c ∷ k) s = ap (λ x. c ∷ x) (take_prefix k s)

strspn-append : (p : ℕ → Bool) (s : Bytes) → (strspn p s).0 ++ (strspn p s).1 ≡ s
unfolding strspn
strspn-append p [] = refl
strspn-append p (c ∷ s) = ground (arith, strspn-append p s)

behind-append : (d : ℕ) (s later : Bytes) → behind d s ≡ some later → before d s ++ (d ∷ later) ≡ s
unfolding behind before
behind-append d [] later e = ground (arith, e)
behind-append d (c ∷ s) later e = elim (Bool-cases (c == d)) [
  | inl h ↦ ground (arith, e, h)
  | inr h ↦ ground (arith, e, h, behind-append d s later (ground (arith, e, h)))
]

-- Put together again.
abbrev whole : Declared → Bytes
whole d = d.start ++ (d.encoding ++ d.rest)

declared_lem : (start text : Bytes) → whole (declared start text) ≡ start ++ text
unfolding declared
declared_lem start text =
    let t = (strspn is_blank text).1 in
    append_assoc start (strspn is_blank text).0
      ((strspn is_encoding_char t).0 ++ (strspn is_encoding_char t).1)
    ∙ ap (λ x. start ++ ((strspn is_blank text).0 ++ x)) (strspn-append is_encoding_char t)
    ∙ ap (λ x. start ++ x) (strspn-append is_blank text)

joined : (a b m r : Bytes) → (a ++ (b ++ m)) ++ r ≡ a ++ (b ++ (m ++ r))
joined a b m r = simp append_assoc

-- Blanks, a part of the text behind them, and the rest.
behind_blanks :
    (start text m r : Bytes)
    → (strspn is_blank text).1 ≡ m ++ r
    → (start ++ ((strspn is_blank text).0 ++ m)) ++ r ≡ start ++ text
behind_blanks start text m r e =
    joined start (strspn is_blank text).0 m r
    ∙ ap (λ x. start ++ ((strspn is_blank text).0 ++ x)) (sym e)
    ∙ ap (λ x. start ++ x) (strspn-append is_blank text)

find_coding_lem :
    (f : ℕ) (start text : Bytes) (d : Declared)
    → find_coding f start text ≡ some d
    → whole d ≡ start ++ text
unfolding find_coding
find_coding_lem zero start text d e = ground (arith, e)
find_coding_lem (suc f) start [] d e = ground (arith, e)
find_coding_lem (suc f) start (c ∷ s) d e =
    let blanks = (strspn is_blank (c ∷ s)).0 in
    let t = (strspn is_blank (c ∷ s)).1 in
    elim (Bool-cases (starts_with (codes "coding:") t)) [
      | inl h ↦
          let start' = start ++ (blanks ++ codes "coding:") in
          let found : declared start' (drop 7 t) ≡ d = ground (arith, e, h) in
          ap whole (sym found)
          ∙ declared_lem start' (drop 7 t)
          ∙ behind_blanks start (c ∷ s) (codes "coding:") (drop 7 t)
              (starts_with-split (codes "coding:") t h)
      | inr h ↦ elim (Option-cases (behind b';' t)) [
        | inl k ↦ ground (arith, e, h, k)
        | inr (later, k) ↦
            let m = before b';' t ++ codes ";" in
            let found : find_coding f (start ++ (blanks ++ m)) later ≡ some d =
              ground (arith, e, h, k) in
            find_coding_lem f (start ++ (blanks ++ m)) later d found
            ∙ behind_blanks start (c ∷ s) m later (
                sym (append_assoc (before b';' t) (codes ";") later ∙ behind-append b';' t later k))
      ]
    ]

find_in_directive_lem :
    (start directive : Bytes) (d : Declared)
    → find_in_directive start directive ≡ some d
    → whole d ≡ start ++ directive
unfolding find_in_directive
find_in_directive_lem start directive d e = elim (Option-cases (strstr (codes "-*-") directive)) [
  | inl h ↦ ground (arith, e, h)
  | inr ((a, b), h) ↦
      let start' = start ++ (a ++ codes "-*-") in
      let (split, mark) = strstr_sound (codes "-*-") directive a b h in
      let found : find_coding (length (drop 3 b)) start' (drop 3 b) ≡ some d =
        ground (arith, e, h) in
      find_coding_lem (length (drop 3 b)) start' (drop 3 b) d found
      ∙ joined start a (codes "-*-") (drop 3 b)
      ∙ ap (λ x. start ++ (a ++ x)) (sym mark)
      ∙ ap (λ x. start ++ x) (sym split)
]

find_declared_lem : (line : Bytes) (d : Declared) → find_declared line ≡ some d → whole d ≡ line
unfolding find_declared
find_declared_lem line d e =
    elim (Bool-cases (starts_with (codes "'\\\" ") line || starts_with (codes ".\\\" ") line)) [
      | inl h ↦
          find_in_directive_lem (take 4 line) (drop 4 line) d (ground (arith, e, h))
          ∙ take-append-drop 4 line
      | inr h ↦ ground (arith, e, h)
    ]

strspn-All : (p : ℕ → Bool) (s : Bytes) → All (λ c. p c ≡ true) (strspn p s).0
unfolding strspn
strspn-All p [] = tt
strspn-All p (c ∷ s) = elim (Bool-cases (p c)) [
  | inl e ↦ rw e (e, strspn-All p s)
  | inr e ↦ rw e tt
]

-- The text does not begin with such a byte.
abbrev pub Stops : (ℕ → Bool) → Bytes → Type 0
Stops p [] = Unit {0}
Stops p (c ∷ s) = p c ≡ false

strspn-Stops : (p : ℕ → Bool) (s : Bytes) → Stops p (strspn p s).1
unfolding strspn
strspn-Stops p [] = tt
strspn-Stops p (c ∷ s) = elim (Bool-cases (p c)) [
  | inl e ↦ rw e (strspn-Stops p s)
  | inr e ↦ rw e e
]

-- What stands before a field: nothing, or a text that ends in a semicolon; then blanks.
abbrev pub BeforeField : Bytes → Type 0
BeforeField fields =
    (a : Bytes) × (blanks : Bytes) × (fields ≡ a ++ blanks)
    × ((a ≡ []) ⊎ ((z : Bytes) × (a ≡ z ++ codes ";")))
    × All (λ c. is_blank c ≡ true) blanks

-- Fields, of which the last declares an encoding, from `start` on.
abbrev Reached : Bytes → Declared → Type 0
Reached start d =
    (fields : Bytes) × (blanks : Bytes) × (d.start
      ≡ start ++ (fields ++ (codes "coding:" ++ blanks)))
    × BeforeField fields
    × All (λ c. is_blank c ≡ true) blanks
    × All (λ c. is_encoding_char c ≡ true) d.encoding
    × Stops is_encoding_char d.rest

declared-Reached :
    (start blanks text : Bytes)
    → All (λ c. is_blank c ≡ true) blanks
    → Reached start (declared (start ++ (blanks ++ codes "coding:")) text)
unfolding declared
declared-Reached start blanks text h =
    let t = (strspn is_blank text).1 in
    (
      blanks,
      (strspn is_blank text).0,
      joined start blanks (codes "coding:") (strspn is_blank text).0,
      ([], blanks, refl, inl refl, h),
      strspn-All is_blank text,
      strspn-All is_encoding_char t,
      strspn-Stops is_encoding_char t,
    )

field-Reached :
    (start blanks m : Bytes) (d : Declared)
    → Reached (start ++ (blanks ++ (m ++ codes ";"))) d
    → Reached start d
field-Reached start blanks m d
      (fields, more, split, (a, bl, parts, ends, h), more_blank, chars, stops) =
    let x = blanks ++ (m ++ codes ";") in
    (
      x ++ fields,
      more,
      split
          ∙ append_assoc start x (fields ++ (codes "coding:" ++ more))
          ∙ ap (λ y. start ++ y) (sym (append_assoc x fields (codes "coding:" ++ more))),
      (
        x ++ a,
        bl,
        ap (λ y. x ++ y) parts ∙ sym (append_assoc x a bl),
        inr (elim ends [
          | inl e ↦ (
            blanks ++ m,
            ap (λ y. x ++ y) e ∙ append-nil x ∙ sym (append_assoc blanks m (codes ";")),
          )
          | inr (z, e) ↦ (x ++ z, ap (λ y. x ++ y) e ∙ sym (append_assoc x z (codes ";")))
        ]),
        h,
      ),
      more_blank,
      chars,
      stops,
    )

find_coding-Reached :
    (f : ℕ) (start text : Bytes) (d : Declared)
    → find_coding f start text ≡ some d
    → Reached start d
unfolding find_coding
find_coding-Reached zero start text d e = absurd (ground (arith, e))
find_coding-Reached (suc f) start [] d e = absurd (ground (arith, e))
find_coding-Reached (suc f) start (c ∷ s) d e =
    let blanks = (strspn is_blank (c ∷ s)).0 in
    let t = (strspn is_blank (c ∷ s)).1 in
    elim (Bool-cases (starts_with (codes "coding:") t)) [
      | inl h ↦
          let start' = start ++ (blanks ++ codes "coding:") in
          let found : declared start' (drop 7 t) ≡ d = ground (arith, e, h) in
          subst (Reached start) found
            (declared-Reached start blanks (drop 7 t) (strspn-All is_blank (c ∷ s)))
      | inr h ↦ elim (Option-cases (behind b';' t)) [
        | inl k ↦ absurd (ground (arith, e, h, k))
        | inr (later, k) ↦
            let m = before b';' t ++ codes ";" in
            let found : find_coding f (start ++ (blanks ++ m)) later ≡ some d =
              ground (arith, e, h, k) in
            field-Reached start blanks (before b';' t) d
              (find_coding-Reached f (start ++ (blanks ++ m)) later d found)
      ]
    ]

-- `start`, up to a name, declares an encoding of that name, and `rest` stands behind it: `start` is
-- the cookie of a preprocessor or a comment, a text, "-*-", fields that end in a semicolon each,
-- blanks, "coding:" and blanks; and the name is all that stands there of an encoding's bytes.
pub record Declares (start name rest : Bytes) : Type 0 where
  pub cookie : Bytes
  pub text : Bytes
  pub fields : Bytes
  pub blanks : Bytes
  pub opens : (cookie ≡ codes "'\\\" ") ⊎ (cookie ≡ codes ".\\\" ")
  pub parts : start ≡ cookie ++ (text ++ (codes "-*-" ++ (fields ++ (codes "coding:" ++ blanks))))
  pub before_field : BeforeField fields
  pub blank : All (λ c. is_blank c ≡ true) blanks
  pub name_chars : All (λ c. is_encoding_char c ≡ true) name
  pub name_ends : Stops is_encoding_char rest

take_cookie : (k line : Bytes) → length k ≡ 4 → starts_with k line ≡ true → take 4 line ≡ k
take_cookie k line n h =
    ap (take 4) (starts_with-split k line h)
    ∙ ap (λ m. take m (k ++ drop (length k) line)) (sym n)
    ∙ take_prefix k (drop (length k) line)

cookie_of :
    (line : Bytes)
    → (starts_with (codes "'\\\" ") line || starts_with (codes ".\\\" ") line) ≡ true
    → (take 4 line ≡ codes "'\\\" ") ⊎ (take 4 line ≡ codes ".\\\" ")
cookie_of line h = elim (Bool-cases (starts_with (codes "'\\\" ") line)) [
  | inl e ↦ inl (take_cookie (codes "'\\\" ") line refl e)
  | inr e ↦ inr (take_cookie (codes ".\\\" ") line refl (ground (arith, e, h)))
]

find_declared-Declares :
    (line : Bytes) (d : Declared) → find_declared line ≡ some d → Declares d.start d.encoding d.rest
unfolding find_declared find_in_directive
find_declared-Declares line d e =
    elim (Bool-cases (starts_with (codes "'\\\" ") line || starts_with (codes ".\\\" ") line)) [
      | inr h ↦ absurd (ground (arith, e, h))
      | inl h ↦ elim (Option-cases (strstr (codes "-*-") (drop 4 line))) [
        | inl k ↦ absurd (ground (arith, e, h, k))
        | inr ((a, b), k) ↦
            let start = take 4 line ++ (a ++ codes "-*-") in
            let found : find_coding (length (drop 3 b)) start (drop 3 b) ≡ some d =
              ground (arith, e, h, k) in
            let (fields, blanks, split, before_field, blank, name_chars, name_ends) =
              find_coding-Reached (length (drop 3 b)) start (drop 3 b) d found in
            record {
              cookie = take 4 line;
              text = a;
              fields = fields;
              blanks = blanks;
              opens = cookie_of line h;
              parts =
                  split
                  ∙ joined (take 4 line) a (codes "-*-") (fields ++ (codes "coding:" ++ blanks));
              before_field = before_field;
              blank = blank;
              name_chars = name_chars;
              name_ends = name_ends;
            }
      ]
    ]

-- When check_preprocessor_encoding gives a modified line, the first line of the text declares an
-- encoding: it begins with the cookie of a preprocessor or a comment, and behind "-*-" a field says
-- "coding:" and the encoding's name. The function returns that name converted, which is not the
-- encoding that is wanted, in any case of letters; and the modified line is that line with the wanted
-- encoding in its place.
pub check_preprocessor_encoding-modified :
    (to_encoding line encoding new_line : Bytes)
    → check_preprocessor_encoding (some to_encoding) (some line) ≡ (some encoding, some new_line)
    → (start : Bytes) × (name : Bytes) × (rest : Bytes) × (before newline line
        ≡ start ++ (name ++ rest))
      × Declares start name rest
      × (encoding ≡ convert_encoding name)
      × (same_case encoding to_encoding ≡ false)
      × (new_line ≡ start ++ (to_encoding ++ (rest ++ (newline ∷ []))))
unfolding check_preprocessor_encoding modified
check_preprocessor_encoding-modified to_encoding line encoding new_line e =
    elim (Option-cases (find_declared (before newline line))) [
      | inl h ↦ ground (arith, ap (λ p. p.0) e, h)
      | inr (d, h) ↦ elim (Bool-cases (same_case (convert_encoding d.encoding) to_encoding)) [
        | inl k ↦ ground (arith, ap (λ p. p.1) e, h, k)
        | inr k ↦
            let found : convert_encoding d.encoding ≡ encoding =
              ground (arith, ap (λ p. p.0) e, h) in
            (
              d.start,
              d.encoding,
              d.rest,
              sym (find_declared_lem (before newline line) d h),
              find_declared-Declares (before newline line) d h,
              sym found,
              sym (ap (λ x. same_case x to_encoding) found) ∙ k,
              ground (arith, ap (λ p. p.1) e, h, k),
            )
      ]
    ]
