-- ===== src/Manpath/Append.antt =====
-- pathappend (src/manp.c). `none` stands for an assertion that fails and for a read of memory that
-- has been freed.
use mandb.Base.{
  ℕ, zero, suc, ◌<◌, Bool, true, false, not, ◌||◌, Option, none, some, ◌>>=◌, List, [], ◌∷◌, ◌++◌,
  Bytes, codes, ◌==◌, ◌≡◌, ◌≢◌, refl, sym, ap, ◌∙◌, arith, if◌then◌else◌, length, drop, Lacks,
  length-append, All-append, append_assoc, append-nil, subst, Option-cases, inl, inr,
}
use mandb.CString.{streq, starts_with, strstr}
use mandb.CString.Search.{strstr_sound}
use mandb.CString.Compare.{starts_with_refl, streq_refl, streq-eq_false, streq_iff}
use mandb.Manpath.Catpath.{drop_prefix, starts_with-append}
use mandb.CString.Fields.{fields, fields-Lacks}

-- search == app_dedup || search[-1] == ':'
unfoldable pub begins_field : Bytes → Bool
begins_field [] = true
begins_field (c ∷ []) = c == b':'
begins_field (c ∷ d ∷ before) = begins_field (d ∷ before)

-- The text without the colons at its end.
unfoldable pub strip_colons : Bytes → Bytes
strip_colons [] = []
strip_colons (c ∷ s) = elim (strip_colons s) [
  | [] ↦ if c == b':' then [] else c ∷ []
  | d ∷ rest ↦ c ∷ d ∷ rest
]

-- What is done at `search`: `pre` and `x` stand before it, `rest` from `terminator` on.
pub data Found : Type 0 where
  go_on chop use_after_free : Found

unfoldable pub at_search : Bytes → Bytes → Found
at_search before rest =
    if not (begins_field before)
    then go_on
    else elim rest [ [] ↦ chop | c ∷ s ↦ if c == b':' then use_after_free else go_on ]

-- The loop over the places of a token in app_dedup, whose text is `pre` and the one that strstr
-- searches. Each round takes the token off the latter.
unfoldable pub dedup_token : ℕ → Bytes → Bytes → Bytes → Option Bytes
dedup_token zero tok pre text = none
dedup_token (suc f) tok pre text = elim (strstr tok text) [
  | none ↦ some (pre ++ text)
  | some (x, y) ↦
      let rest = drop (length tok) y in
      let later = dedup_token f tok (pre ++ (x ++ tok)) rest in
      elim (at_search (pre ++ x) rest) [
        | go_on ↦ later
        | chop ↦ some (strip_colons (pre ++ x))
        | use_after_free ↦ none
      ]
]

unfoldable pub dedup : List Bytes → Bytes → Option Bytes
dedup [] app_dedup = some app_dedup
dedup ([] ∷ toks) app_dedup = dedup toks app_dedup
dedup ((c ∷ tok) ∷ toks) app_dedup =
    dedup_token (suc (length app_dedup)) (c ∷ tok) [] app_dedup >>= λ app. dedup toks app

unfoldable pub pathappend : Option Bytes → Bytes → Option Bytes
pathappend none appendage = some appendage
pathappend (some []) appendage = none
pathappend (some (c ∷ oldpath)) appendage =
    dedup (fields (codes ":") (c ∷ oldpath)) appendage >>= λ app_dedup.
    some (elim app_dedup [ [] ↦ c ∷ oldpath | a ∷ app ↦ (c ∷ oldpath) ++ (b':' ∷ a ∷ app) ])

begins_field-false : (c : ℕ) (s : Bytes) → Lacks b':' (c ∷ s) → begins_field (c ∷ s) ≡ false
unfolding begins_field
begins_field-false c [] (l, ls) = ground arith
begins_field-false c (d ∷ s) (l, ls) = begins_field-false d s ls

Lacks-split : (d : ℕ) (a b : Bytes) → Lacks d (a ++ b) → Lacks d a × Lacks d b
Lacks-split d [] b l = (tt, l)
Lacks-split d (c ∷ a) b (l, ls) = let (la, lb) = Lacks-split d a b ls in ((l, la), lb)

-- Behind a field's first byte nothing is taken off.
length_left :
    (f : ℕ) (tok text x rest : Bytes)
    → tok ≢ []
    → text ≡ x ++ (tok ++ rest)
    → length text < suc f
    → length rest < f
length_left f [] text x rest n e h = absurd (n refl)
length_left f (t ∷ tok) text x rest n e h =
    ground (arith, ap length e, length-append x ((t ∷ tok) ++ rest), length-append tok rest, h)

token_kept :
    (f c : ℕ) (tok pre text : Bytes)
    → Lacks b':' (c ∷ pre)
    → Lacks b':' text
    → tok ≢ []
    → length text < f
    → dedup_token f tok (c ∷ pre) text ≡ some ((c ∷ pre) ++ text)
unfolding dedup_token at_search
token_kept zero c tok pre text lp lt n h = ground (arith, h)
token_kept (suc f) c tok pre text lp lt n h = elim (Option-cases (strstr tok text)) [
  | inl e ↦ ground (arith, e)
  | inr ((x, y), e) ↦
      let rest = drop (length tok) y in
      let (split, start) = strstr_sound tok text x y e in
      let whole : text ≡ x ++ (tok ++ rest) = split ∙ ap (λ t. x ++ t) start in
      let (lx, ltr) = Lacks-split b':' x (tok ++ rest) (subst (Lacks b':') whole lt) in
      let (ltok, lr) = Lacks-split b':' tok rest ltr in
      let later : dedup_token f tok (c ∷ (pre ++ (x ++ tok))) rest
          ≡ some ((c ∷ (pre ++ (x ++ tok))) ++ rest) =
        token_kept f c tok (pre ++ (x ++ tok)) rest
          (
            lp.0,
            All-append (λ a. a ≢ b':') pre (x ++ tok) lp.1
                (All-append (λ a. a ≢ b':') x tok lx ltok),
          )
          lr n (length_left f tok text x rest n whole h) in
      let joined : (c ∷ (pre ++ (x ++ tok))) ++ rest ≡ (c ∷ pre) ++ text =
        rw whole (simp append_assoc) in
      ground (
        arith,
        e,
        begins_field-false c (pre ++ x) (lp.0, All-append (λ a. a ≢ b':') pre x lp.1 lx),
        later,
        joined,
      )
]

strstr_refl : (c : ℕ) (s : Bytes) → strstr (c ∷ s) (c ∷ s) ≡ some ([], c ∷ s)
unfolding strstr
strstr_refl c s = rw (starts_with_refl (c ∷ s)) refl

-- The text begins with the token.
token_start :
    (t : ℕ) (tok rest : Bytes)
    → Lacks b':' ((t ∷ tok) ++ rest)
    → strstr (t ∷ tok) ((t ∷ tok) ++ rest) ≡ some ([], (t ∷ tok) ++ rest)
    → dedup_token (suc (length ((t ∷ tok) ++ rest))) (t ∷ tok) [] ((t ∷ tok) ++ rest)
      ≡ some (if streq (t ∷ tok) ((t ∷ tok) ++ rest) then [] else (t ∷ tok) ++ rest)
unfolding dedup_token at_search begins_field strip_colons
token_start t tok [] l e =
    ground (arith, e, drop_prefix (t ∷ tok) [], append-nil (t ∷ tok), streq_refl (t ∷ tok))
token_start t tok (r ∷ rest) l e =
    let (lt, lr) = Lacks-split b':' (t ∷ tok) (r ∷ rest) l in
    let n : (t ∷ tok) ≢ [] = λ h. ground (arith, h) in
    let differs : streq (t ∷ tok) ((t ∷ tok) ++ (r ∷ rest)) ≡ false =
      streq-eq_false (λ h. ground (arith, ap length h, length-append tok (r ∷ rest))) in
    ground (
      arith,
      e,
      drop_prefix (t ∷ tok) (r ∷ rest),
      lr.0,
      differs,
      token_kept (length ((t ∷ tok) ++ (r ∷ rest))) t (t ∷ tok) tok (r ∷ rest) lt lr n,
      length-append tok (r ∷ rest),
    )

-- The token stands first behind the first byte of the text.
token_inside :
    (t : ℕ) (tok app : Bytes) (c : ℕ) (x y : Bytes)
    → Lacks b':' app
    → strstr (t ∷ tok) app ≡ some (c ∷ x, y)
    → dedup_token (suc (length app)) (t ∷ tok) [] app
      ≡ some (if streq (t ∷ tok) app then [] else app)
unfolding dedup_token at_search
token_inside t tok app c x y l e =
    let tk = t ∷ tok in
    let rest = drop (length tk) y in
    let (split, start) = strstr_sound tk app (c ∷ x) y e in
    let whole : app ≡ (c ∷ x) ++ (tk ++ rest) = split ∙ ap (λ a. (c ∷ x) ++ a) start in
    let differs : streq tk app ≡ false = ground (arith, e, streq_iff tk app, strstr_refl t tok) in
    let (lx, ltr) = Lacks-split b':' (c ∷ x) (tk ++ rest) (subst (Lacks b':') whole l) in
    let (lt, lr) = Lacks-split b':' tk rest ltr in
    let n : tk ≢ [] = λ h. ground (arith, h) in
    let short : length rest < length app =
      ground (arith, ap length whole, length-append (c ∷ x) (tk ++ rest), length-append tok rest) in
    let later : dedup_token (length app) tk (c ∷ (x ++ tk)) rest ≡ some ((c ∷ (x ++ tk)) ++ rest) =
      token_kept (length app) c tk (x ++ tk) rest (lx.0, All-append (λ a. a ≢ b':') x tk lx.1 lt) lr
        n short in
    let joined : (c ∷ (x ++ tk)) ++ rest ≡ app = rw whole (simp append_assoc) in
    ground (arith, e, begins_field-false c x lx, later, joined, differs)

-- A field is taken off a text of one field exactly when it is that text.
token_once :
    (t : ℕ) (tok app : Bytes)
    → Lacks b':' app
    → dedup_token (suc (length app)) (t ∷ tok) [] app
      ≡ some (if streq (t ∷ tok) app then [] else app)
token_once t tok app l = elim (Option-cases (strstr (t ∷ tok) app)) [
  | inl e ↦
      let differs : streq (t ∷ tok) app ≡ false =
        ground (arith, e, streq_iff (t ∷ tok) app, strstr_refl t tok) in
      unfold dedup_token in ground (arith, e, differs)
  | inr (([], y), e) ↦
      let rest = drop (length (t ∷ tok)) y in
      let (split, start) = strstr_sound (t ∷ tok) app [] y e in
      let whole : app ≡ (t ∷ tok) ++ rest = split ∙ start in
      subst
        (λ a.
          dedup_token (suc (length a)) (t ∷ tok) [] a ≡ some (if streq (t ∷ tok) a then [] else a))
        (sym whole)
        (token_start t tok rest (subst (Lacks b':') whole l) (
          subst (λ a. strstr (t ∷ tok) a ≡ some ([], a)) whole
            (subst (λ a. strstr (t ∷ tok) app ≡ some ([], a)) (sym split) e)))
  | inr ((c ∷ x, y), e) ↦ token_inside t tok app c x y l e
]

-- Whether a path has the directory among its fields.
unfoldable pub any_field : List Bytes → Bytes → Bool
any_field [] app = false
any_field (tok ∷ toks) app = streq tok app || any_field toks app

dedup_nil : (toks : List Bytes) → dedup toks [] ≡ some []
unfolding dedup dedup_token strstr starts_with
dedup_nil [] = refl
dedup_nil ([] ∷ toks) = dedup_nil toks
dedup_nil ((c ∷ tok) ∷ toks) = dedup_nil toks

nil_differs : (c : ℕ) (s : Bytes) → streq [] (c ∷ s) ≡ false
unfolding streq
nil_differs c s = refl

dedup-any_field :
    (toks : List Bytes) (c : ℕ) (app : Bytes)
    → Lacks b':' (c ∷ app)
    → dedup toks (c ∷ app) ≡ some (if any_field toks (c ∷ app) then [] else c ∷ app)
unfolding dedup any_field
dedup-any_field [] c app l = refl
dedup-any_field ([] ∷ toks) c app l =
    ground (arith, nil_differs c app, dedup-any_field toks c app l)
dedup-any_field ((t ∷ tok) ∷ toks) c app l =
    ground (arith, token_once t tok (c ∷ app) l, dedup-any_field toks c app l, dedup_nil toks)

-- A directory without a colon in its name, which is not empty, is appended to a path that is not
-- empty behind a colon, unless it is one of the path's fields, when the path stays as it is;
-- pathappend reads no freed memory then.
pub pathappend_directory :
    (p : ℕ) (path : Bytes) (c : ℕ) (dir : Bytes)
    → Lacks b':' (c ∷ dir)
    → pathappend (some (p ∷ path)) (c ∷ dir)
      ≡ some (
          if any_field (fields (codes ":") (p ∷ path)) (c ∷ dir)
          then p ∷ path
          else (p ∷ path) ++ (b':' ∷ c ∷ dir))
unfolding pathappend
pathappend_directory p path c dir l =
    ground (arith, dedup-any_field (fields (codes ":") (p ∷ path)) c dir l)

-- For a directory without a colon in its name, which is not empty, appending to it a path of which
-- it is the first of several fields reads memory that pathappend has freed.
pathappend_repeated :
    (c : ℕ) (dir rest : Bytes)
    → Lacks b':' (c ∷ dir)
    → pathappend (some (c ∷ dir)) ((c ∷ dir) ++ (b':' ∷ rest)) ≡ none
unfolding pathappend dedup dedup_token at_search begins_field strstr
pathappend_repeated c dir rest l = ground (
  arith,
  fields-Lacks b':' (c ∷ dir) l,
  starts_with-append (c ∷ dir) (b':' ∷ rest),
  drop_prefix (c ∷ dir) (b':' ∷ rest),
)
