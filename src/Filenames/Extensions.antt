-- ===== src/Filenames/Extensions.antt =====
-- comp_info on a file name, by whether its last extension is one of comp_list.
use mandb.Base.{
  Bool, true, false, Option, none, some, List, [], ◌∷◌, ◌++◌, Bytes, ◌==◌, codes, get_or, ◌≡◌, refl,
  arith, All, Lacks, All-append, Option-cases, Bool-cases, subst, inl, inr,
}
use mandb.CString.{streq, strstr, starts_with}
use mandb.CString.Compare.{streq_iff}
use mandb.CString.Search.{split_last-append}
use mandb.Db.Record.{first_char}
use mandb.Filenames.{
  Compression, Programs, comp_list, find_ext, stem_if, entries, or_entries, hpux_info, comp_info,
}

-- ".Z/" is not in a name without '/'.
strstr-Lacks : (s : Bytes) → Lacks b'/' s → strstr (codes ".Z/") s ≡ none
unfolding strstr starts_with
strstr-Lacks [] h = refl
strstr-Lacks (c ∷ []) h = ground arith
strstr-Lacks (c ∷ d ∷ []) h = ground arith
strstr-Lacks (c ∷ d ∷ e ∷ s) (h, hs) = ground (arith, strstr-Lacks (d ∷ e ∷ s) hs)

hpux_info-Lacks : (p : Programs) (s : Bytes) (w : Bool) → Lacks b'/' s → hpux_info p s w ≡ none
unfolding hpux_info
hpux_info-Lacks p s w h = by_prog (get_or [] p.gunzip) (strstr-Lacks s h)
  where
    by_prog :
        (g : Bytes)
        → strstr (codes ".Z/") s ≡ none
        → elim g [
          | [] ↦ none
          | c ∷ prog ↦ elim (strstr (codes ".Z/") s) as (λ _. Option Compression) [
            | none ↦ none
            | some (before, rest) ↦
                some record {
                  prog = (c ∷ prog) ++ codes " -S \"\"";
                  ext = [];
                  stem = stem_if w before;
                }
          ]
        ]
          ≡ none
    by_prog [] e = refl
    by_prog (c ∷ prog) e = ground (arith, e)

-- The extensions that comp_list knows.
unfoldable pub is_known : Programs → Bytes → Bool
is_known p ext = elim (find_ext ext (comp_list p)) [ none ↦ false | some c ↦ true ]

-- What the extensions of comp_list have in common.
abbrev pub IsSuffix : Bytes → Type 0
IsSuffix e = Lacks b'.' e × (Lacks b'/' e × ((first_char e == b'-') ≡ false))

abbrev HasSuffix : Compression → Type 0
HasSuffix c = IsSuffix c.ext

entries-HasSuffix :
    (o : Option Bytes) (exts : List Bytes) → All IsSuffix exts → All HasSuffix (entries o exts)
unfolding entries
entries-HasSuffix none exts h = tt
entries-HasSuffix (some prog) [] h = tt
entries-HasSuffix (some prog) (e ∷ exts) (h, hs) = (h, entries-HasSuffix (some prog) exts hs)

or_entries-HasSuffix :
    (o : Option Bytes) (exts : List Bytes) (other : List Compression)
    → All IsSuffix exts
    → All HasSuffix other
    → All HasSuffix (or_entries o exts other)
unfolding or_entries
or_entries-HasSuffix none exts other h h' = h'
or_entries-HasSuffix (some prog) exts other h h' = entries-HasSuffix (some prog) exts h

comp_list-HasSuffix : (p : Programs) → All HasSuffix (comp_list p)
unfolding comp_list
comp_list-HasSuffix p =
    All-append HasSuffix _ _ (entries-HasSuffix p.gunzip _ (ground arith, (ground arith, tt))) (
      All-append HasSuffix _ _
        (or_entries-HasSuffix p.uncompress _ _ (ground arith, tt)
          (entries-HasSuffix p.gunzip _ (ground arith, tt)))
        (All-append HasSuffix _ _ (entries-HasSuffix p.bunzip2 _ (ground arith, tt)) (
          All-append HasSuffix _ _
            (or_entries-HasSuffix p.unxz _ _ (ground arith, (ground arith, tt))
              (entries-HasSuffix p.unlzma _ (ground arith, tt)))
            (All-append HasSuffix _ _ (entries-HasSuffix p.unlzip _ (ground arith, tt))
              (entries-HasSuffix p.unzstd _ (ground arith, (ground arith, tt)))))))

find_ext_sound :
    (e : Bytes) (cs : List Compression) (c : Compression)
    → All HasSuffix cs
    → find_ext e cs ≡ some c
    → (c.ext ≡ e) × IsSuffix e
unfolding find_ext
find_ext_sound e [] c h eq = ground arith
find_ext_sound e (d ∷ cs) c (h, hs) eq = elim (Bool-cases (streq d.ext e)) [
  | inl e' ↦
      let same : d.ext ≡ e = (streq_iff d.ext e).0 e' in
      (ground (arith, e', same), subst IsSuffix same h)
  | inr e' ↦ find_ext_sound e cs c hs (ground (arith, e'))
]

pub comp_info_plain :
    (p : Programs) (name ext : Bytes)
    → Lacks b'/' (name ++ (b'.' ∷ ext))
    → Lacks b'.' ext
    → is_known p ext ≡ false
    → comp_info p (name ++ (b'.' ∷ ext)) true ≡ none
unfolding comp_info is_known
comp_info_plain p name ext h h' e =
    ground (
      arith,
      e,
      split_last-append b'.' name ext h',
      hpux_info-Lacks p (name ++ (b'.' ∷ ext)) true h,
    )

pub comp_info_known :
    (p : Programs) (stem ext : Bytes)
    → is_known p ext ≡ true
    → (c : Compression) × (comp_info p (stem ++ (b'.' ∷ ext)) true ≡ some c)
      × (c.stem ≡ some stem)
      × (c.ext ≡ ext)
      × IsSuffix ext
unfolding comp_info is_known stem_if
comp_info_known p stem ext e = elim (Option-cases (find_ext ext (comp_list p))) [
  | inl e' ↦ absurd (ground (arith, e, e'))
  | inr (c, e') ↦
      let (same, suffix) = find_ext_sound ext (comp_list p) c (comp_list-HasSuffix p) e' in
      (
        record c { stem = some stem },
        ground (arith, e', split_last-append b'.' stem ext suffix.0),
        refl,
        same,
        suffix,
      )
]
