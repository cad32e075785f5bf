-- ===== src/Manpath/Untranslated.antt =====
-- The untranslated manpath in the result of add_nls_manpaths (src/manp.c).
use mandb.Base.{
  Option, none, some, [], ◌∷◌, ◌++◌, Bytes, codes, ◌≡◌, ◌⊎◌, inl, inr, refl, subst, arith, get_or,
  Bool-cases, Option-cases,
}
use mandb.CString.{streq, has}
use mandb.CString.Fields.{fields}
use mandb.Locale.{unpack_locale_bits, unpack_bits, up_to, part}
use mandb.Manpath.Nls.{
  Disk, Manp, is_empty, get_nls_manpath, add_locale_manpath, add_locales, add_nls_manpaths,
}

-- The manpath, alone or last.
abbrev pub EndsWith : Bytes → Manp → Type 0
EndsWith manpathlist r =
    (r ≡ some manpathlist) ⊎ ((p : Bytes) × (r ≡ some (p ++ (b':' ∷ manpathlist))))

untranslated :
    (disk : Disk) (manpathlist : Bytes)
    → get_nls_manpath disk manpathlist (codes "C") ≡ some (some manpathlist)
unfolding get_nls_manpath unpack_locale_bits unpack_bits up_to part has streq
untranslated disk manpathlist = refl

EndsWith-last :
    (m : Manp) (manpathlist : Bytes)
    → EndsWith manpathlist (add_locale_manpath m (some manpathlist))
unfolding add_locale_manpath
EndsWith-last none manpathlist = inl refl
EndsWith-last (some p) manpathlist = inr (p, refl)

-- What add_nls_manpaths returns is the manpath that it is given, or ends with it behind a colon.
pub add_nls_manpaths-EndsWith :
    (disk : Disk) (manpathlist : Bytes) (locales : Option Bytes) (r : Manp)
    → add_nls_manpaths disk manpathlist locales ≡ some r
    → EndsWith manpathlist r
unfolding add_nls_manpaths
add_nls_manpaths-EndsWith disk manpathlist locales r e =
    let toks = fields (codes ":") (get_or [] locales) in
    elim (Bool-cases (is_empty (get_or [] locales))) [
      | inl k ↦ inl (ground (arith, e, k))
      | inr k ↦ elim (Option-cases (add_locales disk manpathlist toks none)) [
        | inl a ↦ absurd (ground (arith, e, k, a))
        | inr (m, a) ↦
            let last : add_locale_manpath m (some manpathlist) ≡ r =
              ground (arith, e, k, a, untranslated disk manpathlist) in
            subst (EndsWith manpathlist) last (EndsWith-last m manpathlist)
      ]
    ]
