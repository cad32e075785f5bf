-- ===== src/Filenames/RoundTrip.antt =====
-- filename_info on a path that make_filename makes (lib/filenames.c).
use mandb.Base.{
  ℕ, Bool, true, false, Option, none, some, [], ◌∷◌, ◌++◌, Bytes, ◌==◌, if◌then◌else◌, codes, ◌≡◌,
  ◌≢◌, ◌∙◌, refl, sym, ap, arith, Lacks, All-append, append_assoc, append-nil, subst,
}
use mandb.CString.Search.{split_last-append}
use mandb.Db.Record.{Mandata, first_char}
use mandb.Filenames.{
  Programs, page_path, make_filename, info, page_info, section_info, ext_info, filename_info,
}
use mandb.Filenames.Extensions.{is_known, comp_info_plain, comp_info_known}

-- base_name and dir_name on a path whose last two components are not empty.
pub record SplitsPaths (base_name dir_name : Bytes → Bytes) : Type 0 where
  pub base :
      (dirs last file : Bytes)
      → last ≢ []
      → file ≢ []
      → Lacks b'/' last
      → Lacks b'/' file
      → base_name (dirs ++ (b'/' ∷ (last ++ (b'/' ∷ file)))) ≡ file
  pub dir :
      (dirs last file : Bytes)
      → last ≢ []
      → file ≢ []
      → Lacks b'/' last
      → Lacks b'/' file
      → dir_name (dirs ++ (b'/' ∷ (last ++ (b'/' ∷ file)))) ≡ dirs ++ (b'/' ∷ last)

-- What make_filename puts behind the extension.
abbrev suffix_of : Option Bytes → Bytes
suffix_of none = []
suffix_of (some comp) = if first_char comp == b'-' then [] else b'.' ∷ comp

-- A compression that a page may have here: none, where its extension is not one of a compression, or
-- one whose extension is known.
pub data IsReadable (p : Programs) (ext : Bytes) : Option Bytes → Type 0 where
  plain : is_known p ext ≡ false → IsReadable p ext none
  compressed : {comp : Bytes} → is_known p comp ≡ true → IsReadable p ext (some comp)

-- The section and the extension agree in their first byte, if there is a section.
abbrev pub Agrees : Bytes → Bytes → Type 0
Agrees [] ext = Unit {0}
Agrees (c ∷ cs) ext = c ≡ first_char ext

suffix_lem :
    (comp : Bytes) → (first_char comp == b'-') ≡ false → suffix_of (some comp) ≡ b'.' ∷ comp
suffix_lem comp h = ground (arith, h)

-- The part of a path that make_filename makes behind the last '/'.
abbrev file_name : Bytes → Bytes → Option Bytes → Bytes
file_name name ext comp = name ++ (b'.' ∷ (ext ++ suffix_of comp))

suffix-Lacks :
    (p : Programs) (ext : Bytes) (comp : Option Bytes)
    → IsReadable p ext comp
    → Lacks b'/' (suffix_of comp)
suffix-Lacks p ext none h = tt
suffix-Lacks p ext (some comp) (compressed known) =
    let (c, found, its_stem, its_ext, suffix) = comp_info_known p [] comp known in
    subst (Lacks b'/') (sym (suffix_lem comp suffix.1.1)) (omega arith, suffix.1.0)

file_name_nonempty : (name rest : Bytes) → name ++ (b'.' ∷ rest) ≢ []
file_name_nonempty [] rest h = ground (arith, h)
file_name_nonempty (c ∷ name) rest h = ground (arith, h)

page_path_lem :
    (path name : Bytes) (m : Mandata) (ext : Bytes)
    → m.ext ≡ ext
    → page_path path (some name) m (codes "man")
      ≡ path ++ (b'/' ∷ ((codes "man" ++ m.sec) ++ (b'/' ∷ file_name name ext m.comp)))
unfolding page_path
page_path_lem path name m ext h = by_comp_of m.comp
  where
    by_comp_of :
        (o : Option Bytes)
        → path
            ++ (b'/'
                ∷ (codes "man"
                    ++ (m.sec
                        ++ (b'/'
                            ∷ (name
                                ++ (b'.'
                                    ∷ (m.ext ++ elim o [
                                      | none ↦ []
                                      | some comp ↦
                                          if first_char comp == b'-' then [] else b'.' ∷ comp
                                    ])))))))
          ≡ path ++ (b'/' ∷ ((codes "man" ++ m.sec) ++ (b'/' ∷ file_name name ext o)))
    by_comp_of none = rw h refl
    by_comp_of (some comp) = rw h refl

module _ (base_name dir_name : Bytes → Bytes) where
  section_info_lem :
      (file dirs sec name ext : Bytes) (comp : Option Bytes)
      → dir_name file ≡ dirs ++ (b'/' ∷ (codes "man" ++ sec))
      → Lacks b'/' sec
      → Agrees sec ext
      → section_info base_name dir_name file name ext comp ≡ info (page_info name ext sec comp)
  unfolding section_info
  section_info_lem file dirs [] name ext comp e h agrees = ground (
    arith,
    e,
    split_last-append b'/' dirs (codes "man") (omega arith, (omega arith, (omega arith, tt))),
  )
  section_info_lem file dirs (c ∷ cs) name ext comp e h agrees = ground (
    arith,
    e,
    split_last-append b'/' dirs (codes "man" ++ (c ∷ cs))
        (omega arith, (omega arith, (omega arith, h))),
  )

  ext_info_lem :
      (file dirs sec name : Bytes) (e : ℕ) (es : Bytes) (comp : Option Bytes)
      → dir_name file ≡ dirs ++ (b'/' ∷ (codes "man" ++ sec))
      → Lacks b'.' (e ∷ es)
      → Lacks b'/' sec
      → Agrees sec (e ∷ es)
      → ext_info base_name dir_name file (name ++ (b'.' ∷ e ∷ es)) comp
        ≡ info (page_info name (e ∷ es) sec comp)
  unfolding ext_info
  ext_info_lem file dirs sec name e es comp eq dots h agrees = ground (
    arith,
    split_last-append b'.' name (e ∷ es) dots,
    section_info_lem file dirs sec name (e ∷ es) comp eq h agrees,
  )

  by_comp :
      (p : Programs) (file dirs sec name : Bytes) (e : ℕ) (es : Bytes) (comp : Option Bytes)
      → base_name file ≡ name ++ (b'.' ∷ ((e ∷ es) ++ suffix_of comp))
      → dir_name file ≡ dirs ++ (b'/' ∷ (codes "man" ++ sec))
      → Lacks b'.' (e ∷ es)
      → Lacks b'/' (name ++ (b'.' ∷ e ∷ es))
      → Lacks b'/' sec
      → Agrees sec (e ∷ es)
      → IsReadable p (e ∷ es) comp
      → filename_info base_name dir_name p file ≡ info (page_info name (e ∷ es) sec comp)
  unfolding filename_info
  by_comp p file dirs sec name e es none base dir dots slashes h agrees (plain unknown) =
      let whole : base_name file ≡ name ++ (b'.' ∷ e ∷ es) =
        base ∙ ap (λ x. name ++ (b'.' ∷ x)) (append-nil (e ∷ es)) in
      ground (
        arith,
        whole,
        comp_info_plain p name (e ∷ es) slashes dots unknown,
        ext_info_lem file dirs sec name e es none dir dots h agrees,
      )
  by_comp p file dirs sec name e es (some comp) base dir dots slashes h agrees (compressed known) =
      let stem : Bytes = name ++ (b'.' ∷ e ∷ es) in
      let (c, found, its_stem, its_ext, suffix) = comp_info_known p stem comp known in
      let whole : base_name file ≡ stem ++ (b'.' ∷ comp) =
        base
        ∙ ap (λ x. name ++ (b'.' ∷ ((e ∷ es) ++ x))) (suffix_lem comp suffix.1.1)
        ∙ sym (append_assoc name (b'.' ∷ e ∷ es) (b'.' ∷ comp)) in
      ground (
        arith,
        whole,
        found,
        its_stem,
        its_ext,
        ext_info_lem file dirs sec name e es (some comp) dir dots h agrees,
      )

  -- filename_info reads back what make_filename was given, from the path of a page below a directory
  -- `path`, where base_name and dir_name split it at its last '/', the name and the section have no
  -- '/', the extension has neither a '/' nor a '.' and agrees with the section in its first byte, and
  -- the compression is a known one, or there is none and the extension is not one of a compression.
  pub filename_info-make_filename :
      (p : Programs) (can_access : Bytes → Bool) (path file name : Bytes) (e : ℕ) (es : Bytes)
      (m : Mandata)
      → SplitsPaths base_name dir_name
      → m.ext ≡ e ∷ es
      → Lacks b'/' name
      → Lacks b'/' (e ∷ es)
      → Lacks b'.' (e ∷ es)
      → Lacks b'/' m.sec
      → Agrees m.sec (e ∷ es)
      → IsReadable p (e ∷ es) m.comp
      → make_filename can_access path (some name) m (codes "man") ≡ some file
      → filename_info base_name dir_name p file ≡ info (page_info name (e ∷ es) m.sec m.comp)
  unfolding make_filename
  filename_info-make_filename p can_access path file name e es m splits ext no_slash slashes dots h
        agrees readable made =
      let last : Bytes = codes "man" ++ m.sec in
      let fn : Bytes = file_name name (e ∷ es) m.comp in
      let whole : path ++ (b'/' ∷ (last ++ (b'/' ∷ fn))) ≡ file =
        sym (page_path_lem path name m (e ∷ es) ext) ∙ ground (arith, made) in
      let no_slash_fn : Lacks b'/' fn =
        All-append (λ c. c ≢ b'/') name (b'.' ∷ ((e ∷ es) ++ suffix_of m.comp)) no_slash
          (
            omega arith,
            All-append (λ c. c ≢ b'/') (e ∷ es) (suffix_of m.comp) slashes
                (suffix-Lacks p (e ∷ es) m.comp readable),
          ) in
      let no_slash_last : Lacks b'/' last = (omega arith, (omega arith, (omega arith, h))) in
      by_comp p file path m.sec name e es m.comp
        (subst (λ f. base_name f ≡ fn) whole
          (splits.base path last fn (λ z. ground (arith, z)) (file_name_nonempty name _)
            no_slash_last no_slash_fn))
        (subst (λ f. dir_name f ≡ path ++ (b'/' ∷ last)) whole
          (splits.dir path last fn (λ z. ground (arith, z)) (file_name_nonempty name _)
            no_slash_last no_slash_fn))
        dots (All-append (λ c. c ≢ b'/') name (b'.' ∷ e ∷ es) no_slash (omega arith, slashes)) h
        agrees readable
