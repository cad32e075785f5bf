-- ===== src/Pages/Names.antt =====
-- split_page_name (src/man.c) on names with a section.
use mandb.Base.{true, none, some, List, [], ◌∷◌, ◌++◌, Bytes, ◌≡◌, ◌≢◌, arith, Lacks, All-append}
use mandb.CString.{split_last}
use mandb.CString.Search.{split_last-append, split_last-Lacks}
use mandb.Pages.{is_section, split_parens, split_page_name}

parens_closed : (section : Bytes) → split_last b')' (section ++ (b')' ∷ [])) ≡ some (section, [])
parens_closed section = split_last-append b')' section [] tt

-- A section without a dot behind the name's last dot, and one without an opening parenthesis in
-- parentheses behind a name without a dot, are split off when they are sections of the list; a
-- name without a dot or a parenthesis is left whole.
split_page_name_lem :
    (section_list : List Bytes) (name section plain : Bytes)
    → is_section section_list section ≡ true
    → Lacks b'.' section
    → Lacks b'(' section
    → Lacks b'.' plain
    → Lacks b'(' plain
    → (split_page_name section_list (name ++ (b'.' ∷ section)) ≡ (name, some section))
      × (split_page_name section_list (plain ++ (b'(' ∷ (section ++ (b')' ∷ []))))
          ≡ (plain, some section))
      × (split_page_name section_list plain ≡ (plain, none))
unfolding split_page_name split_parens
split_page_name_lem section_list name section plain s d p n m =
    let closed = section ++ (b')' ∷ []) in
    let lp : Lacks b'(' closed =
      All-append (λ c. c ≢ b'(') section (b')' ∷ []) p (ground arith, tt) in
    let ld : Lacks b'.' (plain ++ (b'(' ∷ closed)) =
      All-append (λ c. c ≢ b'.') plain (b'(' ∷ closed) n
        (ground arith, All-append (λ c. c ≢ b'.') section (b')' ∷ []) d (ground arith, tt)) in
    (
      ground (arith, split_last-append b'.' name section d, s),
      ground (
        arith,
        split_last-Lacks b'.' (plain ++ (b'(' ∷ closed)) ld,
        split_last-append b'(' plain closed lp,
        parens_closed section,
        s,
      ),
      ground (arith, split_last-Lacks b'.' plain n, split_last-Lacks b'(' plain m),
    )
