-- ===== src/Manpath/Catpath.antt =====
-- get_catpath (src/manp.c) on the directories of a hierarchy.
use mandb.Base.{
  true, false, some, is_some, [], ◌∷◌, ◌++◌, Bytes, codes, ◌≡◌, refl, ap, ◌∙◌, arith, Lacks,
  append_assoc, length, drop,
}
use mandb.CString.{starts_with, split_last}
use mandb.CString.Search.{split_last-append, split_last-Lacks}
use mandb.Manpath.{
  same_flag, flag_index, mandb_map, ConfigItem, Config, infix_suffix, cat_for_man, catpath_of,
  get_catpath,
}

pub drop_prefix : (key rest : Bytes) → drop (length key) (key ++ rest) ≡ rest
drop_prefix [] rest = refl
drop_prefix (c ∷ key) rest = drop_prefix key rest

pub starts_with-append : (key rest : Bytes) → starts_with key (key ++ rest) ≡ true
unfolding starts_with
starts_with-append [] rest = refl
starts_with-append (c ∷ key) rest = ground (arith, starts_with-append key rest)

man-Lacks : (sec : Bytes) → Lacks b'/' sec → Lacks b'/' (codes "man" ++ sec)
man-Lacks sec l = (ground arith, (ground arith, (ground arith, l)))

-- "/man" and a section.
section_suffix :
    (sec : Bytes)
    → Lacks b'/' sec
    → infix_suffix (codes "/man" ++ sec) ≡ (codes "/", codes "man" ++ sec)
unfolding infix_suffix
section_suffix sec l = ground (
  arith,
  split_last-append b'/' [] (codes "man" ++ sec) (man-Lacks sec l),
  split_last-Lacks b'/' [] tt,
)

-- A directory in a hierarchy of its own.
inner_suffix :
    (hier tail locale : Bytes)
    → Lacks b'/' tail
    → Lacks b'/' locale
    → infix_suffix ((hier ++ (codes "/man" ++ tail)) ++ (b'/' ∷ locale))
      ≡ (hier ++ codes "/", codes "man" ++ (tail ++ (b'/' ∷ locale)))
unfolding infix_suffix
inner_suffix hier tail locale l k = ground (
  arith,
  split_last-append b'/' (hier ++ (codes "/man" ++ tail)) locale k,
  split_last-append b'/' hier (codes "man" ++ tail) (man-Lacks tail l),
)

cat_for_man-man : (s : Bytes) → cat_for_man (codes "man" ++ s) ≡ codes "cat" ++ s
unfolding cat_for_man starts_with
cat_for_man-man s = refl

has_slash : (a b : Bytes) → Lacks b'/' b → is_some (split_last b'/' (a ++ (b'/' ∷ b))) ≡ true
has_slash a b l = ap is_some (split_last-append b'/' a b l)

module _ (item : ConfigItem) where
  catpath_section :
      (sec : Bytes)
      → Lacks b'/' sec
      → catpath_of (item.key ++ (codes "/man" ++ sec)) item ≡ item.cont ++ (codes "/cat" ++ sec)
  unfolding catpath_of
  catpath_section sec l =
      rw
        (
          has_slash item.key (codes "man" ++ sec) (man-Lacks sec l),
          drop_prefix item.key (codes "/man" ++ sec),
          section_suffix sec l,
          cat_for_man-man sec,
        )
        refl

  catpath_inner :
      (hier tail locale : Bytes)
      → Lacks b'/' tail
      → Lacks b'/' locale
      → catpath_of (item.key ++ ((hier ++ (codes "/man" ++ tail)) ++ (b'/' ∷ locale))) item
        ≡ item.cont ++ ((hier ++ (codes "/cat" ++ tail)) ++ (b'/' ∷ locale))
  unfolding catpath_of
  catpath_inner hier tail locale l k =
      let rest = (hier ++ (codes "/man" ++ tail)) ++ (b'/' ∷ locale) in
      let name : item.key ++ rest
          ≡ (item.key ++ (hier ++ (codes "/man" ++ tail))) ++ (b'/' ∷ locale) =
        simp append_assoc in
      let slash : is_some (split_last b'/' (item.key ++ rest)) ≡ true =
        ap (λ s. is_some (split_last b'/' s)) name
        ∙ has_slash (item.key ++ (hier ++ (codes "/man" ++ tail))) locale k in
      rw
        (
          slash,
          drop_prefix item.key rest,
          inner_suffix hier tail locale l k,
          cat_for_man-man (tail ++ (b'/' ∷ locale)),
        )
        (simp append_assoc)

  -- The first item of the configuration, when it is the system's and its key begins the name, turns
  -- the directory of a section below the key into the one with "cat" for "man" below the item's
  -- content, and a directory whose parent begins with "man" into one whose parent begins with
  -- "cat", the parts having no slash.
  get_catpath_pages :
      (hier tail locale : Bytes) (config : Config)
      → item.flag ≡ mandb_map
      → Lacks b'/' tail
      → Lacks b'/' locale
      → (get_catpath (item.key ++ (codes "/man" ++ tail)) true false (item ∷ config)
          ≡ some (item.cont ++ (codes "/cat" ++ tail)))
        × (get_catpath
              (item.key ++ ((hier ++ (codes "/man" ++ tail)) ++ (b'/' ∷ locale)))
              true
              false
              (item ∷ config)
            ≡ some (item.cont ++ ((hier ++ (codes "/cat" ++ tail)) ++ (b'/' ∷ locale))))
  unfolding get_catpath same_flag flag_index
  get_catpath_pages hier tail locale config f l k = (
    ground (arith, f, starts_with-append item.key (codes "/man" ++ tail), catpath_section tail l),
    ground (
      arith,
      f,
      starts_with-append item.key ((hier ++ (codes "/man" ++ tail)) ++ (b'/' ∷ locale)),
      catpath_inner hier tail locale l k,
    ),
  )
