-- ===== src/Whatis/Found.antt =====
-- Which pages apropos shows, and which keywords it counts as found (src/whatis.c).
use mandb.Base.{
  Bool, true, false, ◌&&◌, ◌||◌, Option, none, some, List, [], ◌∷◌, Bytes, ◌≡◌, refl, ap, ◌∙◌,
  arith, if◌then◌else◌, map, Bool-cases, inl, inr,
}
use mandb.Db.Record.{Mandata}
use mandb.Whatis.{
  Options, Search, any_set, all_set, mark, none_set, matches_name, matches_whatis, parse_name,
  parse_whatis, combine, whatis_hits, apropos_page,
}

mark-none_set :
    (pages : List Bytes) (f : Bytes → Bool) → mark (none_set pages) (map f pages) ≡ map f pages
unfolding mark none_set
mark-none_set [] f = refl
mark-none_set (page ∷ pages) f = ap (λ t. f page ∷ t) (mark-none_set pages f)

mark-map :
    (pages : List Bytes) (f g : Bytes → Bool)
    → mark (map g pages) (map f pages) ≡ map (λ p. g p || f p) pages
unfolding mark
mark-map [] f g = refl
mark-map (page ∷ pages) f g = ap (λ t. (g page || f page) ∷ t) (mark-map pages f g)

any_set-or :
    (pages : List Bytes) (f g : Bytes → Bool)
    → any_set (map f pages) ≡ true
    → any_set (map (λ p. g p || f p) pages) ≡ true
unfolding any_set
any_set-or [] f g h = h
any_set-or (page ∷ pages) f g h = ground (arith, h, any_set-or pages f g)

all_set-or :
    (pages : List Bytes) (f g : Bytes → Bool)
    → all_set (map f pages) ≡ true
    → all_set (map (λ p. g p || f p) pages) ≡ true
unfolding all_set
all_set-or [] f g h = h
all_set-or (page ∷ pages) f g h = ground (arith, h, all_set-or pages f g)

mark_none_found : (pages : List Bytes) (found : List Bool) → mark (none_set pages) found ≡ found
unfolding mark none_set
mark_none_found [] found = refl
mark_none_found (page ∷ pages) [] = refl
mark_none_found (page ∷ pages) (f ∷ found) = ap (λ t. f ∷ t) (mark_none_found pages found)

module _ (options : Options) where
  -- Whether a keyword matches a page, in its name or, for apropos, in its text.
  unfoldable pub matches : Bytes → Mandata → Bytes → Bool
  matches name info page =
      elim info.whatis [
        | none ↦ false
        | some whatis ↦ options.am_apropos && matches_whatis options whatis page
      ]
      || matches_name options name page

  combine-or :
      (pages : List Bytes) (f g : Bytes → Bool)
      → combine options (map f pages) ≡ true
      → combine options (map (λ p. g p || f p) pages) ≡ true
  unfolding combine
  combine-or pages f g h = ground (arith, h, any_set-or pages f g, all_set-or pages f g)

  shown_at :
      (pages : List Bytes) (name : Bytes) (f : Bytes → Bool) (whatis : Option Bytes)
      (info : Mandata)
      → info.whatis ≡ whatis
      → combine options (mark (whatis_hits options pages info (map f pages)) (map f pages))
        ≡ combine options (
            map
              (λ p.
                elim whatis [
                  | none ↦ false
                  | some w ↦ options.am_apropos && matches_whatis options w p
                ]
                || f p)
              pages)
  unfolding whatis_hits parse_whatis
  shown_at pages name f none info e = rw e (ap (combine options) (mark-none_set pages f))
  shown_at pages name f (some w) info e = elim (Bool-cases options.am_apropos) [
    | inr a ↦ ground (arith, e, a, mark-none_set pages f)
    | inl a ↦ elim (Bool-cases (combine options (map f pages))) [
      | inl c ↦
          ground
            (arith, e, a, c, mark-none_set pages f, combine-or pages f (matches_whatis options w) c)
      | inr c ↦ ground (arith, e, a, c, mark-map pages f (matches_whatis options w))
    ]
  ]

  -- A page is shown exactly when any of the keywords, or all of them if all are required, match it
  -- in its name or in its text, although the text is not looked at when the names are enough.
  pub apropos_page-shown :
      (pages : List Bytes) (name : Bytes) (info : Mandata) (s : Search options)
      → (apropos_page options pages name info s).shown ≡ (
          if combine options (map (matches name info) pages)
          then (name, info) ∷ s.shown
          else s.shown)
  unfolding apropos_page parse_name matches
  apropos_page-shown pages name info s =
      ground (arith, shown_at pages name (matches_name options name) info.whatis info refl)

  no_hits :
      (pages : List Bytes) (info : Mandata) (found_here : List Bool) (whatis : Option Bytes)
      → info.whatis ≡ whatis
      → combine options found_here ≡ true
      → whatis_hits options pages info found_here ≡ none_set pages
  unfolding whatis_hits
  no_hits pages info found_here none e c = ground (arith, e, c)
  no_hits pages info found_here (some w) e c = ground (arith, e, c)

  -- When the names are enough, no keyword is counted as found for what the page's text says.
  apropos_page_skips :
      (pages : List Bytes) (name : Bytes) (info : Mandata) (s : Search options)
      → combine options (map (matches_name options name) pages) ≡ true
      → (apropos_page options pages name info s).found
        ≡ mark (map (matches_name options name) pages) s.found
  unfolding apropos_page parse_name
  apropos_page_skips pages name info s c =
      let hits = map (matches_name options name) pages in
      ap (λ w. mark w (mark hits s.found)) (no_hits pages info hits info.whatis refl c)
      ∙ mark_none_found pages (mark hits s.found)
