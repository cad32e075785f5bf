-- ===== src/Db/Group/Listed.antt =====
-- A key whose references dbstore has written.
use mandb.Base.{
  Bool, true, false, ◌||◌, Option, some, List, ◌∷◌, Bytes, ◌≡◌, refl, sym, ap, subst, ◌∙◌,
  if◌then◌else◌, All, is_some, ◌>>=◌,
}
use mandb.Db.Record.{Mandata, split_content}
use mandb.Db.Refs.{NameExt, name_ext_equals, make_multi_key, make_extensions_reference}
use mandb.Db.Refs.Order.{insert}
use mandb.Db.Refs.Insert.{contains, insert_cons, All-insert, insert-IsStrict, contains-insert}
use mandb.Db.Refs.Parse.{IsStrict, LacksTab, NoneEqual, body}
use mandb.Db.Store.{several, situation}
use mandb.Db.Lookup.{named}
use mandb.Db.Group.{Contents, Belongs, IsSeveral, Parses, ref}

-- What a key of its own says of a page.
abbrev pub pick : Option Bytes → Bytes → Option Mandata
pick content page = content >>= λ c. split_content c >>= λ info. some (named info page)

pub Parses-if : (b : Bool) (x y : Option Bytes) → Parses x → Parses y → Parses (if b then x else y)
Parses-if true x y p q = p
Parses-if false x y p q = q

module _ (f : Contents) (key : Bytes) where
  from_list :
      (xs : List NameExt) (y : NameExt) (ys : List NameExt)
      → xs ≡ y ∷ ys
      → f key ≡ some (make_extensions_reference xs)
      → IsStrict xs
      → All LacksTab xs
      → All (λ r. Belongs key r.name) xs
      → ((page ext : Bytes)
          → Belongs key page
          → is_some (f (make_multi_key page ext)) ≡ contains xs (ref page ext))
      → ((page ext : Bytes) → Belongs key page → Parses (f (make_multi_key page ext)))
      → (situation (f key) ≡ several (body y ys)) × IsSeveral f key (body y ys)
  unfolding situation make_extensions_reference
  from_list xs y ys e at_key strict lacks belongs listed parses = (
    rw (at_key, e) refl,
    record {
      head = y;
      refs = ys;
      reads = refl;
      strict = subst IsStrict e strict;
      lacks = subst (All LacksTab) e lacks;
      belongs = subst (All (λ r. Belongs key r.name)) e belongs;
      listed = λ page ext o. listed page ext o ∙ ap (λ zs. contains zs (ref page ext)) e;
      parses = parses;
    },
  )

  -- One reference is added to those that are there.
  pub listed-IsSeveral :
      (x : NameExt) (xs : List NameExt)
      → f key ≡ some (make_extensions_reference (insert x xs))
      → NoneEqual x xs
      → IsStrict xs
      → All LacksTab (x ∷ xs)
      → All (λ r. Belongs key r.name) (x ∷ xs)
      → ((page ext : Bytes)
          → Belongs key page
          → is_some (f (make_multi_key page ext))
            ≡ (name_ext_equals x (ref page ext) || contains xs (ref page ext)))
      → ((page ext : Bytes) → Belongs key page → Parses (f (make_multi_key page ext)))
      → (c : Bytes) × (situation (f key) ≡ several c) × IsSeveral f key c
  listed-IsSeveral x xs at_key new strict (lx, lacks) (bx, belongs) listed parses =
      let (y, ys, e) = insert_cons x xs in
      let (s, g) =
        from_list (insert x xs) y ys e at_key (insert-IsStrict x xs strict new)
          (All-insert LacksTab x xs lx lacks) (All-insert (λ r. Belongs key r.name) x xs bx belongs)
          (λ page ext o. listed page ext o ∙ sym (contains-insert x xs (ref page ext))) parses in
      (body y ys, s, g)
