-- ===== src/Db/Group.antt =====
-- The entries that share a key (libdb/db_store.c, the comment above dbstore): when they are
-- consistent, and the table of pages that they stand for.
pub mod Content
pub mod View
pub mod Table
pub mod Written
pub mod Listed
pub mod Store
pub mod Lookup
pub mod Deleted
pub mod Delete
pub mod Dangling
pub mod Whole
pub mod Remaining
use mandb.Base.{
  ℕ, Bool, true, false, ◌&&◌, ◌||◌, Option, none, some, ◌>>=◌, List, [], ◌∷◌, Bytes, ◌≡◌,
  if◌then◌else◌, is_some, get_or, All, Lacks,
}
use mandb.CString.{streq}
use mandb.Db.Record.{Mandata, tab, split_content, set_defaults}
use mandb.Db.Record.RoundTrip.{IsStorable}
use mandb.Db.Refs.{NameExt, name_ext_equals, name_to_key, make_multi_key}
use mandb.Db.Refs.Insert.{contains}
use mandb.Db.Refs.Parse.{IsStrict, LacksTab, body}
use mandb.Db.Store.{unnamed, Situation, missing, several, single, situation}
use mandb.Db.Lookup.{named}

-- What a file holds, as a function of the key.
abbrev pub Contents : Type 0
Contents = Bytes → Option Bytes

abbrev pub ref : Bytes → Bytes → NameExt
ref name ext = record { name = name; ext = ext }

-- A page that belongs to the key.
abbrev pub Belongs : Bytes → Bytes → Type 0
Belongs key page = Lacks tab page × (name_to_key page ≡ key)

abbrev pub Parses : Option Bytes → Type 0
Parses none = Unit {0}
Parses (some content) = (info : Mandata) × (split_content content ≡ some info)

-- No page of the key has a key of its own.
abbrev pub NoMulti : Contents → Bytes → Type 0
NoMulti f key = (page ext : Bytes) → Belongs key page → f (make_multi_key page ext) ≡ none

-- The one entry of a key belongs to it, can be stored again, and has no field that is NULL.
pub record IsSingle (key content : Bytes) : Type 0 where
  pub info : Mandata
  pub parses : split_content content ≡ some info
  pub belongs : Belongs key (get_or key info.name)
  pub storable : IsStorable (unnamed info)
  pub complete : set_defaults info ≡ info

-- The references are in order and belong to the key, and name exactly the pages that are there.
pub record IsSeveral (f : Contents) (key content : Bytes) : Type 0 where
  pub head : NameExt
  pub refs : List NameExt
  pub reads : content ≡ body head refs
  pub strict : IsStrict (head ∷ refs)
  pub lacks : All LacksTab (head ∷ refs)
  pub belongs : All (λ r. Belongs key r.name) (head ∷ refs)
  pub listed :
      (page ext : Bytes)
      → Belongs key page
      → is_some (f (make_multi_key page ext)) ≡ contains (head ∷ refs) (ref page ext)
  pub parses : (page ext : Bytes) → Belongs key page → Parses (f (make_multi_key page ext))

abbrev pub Group : Contents → Bytes → Situation → Type 0
Group f key missing = NoMulti f key
Group f key (single content) = IsSingle key content × NoMulti f key
Group f key (several content) = IsSeveral f key content

-- The entries under the key are consistent.
abbrev pub IsGroup : Contents → Bytes → Type 0
IsGroup f key = Group f key (situation (f key))

abbrev view_in : Contents → Bytes → Situation → Bytes → Bytes → Option Mandata
view_in f key missing page ext = none
view_in f key (single content) page ext = split_content content >>= λ info.
    if streq (get_or key info.name) page && streq info.ext ext then some (named info page) else none
view_in f key (several content) page ext =
    f (make_multi_key page ext) >>= λ c. split_content c >>= λ info. some (named info page)

-- The table: the entry of a page with an extension.
pub view : Contents → Bytes → Bytes → Option Mandata
view f page ext = let key = name_to_key page in view_in f key (situation (f key)) page ext
