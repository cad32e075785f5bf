-- ===== src/Db/Record.antt =====
-- struct mandata (lib/filenames.h) and its text form in the index (libdb/db_lookup.c,
-- libdb/db_store.c).
pub mod RoundTrip
use mandb.Base.{
  ℕ, zero, suc, Option, none, some, ◌>>=◌, List, [], ◌∷◌, ◌++◌, Bytes, if◌then◌else◌, get_or,
}
use mandb.Base.Int.{ℤ}
use mandb.CString.{streq, strsep}
use mandb.CString.Long.{print_long, atol}

-- struct timespec
pub record Timespec : Type 0 where
  pub tv_sec : ℤ
  pub tv_nsec : ℤ

pub record Mandata : Type 0 where
  pub name : Option Bytes
  pub ext : Bytes
  pub sec : Bytes
  pub id : ℕ
  pub pointer : Option Bytes
  pub comp : Option Bytes
  pub filter : Option Bytes
  pub whatis : Option Bytes
  pub mtime : Timespec

abbrev pub tab : ℕ
tab = 9

abbrev pub dash : Bytes
dash = b'-' ∷ []

-- FIELDS
abbrev pub field_count : ℕ
field_count = 10

pub copy_if_set : Bytes → Option Bytes
copy_if_set s = if streq s dash then none else some s

abbrev pub dash_if_unset : Option Bytes → Bytes
dash_if_unset = get_or dash

-- The first byte, or the terminating NUL.
abbrev pub first_char : Bytes → ℕ
first_char [] = 0
first_char (c ∷ s) = c

-- The first `n` fields by strsep, then what is left; `none` is the fatal error.
unfoldable pub take_fields : ℕ → Option Bytes → Option (List Bytes)
take_fields zero content = content >>= λ s. some (s ∷ [])
take_fields (suc n) content =
    strsep tab content >>= λ (token, rest). take_fields n rest >>= λ fields. some (token ∷ fields)

unfoldable pub split_data : Bytes → Option (List Bytes)
unfolding take_fields
split_data content = take_fields 9 (some content)

pub of_fields : List Bytes → Option Mandata
of_fields (name ∷ ext ∷ sec ∷ sec_time ∷ nsec_time ∷ id ∷ pointer ∷ filter ∷ comp ∷ whatis ∷ []) =
    some (record {
      name = copy_if_set name;
      ext = ext;
      sec = sec;
      id = first_char id;
      pointer = some pointer;
      comp = some comp;
      filter = some filter;
      whatis = some whatis;
      mtime = record { tv_sec = atol sec_time; tv_nsec = atol nsec_time };
    })
of_fields _ = none

unfoldable pub split_content : Bytes → Option Mandata
unfolding split_data of_fields copy_if_set
split_content content = split_data content >>= of_fields

-- "%s\t%s\t…" over the fields.
abbrev pub tabbed : List Bytes → Bytes
tabbed [] = []
tabbed (x ∷ []) = x
tabbed (x ∷ y ∷ r) = x ++ (tab ∷ tabbed (y ∷ r))

-- The fields that make_content fills in where they are NULL.
abbrev pub set_defaults : Mandata → Mandata
set_defaults m = record m {
  pointer = some (dash_if_unset m.pointer);
  comp = some (dash_if_unset m.comp);
  filter = some (dash_if_unset m.filter);
  whatis = some (get_or [] m.whatis);
}

-- The fields from "%c" on: a type byte of NUL ends the string.
abbrev pub from_id : ℕ → List Bytes → List Bytes
from_id zero rest = [] ∷ []
from_id (suc c) rest = (suc c ∷ []) ∷ rest

abbrev pub fields_of : Mandata → List Bytes
fields_of m =
    dash_if_unset m.name
    ∷ m.ext
    ∷ m.sec
    ∷ print_long m.mtime.tv_sec
    ∷ print_long m.mtime.tv_nsec
    ∷ from_id m.id (
        dash_if_unset m.pointer
        ∷ dash_if_unset m.filter
        ∷ dash_if_unset m.comp
        ∷ get_or [] m.whatis
        ∷ [])

-- The changed argument, and the content.
unfoldable pub make_content : Mandata → Mandata × Bytes
make_content m = let m' = set_defaults m in (m', tabbed (fields_of m'))
