-- ===== src/Db/Record/RoundTrip.antt =====
-- split_content (libdb/db_lookup.c) on what make_content (libdb/db_store.c) writes.
use mandb.Base.{
  ℕ, zero, suc, ◌≢◌, Option, none, some, List, [], ◌∷◌, Bytes, get_or, ◌≡◌, ◌∙◌, refl, arith, Lacks,
  length, ap,
}
use mandb.CString.Compare.{streq_refl, streq_iff}
use mandb.CString.Search.{strsep-append}
use mandb.CString.Long.{IsLong, print_long, atol-print_long, print_long-Lacks}
use mandb.Db.Record.{
  Mandata, tab, dash, copy_if_set, take_fields, from_id, dash_if_unset, split_content, of_fields,
  make_content, tabbed, fields_of, set_defaults,
}

abbrev AllButLast : List Bytes → Type 0
AllButLast [] = Unit {0}
AllButLast (x ∷ []) = Unit {0}
AllButLast (x ∷ y ∷ r) = Lacks tab x × AllButLast (y ∷ r)

take_fields-tabbed :
    (n : ℕ) (fields : List Bytes)
    → length fields ≡ suc n
    → AllButLast fields
    → take_fields n (some (tabbed fields)) ≡ some fields
unfolding take_fields
take_fields-tabbed n [] h l = absurd (omega arith)
take_fields-tabbed zero (x ∷ []) h l = refl
take_fields-tabbed (suc n) (x ∷ []) h l = absurd (omega arith)
take_fields-tabbed zero (x ∷ y ∷ r) h l = absurd (omega arith)
take_fields-tabbed (suc n) (x ∷ y ∷ r) h (l, ls) =
    rw (strsep-append tab x _ l, take_fields-tabbed n (y ∷ r) (omega arith) ls) refl

-- What the fields of a record must be for the index to keep it: no tab but in the whatis text, a
-- type byte that is not NUL, and no name that is written "-", which stands for no name.
pub record IsStorable (m : Mandata) : Type 0 where
  pub name_tab : Lacks tab (get_or [] m.name)
  pub name_dash : m.name ≢ some dash
  pub ext_tab : Lacks tab m.ext
  pub sec_tab : Lacks tab m.sec
  pub id_tab : m.id ≢ tab
  pub id_nul : m.id ≢ 0
  pub pointer_tab : Lacks tab (get_or [] m.pointer)
  pub filter_tab : Lacks tab (get_or [] m.filter)
  pub comp_tab : Lacks tab (get_or [] m.comp)
  pub sec_long : IsLong m.mtime.tv_sec
  pub nsec_long : IsLong m.mtime.tv_nsec

pub or_dash-Lacks : (o : Option Bytes) → Lacks tab (get_or [] o) → Lacks tab (get_or dash o)
or_dash-Lacks none h = omega arith
or_dash-Lacks (some s) h = h

copy_if_set_lem : (o : Option Bytes) → o ≢ some dash → copy_if_set (get_or dash o) ≡ o
unfolding copy_if_set
copy_if_set_lem none h = ground (arith, streq_refl dash)
copy_if_set_lem (some s) h = ground (arith, streq_iff s dash)

-- The ten fields of a record whose type byte is not NUL.
abbrev ten_fields : Mandata → List Bytes
ten_fields m =
    dash_if_unset m.name
    ∷ m.ext
    ∷ m.sec
    ∷ print_long m.mtime.tv_sec
    ∷ print_long m.mtime.tv_nsec
    ∷ (m.id ∷ [])
    ∷ dash_if_unset m.pointer
    ∷ dash_if_unset m.filter
    ∷ dash_if_unset m.comp
    ∷ get_or [] m.whatis
    ∷ []

from_id_lem : (c : ℕ) (rest : List Bytes) → c ≢ 0 → from_id c rest ≡ (c ∷ []) ∷ rest
from_id_lem zero rest n = absurd (n refl)
from_id_lem (suc c) rest n = refl

fields_of_lem : (m : Mandata) → m.id ≢ 0 → fields_of m ≡ ten_fields m
fields_of_lem m n =
    ap
      (λ fields.
        dash_if_unset m.name
        ∷ m.ext
        ∷ m.sec
        ∷ print_long m.mtime.tv_sec
        ∷ print_long m.mtime.tv_nsec
        ∷ fields)
      (from_id_lem m.id _ n)

of_fields-fields_of :
    (m : Mandata) → IsStorable m → of_fields (ten_fields (set_defaults m)) ≡ some (set_defaults m)
unfolding of_fields
of_fields-fields_of m v = rw (
  copy_if_set_lem m.name v.name_dash,
  atol-print_long m.mtime.tv_sec v.sec_long,
  atol-print_long m.mtime.tv_nsec v.nsec_long,
)

fields_of-AllButLast : (m : Mandata) → IsStorable m → AllButLast (ten_fields (set_defaults m))
fields_of-AllButLast m v = (
  or_dash-Lacks m.name v.name_tab,
  (
    v.ext_tab,
    (
      v.sec_tab,
      (
        print_long-Lacks m.mtime.tv_sec,
        (
          print_long-Lacks m.mtime.tv_nsec,
          (
            (v.id_tab, tt),
            (
              or_dash-Lacks m.pointer v.pointer_tab,
              (or_dash-Lacks m.filter v.filter_tab, (or_dash-Lacks m.comp v.comp_tab, tt)),
            ),
          ),
        ),
      ),
    ),
  ),
)

-- Reading a storable record's content gives the record back, with a dash for each of pointer,
-- filter and comp that was NULL, and an empty whatis for a NULL one.
pub split_content-make_content :
    (m : Mandata) → IsStorable m → split_content (make_content m).1 ≡ some (set_defaults m)
unfolding split_content make_content
split_content-make_content m v =
    ap (λ fields. split_content (tabbed fields)) (fields_of_lem (set_defaults m) v.id_nul)
    ∙ rw (take_fields-tabbed 9 (ten_fields (set_defaults m)) refl (fields_of-AllButLast m v))
        (of_fields-fields_of m v)
