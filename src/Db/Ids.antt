-- ===== src/Db/Ids.antt =====
-- Which of two entries for one page stays: compare_ids and the decision of replace_if_necessary
-- (libdb/db_store.c). FAVOUR_STRAYCATS is not defined.
pub mod Decision
use mandb.Base.{
  ℕ, Bool, true, false, not, ◌&&◌, ◌||◌, Option, none, some, Bytes, ◌==◌, if◌then◌else◌, compare,
  Ordering, get_or, [], ◌≡◌,
}
use mandb.Base.Int.{compare_ℤ}
use mandb.CString.{streq, strcmp, or_else}
use mandb.Db.Record.{Timespec, Mandata, dash_if_unset}

abbrev pub ult_man : ℕ
ult_man = b'A'

abbrev pub so_man : ℕ
so_man = b'B'

abbrev pub whatis_man : ℕ
whatis_man = b'C'

abbrev pub stray_cat : ℕ
stray_cat = b'D'

abbrev pub whatis_cat : ℕ
whatis_cat = b'E'

unfoldable pub compare_ids : ℕ → ℕ → Bool → Ordering
compare_ids a b promote_links =
    if promote_links && ((a == ult_man && b == so_man) || (a == so_man && b == ult_man))
    then Ordering.eq
    else compare a b

pub data ReplaceAction : Type 0 where
  replace_yes replace_no replace_fail : ReplaceAction

abbrev pub is_lt : Ordering → Bool
is_lt Ordering.lt = true
is_lt Ordering.eq = false
is_lt Ordering.gt = false

abbrev pub is_gt : Ordering → Bool
is_gt Ordering.lt = false
is_gt Ordering.eq = false
is_gt Ordering.gt = true

-- The sign of timespec_cmp, which belongs to gnulib.
abbrev pub TimeCmp : Type 0
TimeCmp = Timespec → Timespec → Ordering

-- What its documentation says: seconds first, then nanoseconds.
abbrev pub ComparesTimes : TimeCmp → Type 0
ComparesTimes cmp =
    (a b : Timespec)
    → cmp a b ≡ or_else (compare_ℤ a.tv_sec b.tv_sec) (compare_ℤ a.tv_nsec b.tv_nsec)

-- a && b && strcmp (a, b), where a missing pointer makes the test fail.
abbrev pub pointer_cmp : Option Bytes → Option Bytes → Ordering
pointer_cmp (some a) (some b) = strcmp a b
pointer_cmp (some a) none = Ordering.eq
pointer_cmp none _ = Ordering.eq

unfoldable pub replace_action : TimeCmp → Mandata → Mandata → ReplaceAction
unfolding compare_ids
replace_action timespec_cmp new old =
    if is_lt (compare_ids new.id old.id false)
    then replace_yes
    else if not (is_gt (compare_ids new.id old.id true)) && is_gt (timespec_cmp new.mtime old.mtime)
    then replace_yes
    else if not (is_gt (compare_ids new.id old.id true)) && is_lt (timespec_cmp new.mtime old.mtime)
    then replace_no
    else if is_gt (compare_ids new.id old.id false)
    then replace_no
    else if is_lt (pointer_cmp new.pointer old.pointer)
    then replace_yes
    else if is_gt (pointer_cmp new.pointer old.pointer)
    then replace_no
    else if not (streq (dash_if_unset new.comp) (get_or [] old.comp))
    then replace_fail
    else replace_no
