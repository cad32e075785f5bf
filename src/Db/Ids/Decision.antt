-- ===== src/Db/Ids/Decision.antt =====
-- The decision between two entries: order laws, and what can replace what.
use mandb.Base.{
  ℕ, Bool, true, false, Option, none, some, ◌≡◌, ◌≢◌, ◌⊎◌, refl, arith, Ordering, Bytes, get_or, [],
}
use mandb.Base.Int.{ℤ, pos, negsuc, compare_ℤ}
use mandb.CString.{or_else, streq}
use mandb.CString.Compare.{flip, strcmp-flip}
use mandb.Db.Record.{Timespec, Mandata, dash_if_unset}
use mandb.Db.Ids.{
  ult_man, so_man, compare_ids, replace_action, replace_yes, replace_no, replace_fail, TimeCmp,
  ComparesTimes, pointer_cmp,
}

-- Swapping the two types turns the result of compare_ids round, with links promoted or not.
compare_ids-flip : (a b : ℕ) (p : Bool) → compare_ids b a p ≡ flip (compare_ids a b p)
unfolding compare_ids
compare_ids-flip a b p = ground arith

-- The comparison of types by compare_ids is transitive, with links promoted or not.
compare_ids_trans :
    (a b c : ℕ) (p : Bool)
    → compare_ids a b p ≢ Ordering.gt
    → compare_ids b c p ≢ Ordering.gt
    → compare_ids a c p ≢ Ordering.gt
unfolding compare_ids
compare_ids_trans a b c true h k = ground arith
compare_ids_trans a b c false h k = ground arith

time_flip : (cmp : TimeCmp) → ComparesTimes cmp → (a b : Timespec) → cmp b a ≡ flip (cmp a b)
time_flip cmp law a b = time_flip_at a.tv_sec b.tv_sec a.tv_nsec b.tv_nsec (law a b) (law b a)
  where
    compare_ℤ_flip : (x y : ℤ) → compare_ℤ y x ≡ flip (compare_ℤ x y)
    compare_ℤ_flip (pos x) (pos y) = ground arith
    compare_ℤ_flip (pos x) (negsuc y) = ground arith
    compare_ℤ_flip (negsuc x) (pos y) = ground arith
    compare_ℤ_flip (negsuc x) (negsuc y) = ground arith

    time_flip_at :
        (x y u v : ℤ)
        → cmp a b ≡ or_else (compare_ℤ x y) (compare_ℤ u v)
        → cmp b a ≡ or_else (compare_ℤ y x) (compare_ℤ v u)
        → cmp b a ≡ flip (cmp a b)
    time_flip_at x y u v h k = ground (arith, compare_ℤ_flip x y, compare_ℤ_flip u v, h, k)

pointer_cmp-flip : (a b : Option Bytes) → pointer_cmp b a ≡ flip (pointer_cmp a b)
pointer_cmp-flip none none = refl
pointer_cmp-flip none (some b) = refl
pointer_cmp-flip (some a) none = refl
pointer_cmp-flip (some a) (some b) = strcmp-flip a b

module _ (timespec_cmp : TimeCmp) (new old : Mandata) where
  -- An entry of a weaker type never replaces one of a stronger type: a whatis reference leaves a
  -- page or a link to one alone, whatever their times, pointers and compression.
  replace_action-weaker :
      compare_ids new.id old.id true ≡ Ordering.gt
      → replace_action timespec_cmp new old ≡ replace_no
  unfolding replace_action
  replace_action-weaker h = ground arith

  -- Where the replacement fails, the two entries have the same type and time and pointers that do
  -- not compare as different, and other compression.
  replace_action-eq_fail :
      replace_action timespec_cmp new old ≡ replace_fail
      → (new.id ≡ old.id)
        × (timespec_cmp new.mtime old.mtime ≡ Ordering.eq)
        × (pointer_cmp new.pointer old.pointer ≡ Ordering.eq)
        × (streq (dash_if_unset new.comp) (get_or [] old.comp) ≡ false)
  unfolding replace_action
  replace_action-eq_fail h = ground arith

  -- Where times are compared by seconds and then nanoseconds, two entries that would each replace
  -- the other are a page and a link to one, of which the link is the newer.
  replace_action_both :
      ComparesTimes timespec_cmp
      → replace_action timespec_cmp new old ≡ replace_yes
      → replace_action timespec_cmp old new ≡ replace_yes
      → ((new.id ≡ ult_man) × (old.id ≡ so_man) × (timespec_cmp new.mtime old.mtime ≡ Ordering.lt))
        ⊎ ((new.id ≡ so_man)
            × (old.id ≡ ult_man)
            × (timespec_cmp new.mtime old.mtime ≡ Ordering.gt))
  unfolding replace_action
  replace_action_both law h k = ground (
    arith,
    time_flip timespec_cmp law new.mtime old.mtime,
    pointer_cmp-flip new.pointer old.pointer,
  )
