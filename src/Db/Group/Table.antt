-- ===== src/Db/Group/Table.antt =====
-- The table after dbstore (libdb/db_store.c): the predicate on the contents before and after.
use mathlib.Core.Path.{fun_ext}
use mandb.Base.{subst, refl, sym, Option, none, some, Bytes, ◌≡◌, ◌≢◌}
use mandb.Db.Record.{Mandata, set_defaults}
use mandb.Db.Refs.{name_to_key}
use mandb.Db.Ids.{TimeCmp, ReplaceAction, replace_yes, replace_no, replace_fail, replace_action}
use mandb.Db.Store.{unnamed}
use mandb.Db.Lookup.{named}
use mandb.Db.Group.{Contents, view, Belongs, IsGroup, ref}
use mandb.Db.Group.View.{IsLocal}

-- The entry that is stored for `m` under the name `base`.
abbrev pub entry : Mandata → Bytes → Mandata
entry m base = named (set_defaults (unnamed m)) base

abbrev pub chosen : ReplaceAction → Mandata → Mandata → Mandata
chosen replace_yes new old = new
chosen replace_no new old = old
chosen replace_fail new old = old

-- The new entry, unless an old one stays.
abbrev pub winner : TimeCmp → Mandata → Option Mandata → Mandata
winner cmp new none = new
winner cmp new (some old) = chosen (replace_action cmp new old) new old

-- The table has the entry `w` for the page, and is as it was elsewhere; the entries under the key
-- are consistent, and the other keys' untouched.
pub record Stored (f f' : Contents) (m : Mandata) (base : Bytes) (w : Mandata) : Type 0 where
  pub group : IsGroup f' (name_to_key base)
  pub here : view f' base m.ext ≡ some w
  pub beside :
      (page ext : Bytes)
      → Belongs (name_to_key base) page
      → ref page ext ≢ ref base m.ext
      → view f' page ext ≡ view f page ext
  pub local : IsLocal f f' (name_to_key base)

pub unchanged-Stored :
    (f f' : Contents) (m : Mandata) (base : Bytes) (w : Mandata)
    → ((j : Bytes) → f' j ≡ f j)
    → IsGroup f (name_to_key base)
    → view f base m.ext ≡ some w
    → Stored f f' m base w
unchanged-Stored f f' m base w same group here =
    subst (λ g. Stored f g m base w) (sym (fun_ext same))
      (record {
        group = group;
        here = here;
        beside = λ page ext o n. refl;
        local = record { simple = λ k l n. refl; multi = λ page ext l n. refl };
      })
