-- ===== src/Db/Group/Content.antt =====
-- Facts of the contents that dbstore writes.
use mandb.Base.{Option, none, some, [], ◌∷◌, Bytes, ◌≡◌, ◌≢◌, refl, arith, get_or, Lacks}
use mandb.CString.{tolower}
use mandb.CString.Compare.{streq_iff}
use mandb.Db.Record.{Mandata, tab, dash, make_content}
use mandb.Db.Record.RoundTrip.{IsStorable}
use mandb.Db.Refs.{name_to_key}
use mandb.Db.Store.{with_name, unnamed, situation, single}

-- A content never looks like a list of references.
pub situation-make_content :
    (m : Mandata)
    → IsStorable m
    → m.name ≢ some []
    → situation (some (make_content m).1) ≡ single (make_content m).1
unfolding situation make_content
situation-make_content m v n = by_name m.name n v.name_tab
  where
    by_name :
        (o : Option Bytes)
        → o ≢ some []
        → Lacks tab (get_or [] o)
        → situation (some (make_content (record m { name = o })).1)
          ≡ single (make_content (record m { name = o })).1
    by_name none n l = refl
    by_name (some []) n l = absurd (n refl)
    by_name (some (c ∷ s)) n l = ground arith

name_to_key-dash : name_to_key dash ≡ dash
unfolding name_to_key tolower
name_to_key-dash = refl

pub with_name-IsStorable :
    (m : Mandata) (base : Bytes)
    → Lacks tab base
    → IsStorable (unnamed m)
    → IsStorable (with_name (unnamed m) base (name_to_key base))
unfolding with_name
with_name-IsStorable m base l v =
    ground (arith, streq_iff base (name_to_key base), streq_iff base dash, name_to_key-dash)

pub with_name-ne-nil :
    (m : Mandata) (base : Bytes)
    → base ≢ []
    → (with_name (unnamed m) base (name_to_key base)).name ≢ some []
unfolding with_name
with_name-ne-nil m base ne = ground arith

-- Read back, the name is the base's, stored or not.
pub with_name_lem :
    (m : Mandata) (base key : Bytes) → m.name ≡ none → get_or key (with_name m base key).name ≡ base
unfolding with_name
with_name_lem m base key h = ground (arith, streq_iff base key)

with_name-fields :
    (m : Mandata) (base key : Bytes)
    → (with_name m base key) ≡ record m { name = (with_name m base key).name }
unfolding with_name
with_name-fields m base key = ground arith
