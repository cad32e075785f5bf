-- ===== src/Db/Refs/Keys.antt =====
-- Laws of name_to_key and make_multi_key (libdb/db_lookup.c).
use mandb.Base.{false, [], ◌∷◌, ◌++◌, ◌≡◌, ◌≢◌, refl, arith, Bytes, Lacks, ap, sym, ◌∙◌}
use mandb.CString.{tolower, before, streq}
use mandb.CString.Compare.{streq-eq_false}
use mandb.CString.Search.{before-append, behind-append}
use mandb.Db.Record.{tab}
use mandb.Db.Refs.{make_multi_key, name_to_key}

pub name_to_key-Lacks : (name : Bytes) → Lacks tab name → Lacks tab (name_to_key name)
unfolding name_to_key tolower
name_to_key-Lacks [] h = tt
name_to_key-Lacks (c ∷ s) h = ground (arith, name_to_key-Lacks s)

pub name_to_key_idem : (name : Bytes) → name_to_key (name_to_key name) ≡ name_to_key name
unfolding name_to_key tolower
name_to_key_idem [] = refl
name_to_key_idem (c ∷ s) = ground (arith, name_to_key_idem s)

Lacks-not_multi : (key page ext : Bytes) → Lacks tab key → key ≢ page ++ (tab ∷ ext)
Lacks-not_multi [] [] ext h = ground arith
Lacks-not_multi [] (p ∷ page) ext h = ground arith
Lacks-not_multi (c ∷ key) [] ext h = ground arith
Lacks-not_multi (c ∷ key) (p ∷ page) ext h = ground (arith, Lacks-not_multi key page ext)

-- The key of a page is never that of one page of several.
pub simple-ne-multi :
    (key page ext : Bytes) → Lacks tab key → streq key (make_multi_key page ext) ≡ false
unfolding make_multi_key
simple-ne-multi key page ext h = streq-eq_false (Lacks-not_multi key page ext h)

pub multi-ne-simple :
    (key page ext : Bytes) → Lacks tab key → streq (make_multi_key page ext) key ≡ false
unfolding make_multi_key
multi-ne-simple key page ext h = streq-eq_false (λ e. Lacks-not_multi key page ext h (sym e))

pub make_multi_key_injective :
    (p e q f : Bytes)
    → Lacks tab p
    → Lacks tab q
    → make_multi_key p e ≡ make_multi_key q f
    → (p ≡ q) × (e ≡ f)
unfolding make_multi_key
make_multi_key_injective p e q f hp hq h = (
  sym (before-append tab p e hp) ∙ ap (before tab) h ∙ before-append tab q f hq,
  cc (behind-append tab p e hp, behind-append tab q f hq),
)
