-- ===== src/Db/Group/View.antt =====
-- The table in each situation of a key, and writes that are local to a key.
use mandb.Base.{
  ◌&&◌, none, some, ◌>>=◌, Bytes, ◌≡◌, ◌≢◌, refl, ap, ◌∙◌, sym, arith, if◌then◌else◌, get_or, Lacks,
}
use mandb.CString.{streq}
use mandb.CString.Compare.{streq_iff}
use mandb.Db.Record.{Mandata, tab, split_content}
use mandb.Db.Refs.{name_to_key, make_multi_key}
use mandb.Db.Refs.Keys.{name_to_key-Lacks, multi-ne-simple, make_multi_key_injective}
use mandb.Db.Store.{Situation, missing, several, single, situation}
use mandb.Db.Lookup.{named}
use mandb.Db.Group.{Contents, view, view_in, Belongs}

module _ (f : Contents) (key page ext : Bytes) (belongs : name_to_key page ≡ key) where
  pub view_missing : situation (f key) ≡ missing → view f page ext ≡ none
  unfolding view
  view_missing s = rw (belongs, s) refl

  pub view_single :
      (content : Bytes) (info : Mandata)
      → situation (f key) ≡ single content
      → split_content content ≡ some info
      → view f page ext ≡ (
          if streq (get_or key info.name) page && streq info.ext ext
          then some (named info page)
          else none)
  unfolding view
  view_single content info s p = rw (belongs, s, p) refl

  pub view_several :
      (content : Bytes)
      → situation (f key) ≡ several content
      → view f page ext
        ≡ (f (make_multi_key page ext) >>= λ c. split_content c >>= λ info. some (named info page))
  unfolding view
  view_several content s = rw (belongs, s) refl

  pub view_several_none :
      (content : Bytes)
      → situation (f key) ≡ several content
      → f (make_multi_key page ext) ≡ none
      → view f page ext ≡ none
  view_several_none content s absent = view_several content s ∙ rw absent refl

  pub view_several_some :
      (content c : Bytes) (info : Mandata)
      → situation (f key) ≡ several content
      → f (make_multi_key page ext) ≡ some c
      → split_content c ≡ some info
      → view f page ext ≡ some (named info page)
  view_several_some content c info s found parsed =
      view_several content s ∙ rw found (rw parsed refl)

-- A write to `key` and to keys of pages that belong to it changes nothing of other keys.
pub record IsLocal (f f' : Contents) (key : Bytes) : Type 0 where
  pub simple : (k : Bytes) → Lacks tab k → k ≢ key → f' k ≡ f k
  pub multi :
      (page ext : Bytes)
      → Lacks tab page
      → name_to_key page ≢ key
      → f' (make_multi_key page ext) ≡ f (make_multi_key page ext)

view_in_same :
    (f f' : Contents) (key page ext : Bytes)
    → f' (make_multi_key page ext) ≡ f (make_multi_key page ext)
    → (s : Situation) → view_in f' key s page ext ≡ view_in f key s page ext
view_in_same f f' key page ext e missing = refl
view_in_same f f' key page ext e (single content) = refl
view_in_same f f' key page ext e (several content) = rw e refl

pub view-IsLocal :
    {f f' : Contents} {key : Bytes} (page ext : Bytes)
    → IsLocal f f' key
    → Lacks tab page
    → name_to_key page ≢ key
    → view f' page ext ≡ view f page ext
unfolding view
view-IsLocal {f} {f'} page ext local l n =
    rw (local.simple (name_to_key page) (name_to_key-Lacks page l) n)
      (view_in_same f f' (name_to_key page) page ext (local.multi page ext l n) (situation _))

-- It is enough that all keys but these keep their contents.
pub IsLocal-of :
    (f f' : Contents) (key : Bytes)
    → Lacks tab key
    → ((j : Bytes)
        → j ≢ key
        → ((page ext : Bytes) → Belongs key page → make_multi_key page ext ≢ j)
        → f' j ≡ f j)
    → IsLocal f f' key
IsLocal-of f f' key l keeps = record {
  simple = λ k lk n. keeps k n λ page ext o e.
      ground (arith, multi-ne-simple k page ext lk, streq_iff (make_multi_key page ext) k);
  multi = λ page ext lp n.
      keeps (make_multi_key page ext)
        (λ e.
          ground (arith, multi-ne-simple key page ext l, streq_iff (make_multi_key page ext) key))
        (λ q e o h.
          n (sym (ap name_to_key (make_multi_key_injective q e page ext o.0 lp h).0) ∙ o.1));
}
