-- ===== src/Db/Group/Whole.antt =====
-- A database all of whose keys hold consistent entries, and one that has lost some.
use mandb.Base.{
  none, some, Bytes, ◌≡◌, ◌≢◌, ◌⊎◌, inl, inr, refl, sym, ap, subst, ◌∙◌, arith, Lacks, is_some,
  Bool-cases,
}
use mandb.CString.{streq}
use mandb.CString.Compare.{streq_iff}
use mandb.Db.Record.{tab}
use mandb.Db.Refs.{name_to_key}
use mandb.Db.Refs.Keys.{name_to_key-Lacks}
use mandb.Db.Version.{ver_key, ver_id}
use mandb.Db.Store.{Situation, missing, several, single, situation}
use mandb.Db.Group.{Contents, view, Group, IsGroup, Parses}
use mandb.Db.Group.View.{IsLocal, view-IsLocal}
use mandb.Db.Group.Deleted.{Deleted}

-- A page's name: it has no tab, and its key is not that of the version record.
pub record IsPage (page : Bytes) : Type 0 where
  pub tab_free : Lacks tab page
  pub other : name_to_key page ≢ ver_key

-- A database of the program: it has the version record that dbver_wr writes, and the entries under
-- the key of every page are consistent.
pub record IsDb (f : Contents) : Type 0 where
  pub version : f ver_key ≡ some ver_id
  pub groups : (page : Bytes) → IsPage page → IsGroup f (name_to_key page)

pub ver_key-Lacks : Lacks tab ver_key
ver_key-Lacks = omega arith

-- What the second table holds of a page is what the first held, or nothing.
abbrev pub Shrinks : Contents → Contents → Type 0
Shrinks f f' =
    (page ext : Bytes)
    → Lacks tab page
    → (view f' page ext ≡ none) ⊎ (view f' page ext ≡ view f page ext)

pub Shrinks-refl : (f : Contents) → Shrinks f f
Shrinks-refl f page ext l = inr refl

pub Shrinks-trans : (f g h : Contents) → Shrinks f g → Shrinks g h → Shrinks f h
Shrinks-trans f g h s t page ext l = elim (t page ext l) [
  | inl e ↦ inl e
  | inr e ↦ elim (s page ext l) [ inl k ↦ inl (e ∙ k) | inr k ↦ inr (e ∙ k) ]
]

Group-in :
    (f f' : Contents) (key other : Bytes)
    → IsLocal f f' other
    → key ≢ other
    → (s : Situation) → Group f key s
    → Group f' key s
Group-in f f' key other local n missing g =
    λ page ext o. local.multi page ext o.0 (λ e. n (sym o.1 ∙ e)) ∙ g page ext o
Group-in f f' key other local n (single content) (g, k) =
    (g, λ page ext o. local.multi page ext o.0 (λ e. n (sym o.1 ∙ e)) ∙ k page ext o)
Group-in f f' key other local n (several content) g = record {
  head = g.head;
  refs = g.refs;
  reads = g.reads;
  strict = g.strict;
  lacks = g.lacks;
  belongs = g.belongs;
  listed = λ page ext o.
      ap is_some (local.multi page ext o.0 (λ e. n (sym o.1 ∙ e))) ∙ g.listed page ext o;
  parses = λ page ext o.
      subst Parses (sym (local.multi page ext o.0 (λ e. n (sym o.1 ∙ e)))) (g.parses page ext o);
}

-- The key of a page without a tab in its name, beside another such key.
pub IsGroup-IsLocal :
    (f f' : Contents) (page other : Bytes)
    → IsLocal f f' other
    → Lacks tab page
    → name_to_key page ≢ other
    → IsGroup f (name_to_key page)
    → IsGroup f' (name_to_key page)
IsGroup-IsLocal f f' page other local l n g =
    let key = name_to_key page in
    subst (λ o. Group f' key (situation o)) (sym (local.simple key (name_to_key-Lacks page l) n))
      (Group-in f f' key other local n (situation (f key)) g)

-- A write that is local to a key and keeps its entries consistent keeps the database consistent.
pub IsDb-IsLocal :
    (f f' : Contents) (name : Bytes)
    → IsGroup f' (name_to_key name)
    → IsLocal f f' (name_to_key name)
    → name_to_key name ≢ ver_key
    → IsDb f
    → IsDb f'
IsDb-IsLocal f f' name group local n h = record {
  version = local.simple ver_key ver_key-Lacks (λ e. n (sym e)) ∙ h.version;
  groups = λ page p. elim (Bool-cases (streq (name_to_key page) (name_to_key name))) [
    | inl e ↦ subst (IsGroup f') (sym ((streq_iff (name_to_key page) (name_to_key name)).0 e)) group
    | inr e ↦
        IsGroup-IsLocal f f' page (name_to_key name) local p.tab_free
          (λ k. ground (arith, streq_iff (name_to_key page) (name_to_key name))) (h.groups page p)
  ];
}

beside-Shrinks :
    (f f' : Contents) (name ext page e : Bytes)
    → Deleted f f' name ext
    → Lacks tab page
    → name_to_key page ≡ name_to_key name
    → (view f' page e ≡ none) ⊎ (view f' page e ≡ view f page e)
beside-Shrinks f f' name ext page e d l k = elim (Bool-cases (streq page name)) [
  | inr a ↦
      inr (d.beside page e (l, k) (λ q. ground (arith, streq_iff page name, ap (λ r. r.name) q)))
  | inl a ↦ elim (Bool-cases (streq e ext)) [
    | inr c ↦ inr (d.beside page e (l, k) (λ q. ground (arith, streq_iff e ext, ap (λ r. r.ext) q)))
    | inl c ↦ inl (rw ((streq_iff page name).0 a, (streq_iff e ext).0 c) d.here)
  ]
]

pub Deleted-Shrinks : (f f' : Contents) (name ext : Bytes) → Deleted f f' name ext → Shrinks f f'
Deleted-Shrinks f f' name ext d page e l =
    elim (Bool-cases (streq (name_to_key page) (name_to_key name))) [
      | inl k ↦
          beside-Shrinks f f' name ext page e d l
            ((streq_iff (name_to_key page) (name_to_key name)).0 k)
      | inr k ↦ inr (
          view-IsLocal page e d.local l
            (λ q. ground (arith, streq_iff (name_to_key page) (name_to_key name))))
    ]
