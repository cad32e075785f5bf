-- ===== src/Mandirs/Multi.antt =====
-- check_multi_key (src/check_mandirs.c) on the references that dbstore writes.
use mandb.Base.{
  ℕ, zero, suc, true, false, some, List, [], ◌∷◌, ◌++◌, Bytes, ◌≡◌, refl, sym, ap, subst, ◌∙◌,
  arith, Lacks, All, length, map, take, append-nil,
}
use mandb.CString.{tolower, before, behind}
use mandb.CString.Compare.{streq_iff}
use mandb.CString.Search.{before-append, behind-append, behind-Lacks_eq, before-Lacks_eq}
use mandb.Db.Record.{tab}
use mandb.Db.Refs.{NameExt, name_to_key, make_extensions_reference}
use mandb.Db.Refs.Keys.{name_to_key_idem, name_to_key-Lacks}
use mandb.Db.Refs.Parse.{LacksTab, body}
use mandb.Db.Group.{Contents, Belongs, IsSeveral}
use mandb.Mandirs.{same_prefix, next_walk, check_refs, check_multi_key}

length-name_to_key : (name : Bytes) → length (name_to_key name) ≡ length name
unfolding name_to_key
length-name_to_key [] = refl
length-name_to_key (c ∷ s) = ap suc (length-name_to_key s)

take_all : (s : Bytes) → take (length s) s ≡ s
take_all [] = refl
take_all (c ∷ s) = ap (λ t. c ∷ t) (take_all s)

take_left : (a b : Bytes) → take (length a) (a ++ b) ≡ a
take_left [] b = refl
take_left (c ∷ a) b = ap (λ t. c ∷ t) (take_left a b)

same_prefix-name_to_key :
    (name rest : Bytes) → same_prefix (length name) (name_to_key name) (name ++ rest) ≡ true
unfolding same_prefix
same_prefix-name_to_key name rest =
    let key : take (length name) (name_to_key name) ≡ name_to_key name =
      subst (λ n. take n (name_to_key name) ≡ name_to_key name) (length-name_to_key name)
        (take_all (name_to_key name)) in
    let idem : map tolower (name_to_key name) ≡ map tolower name =
      unfold name_to_key in name_to_key_idem name in
    (streq_iff (map tolower (take (length name) (name_to_key name)))
        (map tolower (take (length name) (name ++ rest)))).1
      (ap (map tolower) key ∙ idem ∙ sym (ap (map tolower) (take_left name rest)))

-- The tab that precedes the next reference is found behind an extension.
next_ref :
    (ext : Bytes) (refs : List NameExt)
    → Lacks tab ext
    → next_walk (behind tab (ext ++ make_extensions_reference refs))
      ≡ make_extensions_reference refs
unfolding make_extensions_reference next_walk
next_ref ext [] l = rw (append-nil ext, behind-Lacks_eq tab ext l) refl
next_ref ext (r ∷ refs) l =
    rw (behind-append tab ext (r.name ++ (tab ∷ (r.ext ++ make_extensions_reference refs))) l) refl

check_refs_step :
    (f c : ℕ) (name walk rest : Bytes)
    → behind tab walk ≡ some rest
    → same_prefix (length (before tab walk)) name walk ≡ true
    → check_refs (suc f) name (c ∷ walk) ≡ check_refs f name (next_walk (behind tab rest))
unfolding check_refs
check_refs_step f c name walk rest e p = ground (arith, e, p)

refs_pass :
    (f : ℕ) (key : Bytes) (refs : List NameExt)
    → All LacksTab refs
    → All (λ r. Belongs key r.name) refs
    → check_refs f key (make_extensions_reference refs) ≡ false
unfolding make_extensions_reference
refs_pass zero key refs l o = unfold check_refs in refl
refs_pass (suc f) key [] l o = unfold check_refs in refl
refs_pass (suc f) key (r ∷ refs) (l, ls) (o, os) =
    let rest = r.ext ++ make_extensions_reference refs in
    let walk = r.name ++ (tab ∷ rest) in
    let prefix : same_prefix (length (before tab walk)) key walk ≡ true =
      rw (before-append tab r.name rest l.0) (
        subst (λ k. same_prefix (length r.name) k walk ≡ true) o.1
          (same_prefix-name_to_key r.name (tab ∷ rest))) in
    check_refs_step f tab key walk rest (behind-append tab r.name rest l.0) prefix
    ∙ rw (next_ref r.ext refs l.1) (refs_pass f key refs ls os)

-- The text of a key with several consistent entries makes check_multi_key force no rescan.
pub check_multi_key_accepts :
    (f : Contents) (page content : Bytes)
    → Lacks tab page
    → IsSeveral f (name_to_key page) content
    → check_multi_key (before tab (name_to_key page)) (tab ∷ content) ≡ false
unfolding check_multi_key
check_multi_key_accepts f page content l g =
    let key = name_to_key page in
    rw (g.reads, before-Lacks_eq tab key (name_to_key-Lacks page l))
      (unfold make_extensions_reference in
        refs_pass (suc (length (body g.head g.refs))) key (g.head ∷ g.refs) g.lacks g.belongs)
