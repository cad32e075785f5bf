-- ===== src/Whatis/Pointers.antt =====
-- resolve_pointers (src/whatis.c).
use mandb.Base.{
  ℕ, zero, suc, true, false, Option, none, some, [], Bytes, ◌≡◌, ◌⊎◌, inl, inr, refl, arith, get_or,
  Bool-cases, subst,
}
use mandb.Exit.{Outcome, done, fatal, M}
use mandb.Db.Record.{Mandata}
use mandb.Db.Backend.{Backend}
use mandb.Db.Lookup.{dblookup_exact}
use mandb.Whatis.{is_settled, resolve_rounds, resolve_pointers}

module _ (b : Backend) where
  open b use {Db}

  -- What is found points nowhere further.
  abbrev Settles : Bytes → Outcome Db (Option Mandata) → Type 0
  Settles page (done none d) = Unit {0}
  Settles page (done (some info) d) = is_settled info page ≡ true
  Settles page (fatal d) = Unit {0}

  Settles-bind :
      (page : Bytes) (o : Outcome Db (Option Mandata)) (k : Option Mandata → M Db (Option Mandata))
      → ((found : Option Mandata) (d : Db) → Settles page (k found d))
      → Settles page (elim o [ done found d ↦ k found d | fatal d ↦ fatal d ])
  Settles-bind page (done found d) k h = h found d
  Settles-bind page (fatal d) k h = tt

  rounds_settle :
      (rounds : ℕ) (newpage : Bytes) (found : Option Mandata) (d : Db)
      → Settles newpage (resolve_rounds b rounds newpage found d)
  unfolding resolve_rounds
  rounds_settle zero newpage none d = tt
  rounds_settle (suc rounds) newpage none d = tt
  rounds_settle zero newpage (some info) d = tt
  rounds_settle (suc rounds) newpage (some info) d = elim (Bool-cases (is_settled info newpage)) [
    | inl e ↦ rw e e
    | inr e ↦ rw e (
        Settles-bind newpage (dblookup_exact b (get_or [] info.pointer) (some info.ext) true d)
          (resolve_rounds b rounds newpage) (rounds_settle rounds newpage))
  ]

  -- When resolve_pointers finds an entry, it points nowhere further: it is the one that it is given,
  -- settled as the page itself, or else it is settled as the page that the given entry points to.
  resolve_pointers_settles :
      (info found : Mandata) (page : Bytes) (d d' : Db)
      → resolve_pointers b info page d ≡ done (some found) d'
      → ((found ≡ info) × (is_settled info page ≡ true))
        ⊎ (is_settled found (get_or [] info.pointer) ≡ true)
  unfolding resolve_pointers
  resolve_pointers_settles info found page d d' e = elim (Bool-cases (is_settled info page)) [
    | inl k ↦ inl (ground (arith, e, k), k)
    | inr k ↦
        let newpage = get_or [] info.pointer in
        let settled =
          Settles-bind newpage (dblookup_exact b newpage (some info.ext) true d)
            (resolve_rounds b 10 newpage) (rounds_settle 10 newpage) in
        inr (subst (Settles newpage) (rw k at e) settled)
  ]

  -- An entry that points to the page that it is itself, and is not the first that was pointed to, is
  -- not found, however many rounds there are.
  resolve_rounds_misses :
      (rounds : ℕ) (newpage x : Bytes) (info : Mandata) (d : Db)
      → info.pointer ≡ some x
      → is_settled info newpage ≡ false
      → dblookup_exact b x (some info.ext) true d ≡ done (some info) d
      → resolve_rounds b rounds newpage (some info) d ≡ done none d
  unfolding resolve_rounds
  resolve_rounds_misses zero newpage x info d p n l = refl
  resolve_rounds_misses (suc rounds) newpage x info d p n l =
      ground (arith, p, n, l, resolve_rounds_misses rounds newpage x info d p n l)
