-- ===== src/Mandirs/Purge.antt =====
-- purge_missing (src/check_mandirs.c) on a consistent database.
use mandb.Base.{
  ℕ, ◌+◌, true, false, Bool, Option, none, some, List, [], ◌∷◌, Bytes, ◌≡◌, ◌≢◌, ◌⊎◌, inl, inr,
  refl, sym, ap, ◌∙◌, subst, arith, if◌then◌else◌, Lacks, All, Bool-cases,
}
use mandb.CString.{before}
use mandb.CString.Search.{before-Lacks_eq, before-append}
use mandb.Exit.{Outcome, done, M, ◌>>=◌, ◌>>◌}
use mandb.Db.Record.{Mandata, Timespec, tab}
use mandb.Db.Refs.{name_to_key, make_multi_key}
use mandb.Db.Backend.{Backend, IsLawful}
use mandb.Db.Store.{Situation, missing, several, single, situation}
use mandb.Db.Delete.{dbdelete}
use mandb.Db.Group.{Contents, Group, Parses}
use mandb.Db.Version.{ver_key}
use mandb.Db.Group.Whole.{IsDb, IsPage, Shrinks, Shrinks-refl, Shrinks-trans}
use mandb.Db.Group.Remaining.{after, dbdelete-IsDb, dbdelete-Entries}
use mandb.Mandirs.{
  Files, State, delete_entry, set_rescan, purge_normal, purge_whatis, purge_entry, split_or_fatal,
  purge_at, is_identifier, purge_key, purge_keys, check_multi_key, purge_missing,
}
use mandb.Mandirs.Multi.{check_multi_key_accepts}

-- The key of a page, or that of one page of several.
abbrev pub IsEntryKey : Bytes → Type 0
IsEntryKey key =
    (IsPage key × (name_to_key key ≡ key))
    ⊎ ((page : Bytes) × (ext : Bytes) × IsPage page × (key ≡ make_multi_key page ext))

-- A key that the walk over a database gives.
abbrev pub IsKey : Bytes → Type 0
IsKey key = (key ≡ ver_key) ⊎ IsEntryKey key

-- A consistent database in which no key of one page of several holds references.
pub record IsWhole (f : Contents) : Type 0 where
  pub groups : IsDb f
  pub entries :
      (page ext content : Bytes)
      → Lacks tab page
      → situation (f (make_multi_key page ext)) ≢ several content

none_missing : situation none ≡ missing
unfolding situation
none_missing = refl

entry_situation :
    (x y : Option Bytes) (content : Bytes)
    → (x ≡ none) ⊎ (x ≡ y)
    → situation y ≢ several content
    → situation x ≢ several content
entry_situation x y content (inl e) n h = ground (arith, e, h, none_missing)
entry_situation x y content (inr e) n h = n (subst (λ o. situation o ≡ several content) e h)

module _ (b : Backend) (law : IsLawful b) (files : Files) where
  open b use {Db, fetch}

  abbrev held : State b files → Contents
  held s k = fetch k s.db

  -- A run ends without a fatal error, keeps the database consistent, adds nothing to its table, and
  -- with opt_test leaves it as it is.
  abbrev pub IsSafe : {A : Type 0} → State b files → Outcome (State b files) A → Type 0
  IsSafe {A} s o =
      (a : A) × (s' : State b files) × (o ≡ done a s')
      × IsWhole (held s')
      × Shrinks (held s) (held s')
      × (files.opt_test ≡ true → s'.db ≡ s.db)

  abbrev pub Keeps : {A : Type 0} → M (State b files) A → Type 0
  Keeps {A} m = (s : State b files) → IsWhole (held s) → IsSafe {A = A} s (m s)

  Keeps-done : {A : Type 0} (a : A) → Keeps (λ s. done a s)
  Keeps-done a s w = (a, s, refl, w, Shrinks-refl (held s), (λ t. refl))

  Keeps-bind :
      {A B : Type 0} (m : M (State b files) A) (k : A → M (State b files) B)
      → Keeps m
      → ((a : A) → Keeps (k a))
      → Keeps (m >>= k)
  Keeps-bind m k h g s w =
      let (a, s1, e, w1, r1, k1) = h s w in
      let (c, s2, e2, w2, r2, k2) = g a s1 w1 in
      (
        c,
        s2,
        ground (arith, e, e2),
        w2,
        Shrinks-trans (held s) (held s1) (held s2) r1 r2,
        (λ t. k2 t ∙ k1 t),
      )

  Keeps-delete :
      (name : Bytes) (entry : Mandata) → IsPage name → Keeps (delete_entry b files name entry)
  unfolding delete_entry
  Keeps-delete name entry l s w = elim (Bool-cases (files.opt_test)) [
    | inl t ↦ (tt, s, ground (arith, t), w, Shrinks-refl (held s), (λ u. refl))
    | inr t ↦
        let (ret, d', e, g, r) = dbdelete-IsDb b law name entry s.db l w.groups in
        let reached : after b law (dbdelete b name entry s.db) ≡ d' = unfold after in rw e refl in
        (
          tt,
          record s { db = d' },
          ground (arith, t, e),
          record {
            groups = g;
            entries = λ page ext content lp.
                entry_situation (fetch (make_multi_key page ext) d')
                  (fetch (make_multi_key page ext) s.db) content
                  (subst
                    (λ d.
                      (fetch (make_multi_key page ext) d ≡ none)
                      ⊎ (fetch (make_multi_key page ext) d ≡ fetch (make_multi_key page ext) s.db))
                    reached (dbdelete-Entries b law name entry s.db l w.groups page ext))
                  (w.entries page ext content lp);
          },
          r,
          (λ u. ground (arith, t, u)),
        )
  ]

  Keeps-rescan : Keeps (set_rescan b files)
  unfolding set_rescan
  Keeps-rescan s w =
      (tt, record s { force_rescan = true }, refl, w, Shrinks-refl (held s), (λ t. refl))

  Keeps-if :
      {A : Type 0} (x : Bool) (m n : M (State b files) A)
      → Keeps m
      → Keeps n
      → Keeps (if x then m else n)
  Keeps-if true m n h g = h
  Keeps-if false m n h g = g

  Keeps-purge_normal :
      (name : Bytes) (entry : Mandata) (found : List Bytes)
      → IsPage name
      → Keeps (purge_normal b files name entry found)
  unfolding purge_normal
  Keeps-purge_normal name entry found l = Keeps-if _ _ _ (Keeps-done 0) (
      Keeps-bind (delete_entry b files name entry) _ (Keeps-delete name entry l)
        (λ u. Keeps-done 1))

  Keeps-drop :
      (name : Bytes) (entry : Mandata)
      → IsPage name
      → Keeps {A = ℕ} (delete_entry b files name entry >> λ s. done 1 s)
  Keeps-drop name entry l =
      Keeps-bind (delete_entry b files name entry) _ (Keeps-delete name entry l) (λ u. Keeps-done 1)

  Keeps-purge_whatis :
      (path : Bytes) (cat : Bool) (name : Bytes) (entry : Mandata) (found : List Bytes)
      (t : Timespec)
      → IsPage name
      → Keeps (purge_whatis b files path cat name entry found t)
  unfolding purge_whatis
  Keeps-purge_whatis path cat name entry found t l =
      Keeps-if _ _ _ (Keeps-bind (set_rescan b files) _ Keeps-rescan (λ u. Keeps-done 0)) (
        Keeps-if _ _ _
          (Keeps-bind (delete_entry b files name entry) _ (Keeps-delete name entry l)
            (λ u. Keeps-bind (set_rescan b files) _ Keeps-rescan (λ v. Keeps-done 1)))
          (Keeps-if _ _ _ (Keeps-done 0) (Keeps-drop name entry l)))

  Keeps-purge_entry :
      (manpath catpath : Bytes) (t : Timespec) (name : Bytes) (entry : Mandata)
      → IsPage name
      → Keeps (purge_entry b files manpath catpath t name entry)
  unfolding purge_entry
  Keeps-purge_entry manpath catpath t name entry l =
      Keeps-if _ _ _ (Keeps-purge_normal name entry _ l) (
        Keeps-if _ _ _ (Keeps-purge_whatis manpath false name entry _ t l)
          (Keeps-purge_whatis catpath true name entry _ t l))

  Parses-in :
      (f : Contents) (page ext : Bytes) (u : Situation)
      → Lacks tab page
      → Group f (name_to_key page) u
      → Parses (f (make_multi_key page ext))
  Parses-in f page ext missing l g = subst Parses (sym (g page ext (l, refl))) tt
  Parses-in f page ext (single content) l (g, k) = subst Parses (sym (k page ext (l, refl))) tt
  Parses-in f page ext (several content) l g = g.parses page ext (l, refl)

  single_fetch :
      (o : Option Bytes) (content : Bytes) → situation o ≡ single content → o ≡ some content
  unfolding situation
  single_fetch none content h = ground (arith, h)
  single_fetch (some []) content h = ground (arith, h)
  single_fetch (some (c ∷ s)) content h = ground (arith, h)

  -- The content under a key parses.
  key-Parses :
      (s : State b files) (key content : Bytes)
      → IsWhole (held s)
      → IsEntryKey key
      → situation (fetch key s.db) ≡ single content
      → Parses (some content)
  key-Parses s key content w (inl (l, e)) h =
      let at : Group (held s) key (situation (fetch key s.db)) =
        subst (λ j. Group (held s) j (situation (fetch j s.db))) e (w.groups.groups key l) in
      let g : Group (held s) key (single content) = subst (Group (held s) key) h at in
      (g.0.info, g.0.parses)
  key-Parses s key content w (inr (page, ext, l, e)) h =
      let at : fetch (make_multi_key page ext) s.db ≡ some content =
        subst (λ j. fetch j s.db ≡ some content) e (single_fetch (fetch key s.db) content h) in
      subst Parses at (Parses-in (held s) page ext _ l.tab_free (w.groups.groups page l))

  multi_passes :
      (s : State b files) (key refs : Bytes)
      → IsWhole (held s)
      → IsEntryKey key
      → situation (fetch key s.db) ≡ several refs
      → check_multi_key (before tab key) (tab ∷ refs) ≡ false
  multi_passes s key refs w (inl (l, e)) h =
      let at : Group (held s) (name_to_key key) (situation (fetch key s.db)) =
        subst (λ j. Group (held s) (name_to_key key) (situation (fetch j s.db))) e
          (w.groups.groups key l) in
      let g : Group (held s) (name_to_key key) (several refs) =
        subst (Group (held s) (name_to_key key)) h at in
      subst (λ j. check_multi_key (before tab j) (tab ∷ refs) ≡ false) e
        (check_multi_key_accepts (held s) key refs l.tab_free g)
  multi_passes s key refs w (inr (page, ext, l, e)) h = absurd (
      w.entries page ext refs l.tab_free (subst (λ j. situation (fetch j s.db) ≡ several refs) e h))

  -- The name that is cut off a key is that of a page.
  key-IsPage : (key : Bytes) → IsEntryKey key → IsPage (before tab key)
  unfolding make_multi_key
  key-IsPage key (inl (l, e)) = subst IsPage (sym (before-Lacks_eq tab key l.tab_free)) l
  key-IsPage key (inr (page, ext, l, e)) =
      subst IsPage (sym (ap (before tab) e ∙ before-append tab page ext l.tab_free)) l

  keeps_at :
      (manpath catpath : Bytes) (t : Timespec) (key : Bytes) (s : State b files) (u : Situation)
      → IsWhole (held s)
      → IsEntryKey key
      → situation (fetch key s.db) ≡ u
      → IsSafe s (purge_at b files manpath catpath t key u s)
  unfolding purge_at
  keeps_at manpath catpath t key s missing w k h = Keeps-done 0 s w
  keeps_at manpath catpath t key s (several refs) w k h =
      rw (multi_passes s key refs w k h) (Keeps-done 0 s w)
  keeps_at manpath catpath t key s (single content) w k h =
      let (entry, p) = key-Parses s key content w k h in
      let (n, s', e, w', r, kept) =
        Keeps-purge_entry manpath catpath t (before tab key) entry (key-IsPage key k) s w in
      (n, s', unfold split_or_fatal in ground (arith, p, e), w', r, kept)

  Keeps-key :
      (manpath catpath : Bytes) (t : Timespec) (key : Bytes)
      → IsKey key
      → Keeps (purge_key b files manpath catpath t key)
  unfolding purge_key
  Keeps-key manpath catpath t key (inl e) s w =
      rw (ap is_identifier e) (unfold is_identifier in Keeps-done 0 s w)
  Keeps-key manpath catpath t key (inr k) s w = elim (Bool-cases (is_identifier key)) [
    | inl i ↦ rw i (Keeps-done 0 s w)
    | inr i ↦ rw i (keeps_at manpath catpath t key s (situation (fetch key s.db)) w k refl)
  ]

  Keeps-keys :
      (manpath catpath : Bytes) (t : Timespec) (keys : List Bytes)
      → All IsKey keys
      → Keeps (purge_keys b files manpath catpath t keys)
  unfolding purge_keys
  Keeps-keys manpath catpath t [] k = Keeps-done 0
  Keeps-keys manpath catpath t (key ∷ keys) (k, ks) =
      Keeps-bind (purge_key b files manpath catpath t key) _ (Keeps-key manpath catpath t key k)
        (λ n.
          Keeps-bind (purge_keys b files manpath catpath t keys) _
            (Keeps-keys manpath catpath t keys ks) (λ m. Keeps-done (n + m)))

  IsSafe-if :
      {A : Type 0} (s : State b files) (x : Bool) (o p : Outcome (State b files) A)
      → IsSafe s o
      → IsSafe s p
      → IsSafe s (if x then o else p)
  IsSafe-if s true o p h g = h
  IsSafe-if s false o p h g = g

  -- Over a lawful store, on a consistent database with its version record, and over keys each of
  -- which is that of the record, a page's key or that of one page of several, purge_missing ends
  -- without a fatal error, whether or not its file is there, opens and is sane. The database is
  -- consistent again and has its version record, what its table holds of a page is what it held, or
  -- nothing, and with opt_test it is not changed.
  pub purge_missing-IsWhole :
      (present opens : Bool) (keys : List Bytes) (manpath catpath : Bytes) (db_mtime : Timespec)
      (s : State b files)
      → All IsKey keys
      → IsWhole (held s)
      → IsSafe s (purge_missing b files present opens keys manpath catpath db_mtime s)
  unfolding purge_missing
  purge_missing-IsWhole present opens keys manpath catpath db_mtime s k w =
      IsSafe-if s _ _ _ (Keeps-done 0 s w)
        (IsSafe-if s _ _ _ (Keeps-done 0 s w) (Keeps-keys manpath catpath db_mtime keys k s w))
