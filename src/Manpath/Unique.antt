-- ===== src/Manpath/Unique.antt =====
-- The lists of directories of Manpath/Pathlist have no duplicates.
use mandb.Base.{
  false, Option, none, some, ◌>>=◌, List, [], ◌∷◌, ◌++◌, Bytes, codes, ◌≡◌, ◌≢◌, refl, arith, All,
  All-append, map, Bool-cases, Option-cases, inl, inr, subst,
}
use mandb.CString.Compare.{streq_iff}
use mandb.CString.Fields.{fields}
use mandb.Manpath.Nls.{is_dir, is_empty}
use mandb.Manpath.Pathlist.{
  World, CanonicalizedPath, canon_listed, add_canonical, absolute, add_expanded_paths,
  add_dir_to_path_list, add_elements, create_pathlist,
}

-- Every two of the list, the earlier first.
abbrev pub Pairwise {ℓ κ} : {A : Type ℓ} → (A → A → Type κ) → List A → Type κ
Pairwise R [] = Unit
Pairwise R (x ∷ xs) = All (R x) xs × Pairwise R xs

pub Pairwise-last {ℓ κ} :
    {A : Type ℓ} (R : A → A → Type κ) (xs : List A) (y : A)
    → Pairwise R xs
    → All (λ x. R x y) xs
    → Pairwise R (xs ++ (y ∷ []))
Pairwise-last R [] y p h = (tt, tt)
Pairwise-last R (x ∷ xs) y (p, ps) (h, hs) =
    (All-append (R x) xs (y ∷ []) p (h, tt), Pairwise-last R xs y ps hs)

module _ (world : World) where
  open world use {disk, expand_path, canonicalize}

  -- Each item has its path's canonical one, and no two have the same.
  abbrev IsCanonical : CanonicalizedPath → Type 0
  IsCanonical cp = canonicalize cp.path ≡ some cp.canon_path

  abbrev AreCanonical : List CanonicalizedPath → Type 0
  AreCanonical list = Pairwise (λ a b. a.canon_path ≢ b.canon_path) list × All IsCanonical list

  not_canon_listed :
      (canon : Bytes) (list : List CanonicalizedPath)
      → canon_listed canon list ≡ false
      → All (λ cp. cp.canon_path ≢ canon) list
  unfolding canon_listed
  not_canon_listed canon [] h = tt
  not_canon_listed canon (cp ∷ list) h = (
    ground (arith, h, streq_iff cp.canon_path canon),
    not_canon_listed canon list (ground (arith, h)),
  )

  canonical_one :
      (path : Bytes) (list : List CanonicalizedPath)
      → AreCanonical list
      → AreCanonical (add_canonical world path list)
  unfolding add_canonical
  canonical_one path list v = elim (Option-cases (canonicalize path)) [
    | inl e ↦
        let same : list ≡ add_canonical world path list = ground (arith, e) in
        subst AreCanonical same v
    | inr (canon, e) ↦ elim (Bool-cases (canon_listed canon list)) [
      | inl k ↦
          let same : list ≡ add_canonical world path list = ground (arith, e, k) in
          subst AreCanonical same v
      | inr k ↦
          let cp : CanonicalizedPath = record { path = path; canon_path = canon } in
          let grown : list ++ (cp ∷ []) ≡ add_canonical world path list = ground (arith, e, k) in
          subst AreCanonical grown (
            Pairwise-last (λ a b. a.canon_path ≢ b.canon_path) list cp v.0
                (not_canon_listed canon list k),
            All-append (λ c. canonicalize c.path ≡ some c.canon_path) list (cp ∷ []) v.1 (e, tt),
          )
    ]
  ]

  -- A chain of results, each of which keeps the lists so.
  abbrev pub Keeps : (List CanonicalizedPath → Option (List CanonicalizedPath)) → Type 0
  Keeps m =
      (list out : List CanonicalizedPath) → AreCanonical list → m list ≡ some out → AreCanonical out

  Keeps-bind :
      (o : Option (List CanonicalizedPath))
      (k : List CanonicalizedPath → Option (List CanonicalizedPath)) (out : List CanonicalizedPath)
      → ((l : List CanonicalizedPath) → o ≡ some l → AreCanonical l)
      → Keeps k
      → (o >>= k) ≡ some out
      → AreCanonical out
  Keeps-bind none k out h g e = absurd (ground (arith, e))
  Keeps-bind (some l) k out h g e = g l out (h l refl) e

  keeps_path :
      (o : Option Bytes) (list l : List CanonicalizedPath)
      → AreCanonical list
      → (o >>= λ path. some (add_canonical world path list)) ≡ some l
      → AreCanonical l
  keeps_path none list l v e = absurd (ground (arith, e))
  keeps_path (some path) list l v e =
      subst AreCanonical (ground (arith, e)) (canonical_one path list v)

  expanded_paths : (dirs : List Bytes) → Keeps (add_expanded_paths world dirs)
  unfolding add_expanded_paths
  expanded_paths [] list out v e = subst AreCanonical (ground (arith, e)) v
  expanded_paths (dir ∷ dirs) list out v e =
      Keeps-bind _ (add_expanded_paths world dirs) out
        (λ l h. elim (Bool-cases (is_dir (disk.is_directory dir))) [
          | inl k ↦ keeps_path (absolute world dir) list l v (rw k at h)
          | inr k ↦ subst AreCanonical (ground (arith, k, h)) v
        ])
        (expanded_paths dirs) e

  path_list : (p : Bytes) → Keeps (add_dir_to_path_list world p)
  unfolding add_dir_to_path_list
  path_list p = expanded_paths (expand_path p)

  elements : (override_dir : Bytes) (es : List Bytes) → Keeps (add_elements world override_dir es)
  unfolding add_elements
  elements override_dir [] list out v e = subst AreCanonical (ground (arith, e)) v
  elements override_dir (element ∷ es) list out v e =
      Keeps-bind _
        (λ l. add_dir_to_path_list world element l >>= add_elements world override_dir es) out
        (λ l h. elim (Bool-cases (is_empty override_dir)) [
          | inl k ↦ subst AreCanonical (ground (arith, k, h)) v
          | inr k ↦ path_list (element ++ (b'/' ∷ override_dir)) list l v (rw k at h)
        ])
        (λ l o w h.
          Keeps-bind (add_dir_to_path_list world element l) (add_elements world override_dir es) o
            (λ m q. path_list element l m w q) (elements override_dir es) h)
        e

  All-differ :
      (cp : CanonicalizedPath) (list : List CanonicalizedPath)
      → IsCanonical cp
      → All IsCanonical list
      → All (λ b. cp.canon_path ≢ b.canon_path) list
      → All (λ b. canonicalize cp.path ≢ canonicalize b) (map (λ c. c.path) list)
  All-differ cp [] v vs d = tt
  All-differ cp (b ∷ list) v (w, ws) (d, ds) =
      (λ h. d (ground (arith, v, w, h)), All-differ cp list v ws ds)

  paths_differ :
      (list : List CanonicalizedPath)
      → AreCanonical list
      → Pairwise (λ a b. canonicalize a ≢ canonicalize b) (map (λ c. c.path) list)
  paths_differ [] v = tt
  paths_differ (cp ∷ list) ((d, ds), (v, vs)) =
      (All-differ cp list v vs d, paths_differ list (ds, vs))

  -- When create_pathlist returns a list, no two of its paths have the same canonical name.
  pub create_pathlist-Pairwise :
      (override_dir manp : Bytes) (paths : List Bytes)
      → create_pathlist world override_dir manp ≡ some paths
      → Pairwise (λ a b. canonicalize a ≢ canonicalize b) paths
  unfolding create_pathlist
  create_pathlist-Pairwise override_dir manp paths e =
      elim (Option-cases (add_elements world override_dir (fields (codes ":") manp) [])) [
        | inl k ↦ absurd (ground (arith, e, k))
        | inr (list, k) ↦
            subst (Pairwise (λ a b. canonicalize a ≢ canonicalize b)) (ground (arith, e, k)) (
              paths_differ list
                (elements override_dir (fields (codes ":") manp) [] list (tt, tt) k))
      ]
