-- ===== src/Descriptions/Fine.antt =====
-- What the descriptions of src/descriptions_store.c give can be kept in the index.
use mandb.Base.{
  ℕ, Bool, true, false, not, ◌&&◌, Option, none, some, List, [], ◌∷◌, Bytes, ◌≡◌, ◌≢◌, refl, arith,
  if◌then◌else◌, get_or, is_some, ltb, Lacks, Bool-cases, inl, inr,
}
use mandb.CString.{streq}
use mandb.CString.Compare.{streq_iff}
use mandb.CString.Long.{IsLong}
use mandb.Db.Record.{Mandata, Timespec, tab}
use mandb.Db.Record.RoundTrip.{IsStorable}
use mandb.Db.Ids.{whatis_man, stray_cat, whatis_cat}
use mandb.Db.Store.{unnamed}
use mandb.Db.Group.Whole.{IsPage}
use mandb.Descriptions.{PageDescription}
use mandb.Descriptions.Store.{
  is_prefix, Traces, Kind, real, external, reference, start_info, trace_id, is_last, later_info,
  has_name, from_trace, walk_trace, kind_of, describe, pointer_info,
}

-- What the index can keep of a page but for its name.
abbrev pub Fine : Mandata → Type 0
Fine w = IsStorable (unnamed w)

abbrev pub IsName : Bytes → Type 0
IsName name = (name ≢ []) × IsPage name

abbrev pub FinePair : Mandata × Bytes → Type 0
FinePair (w, name) = Fine w × IsName name

abbrev pub FineKind : Kind → Type 0
FineKind (real w) = Fine w
FineKind external = Unit {0}
FineKind (reference w name) = Fine w

-- The trace's pages can be kept, and their times are those of a file system.
pub record AreTraces (traces : Traces) : Type 0 where
  pub fine :
      (trace_name : Bytes) (t : Mandata) → traces.trace_info trace_name ≡ some t → IsStorable t
  pub times :
      (trace_name : Bytes) (t : Timespec)
      → traces.lstat_mtime trace_name ≡ some t
      → IsLong t.tv_sec × IsLong t.tv_nsec

start-Fine : (info : Mandata) (desc : PageDescription) → Fine info → Fine (start_info info desc)
unfolding start_info
start-Fine info desc v = record {
  name_tab = tt;
  name_dash = v.name_dash;
  ext_tab = v.ext_tab;
  sec_tab = v.sec_tab;
  id_tab = v.id_tab;
  id_nul = v.id_nul;
  pointer_tab = tt;
  filter_tab = v.filter_tab;
  comp_tab = v.comp_tab;
  sec_long = v.sec_long;
  nsec_long = v.nsec_long;
}

trace_id-ne-tab : (info_id id : ℕ) (last : Bool) → id ≢ tab → trace_id info_id id last ≢ tab
unfolding trace_id
trace_id-ne-tab info_id id last n = ground (arith, n)

trace_id-ne-nul : (info_id id : ℕ) (last : Bool) → id ≢ 0 → trace_id info_id id last ≢ 0
unfolding trace_id
trace_id-ne-nul info_id id last n = ground (arith, n)

module _ (traces : Traces) (ok : AreTraces traces) where
  open traces use {trace_info, lstat_mtime}

  abbrev TabFree : Mandata → Type 0
  TabFree t = Lacks tab t.ext × Lacks tab t.sec × Lacks tab (get_or [] t.comp)

  abbrev IsTime : Timespec → Type 0
  IsTime t = IsLong t.tv_sec × IsLong t.tv_nsec

  source-TabFree :
      (info : Mandata) (trace_name : Bytes) (o : Option Mandata)
      → trace_info trace_name ≡ o
      → Fine info
      → TabFree (get_or info o)
  source-TabFree info trace_name none e v = (v.ext_tab, v.sec_tab, v.comp_tab)
  source-TabFree info trace_name (some t) e v =
      let f = ok.fine trace_name t e in (f.ext_tab, f.sec_tab, f.comp_tab)

  mtime-IsTime :
      (info : Mandata) (trace_name : Bytes) (o : Option Timespec)
      → lstat_mtime trace_name ≡ o
      → Fine info
      → IsTime (get_or info.mtime o)
  mtime-IsTime info trace_name none e v = (v.sec_long, v.nsec_long)
  mtime-IsTime info trace_name (some t) e v = ok.times trace_name t e

  trace-Fine :
      (info w : Mandata) (trace_name : Bytes) (last : Bool)
      → Fine info
      → Fine w
      → Fine (from_trace traces info w trace_name last)
  unfolding from_trace
  trace-Fine info w trace_name last v u =
      let (ext, sec, comp) = source-TabFree info trace_name (trace_info trace_name) refl v in
      let (tv_sec, tv_nsec) = mtime-IsTime info trace_name (lstat_mtime trace_name) refl v in
      record {
        name_tab = tt;
        name_dash = u.name_dash;
        ext_tab = ext;
        sec_tab = sec;
        id_tab = trace_id-ne-tab info.id w.id last u.id_tab;
        id_nul = trace_id-ne-nul info.id w.id last u.id_nul;
        pointer_tab = u.pointer_tab;
        filter_tab = u.filter_tab;
        comp_tab = comp;
        sec_long = tv_sec;
        nsec_long = tv_nsec;
      }

  abbrev FineWalk : Option (Mandata × Bool) → Type 0
  FineWalk none = Unit {0}
  FineWalk (some (w, found)) = Fine w

  walk-Fine :
      (path : Option Bytes) (info : Mandata) (name : Bytes) (trace : List Bytes) (w : Mandata)
      (found : Bool)
      → Fine info
      → Fine w
      → FineWalk (walk_trace traces path info name trace w found)
  unfolding walk_trace
  walk-Fine path info name [] w found v u = u
  walk-Fine path info name (trace_name ∷ trace) w found v u =
      let passed = walk-Fine path info name trace w found v u in
      let taken =
        walk-Fine path info name trace (from_trace traces info w trace_name (is_last trace)) true v
          (trace-Fine info w trace_name (is_last trace) v u) in
      elim (Bool-cases (not (has_name (trace_info trace_name) name))) [
        | inl e ↦ rw e passed
        | inr e ↦ elim (Bool-cases (is_some path && not (is_prefix (get_or [] path) trace_name))) [
          | inl k ↦ rw (e, k) tt
          | inr k ↦ rw (e, k) taken
        ]
      ]

  reference-Fine :
      (info w : Mandata)
      → Fine w
      → Fine (record w {
        id = if ltb info.id stray_cat then whatis_man else whatis_cat;
        whatis = none;
      })
  reference-Fine info w u = record {
    name_tab = tt;
    name_dash = u.name_dash;
    ext_tab = u.ext_tab;
    sec_tab = u.sec_tab;
    id_tab = λ h. ground (arith, h);
    id_nul = λ h. ground (arith, h);
    pointer_tab = u.pointer_tab;
    filter_tab = u.filter_tab;
    comp_tab = u.comp_tab;
    sec_long = u.sec_long;
    nsec_long = u.nsec_long;
  }

  kind-Fine :
      (name : Bytes) (info w : Mandata) (o : Option (Mandata × Bool))
      → FineWalk o
      → FineKind (kind_of name info w o)
  unfolding kind_of
  kind-Fine name info w none u = tt
  kind-Fine name info w (some (w', true)) u = u
  kind-Fine name info w (some (w', false)) u = reference-Fine info w' u

  -- The name of a reference is the description's.
  abbrev pub IsNamed : Bytes → Kind → Type 0
  IsNamed n (real w) = Unit {0}
  IsNamed n external = Unit {0}
  IsNamed n (reference w name) = name ≡ n

  kind-IsNamed :
      (name : Bytes) (info w : Mandata) (o : Option (Mandata × Bool))
      → IsNamed name (kind_of name info w o)
  unfolding kind_of
  kind-IsNamed name info w none = tt
  kind-IsNamed name info w (some (w', true)) = tt
  kind-IsNamed name info w (some (w', false)) = refl

  pub describe-Fine :
      (path : Option Bytes) (base : Bytes) (info : Mandata) (trace : List Bytes)
      (desc : PageDescription)
      → Fine info
      → FineKind (describe traces path base info trace desc)
        × IsNamed desc.name (describe traces path base info trace desc)
  unfolding describe
  describe-Fine path base info trace desc v =
      let w = start_info info desc in
      let o = walk_trace traces path info desc.name trace w false in
      elim (Bool-cases (streq base desc.name)) [
        | inl e ↦ rw e (start-Fine info desc v, tt)
        | inr e ↦ rw e (
          kind-Fine desc.name info w o
              (walk-Fine path info desc.name trace w false v (start-Fine info desc v)),
          kind-IsNamed desc.name info w o,
        )
      ]

  abbrev pub pointer_name : Option Mandata → Bytes
  pointer_name none = []
  pointer_name (some t) = get_or [] t.name

  later-name :
      (info : Mandata) (trace_name : Bytes) (found o : Option Mandata)
      → trace_info trace_name ≡ o
      → Lacks tab (pointer_name found)
      → Lacks tab (pointer_name (later_info info found o))
  unfolding later_info
  later-name info trace_name found none e l = l
  later-name info trace_name found (some t) e l =
      elim (Bool-cases (streq t.sec info.sec && streq t.ext info.ext)) [
        | inl k ↦ rw k ((ok.fine trace_name t e).name_tab)
        | inr k ↦ rw k l
      ]

  later_some :
      (info : Mandata) (found o : Option Mandata)
      → is_some found ≡ true
      → is_some (later_info info found o) ≡ true
  unfolding later_info
  later_some info found none e = e
  later_some info found (some t) e = ground (arith, e)

  pointer_some :
      (info : Mandata) (trace : List Bytes) (found : Option Mandata)
      → is_some found ≡ true
      → is_some (pointer_info traces info trace found) ≡ true
  unfolding pointer_info
  pointer_some info [] found e = e
  pointer_some info (trace_name ∷ trace) found e =
      pointer_some info trace (later_info info found (trace_info trace_name))
        (later_some info found (trace_info trace_name) e)

  -- A page is found when the trace begins with one of the section and extension.
  pub pointer_found :
      (info t : Mandata) (first : Bytes) (trace : List Bytes)
      → trace_info first ≡ some t
      → t.sec ≡ info.sec
      → t.ext ≡ info.ext
      → is_some (pointer_info traces info (first ∷ trace) none) ≡ true
  unfolding pointer_info later_info
  pointer_found info t first trace e s x =
      pointer_some info trace (later_info info none (trace_info first))
        (ground (arith, e, streq_iff t.sec info.sec, streq_iff t.ext info.ext, s, x))

  pub pointer-name :
      (info : Mandata) (trace : List Bytes) (found : Option Mandata)
      → Lacks tab (pointer_name found)
      → Lacks tab (pointer_name (pointer_info traces info trace found))
  unfolding pointer_info
  pointer-name info [] found l = l
  pointer-name info (trace_name ∷ trace) found l =
      pointer-name info trace (later_info info found (trace_info trace_name))
        (later-name info trace_name found (trace_info trace_name) refl l)
