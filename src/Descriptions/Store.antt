-- ===== src/Descriptions/Store.antt =====
-- store_descriptions (src/descriptions_store.c).
use mandb.Base.{
  ℕ, Bool, true, false, not, ◌&&◌, Option, none, some, List, [], ◌∷◌, ◌++◌, Bytes, codes, ◌==◌, ltb,
  if◌then◌else◌, get_or, is_some, length, drop,
}
use mandb.CString.{streq, starts_with}
use mandb.Exit.{done, fatal, M, ◌>>=◌}
use mandb.Db.Record.{Mandata, Timespec}
use mandb.Db.Ids.{ult_man, so_man, whatis_man, stray_cat, whatis_cat}
use mandb.Db.Backend.{Backend}
use mandb.Db.Store.{dbstore}
use mandb.Descriptions.{PageDescription}

unfoldable pub is_prefix : Bytes → Bytes → Bool
is_prefix parent child =
    starts_with parent child && starts_with (codes "/man") (drop (length parent) child)

-- filename_info (src/filenames.c) on a name of the trace, and lstat with get_stat_mtime.
pub record Traces : Type 0 where
  pub trace_info : Bytes → Option Mandata
  pub lstat_mtime : Bytes → Option Timespec

-- What a description gives: the page itself, a link to a page outside the hierarchy, or a mere
-- reference, with its name.
pub data Kind : Type 0 where
  real : Mandata → Kind
  external : Kind
  reference : Mandata → Bytes → Kind

unfoldable pub start_info : Mandata → PageDescription → Mandata
start_info info desc = record {
  name = none;
  ext = info.ext;
  sec = info.sec;
  id = info.id;
  pointer = none;
  comp = info.comp;
  filter = info.filter;
  whatis = desc.whatis;
  mtime = info.mtime;
}

-- The id of a page of the trace; the Boolean is whether it is the last one.
unfoldable pub trace_id : ℕ → ℕ → Bool → ℕ
trace_id info_id id last =
    if last
    then if info_id == so_man then ult_man else id
    else if info_id == ult_man
    then so_man
    else id

unfoldable pub is_last : List Bytes → Bool
is_last [] = true
is_last _ = false

-- Whether the page of the trace has the name.
unfoldable pub has_name : Option Mandata → Bytes → Bool
has_name none name = false
has_name (some t) name = streq (get_or [] t.name) name

unfoldable pub kind_of : Bytes → Mandata → Mandata → Option (Mandata × Bool) → Kind
kind_of name info w none = external
kind_of name info w (some (w', true)) = real w'
kind_of name info w (some (w', false)) =
    reference
      (record w' { id = if ltb info.id stray_cat then whatis_man else whatis_cat; whatis = none })
      name

-- The page of the trace, if it has the section and extension of the first, or the one so far.
unfoldable pub later_info : Mandata → Option Mandata → Option Mandata → Option Mandata
later_info info found none = found
later_info info found (some t) =
    if streq t.sec info.sec && streq t.ext info.ext then some t else found

module _ (traces : Traces) where
  open traces use {trace_info, lstat_mtime}

  unfoldable pub from_trace : Mandata → Mandata → Bytes → Bool → Mandata
  from_trace info w trace_name last =
      let t = get_or info (trace_info trace_name) in
      record w {
        ext = t.ext;
        sec = t.sec;
        id = trace_id info.id w.id last;
        comp = t.comp;
        mtime = get_or info.mtime (lstat_mtime trace_name);
      }

  -- The walk over the trace; `none` is the link outside the hierarchy, and the Boolean is
  -- found_real_page.
  unfoldable pub walk_trace :
      Option Bytes → Mandata → Bytes → List Bytes → Mandata → Bool → Option (Mandata × Bool)
  walk_trace path info name [] w found = some (w, found)
  walk_trace path info name (trace_name ∷ trace) w found =
      let passed = walk_trace path info name trace w found in
      let taken =
        walk_trace path info name trace (from_trace info w trace_name (is_last trace)) true in
      if not (has_name (trace_info trace_name) name)
      then passed
      else if is_some path && not (is_prefix (get_or [] path) trace_name)
      then none
      else taken

  unfoldable pub describe : Option Bytes → Bytes → Mandata → List Bytes → PageDescription → Kind
  describe path base info trace desc =
      if streq base desc.name
      then real (start_info info desc)
      else kind_of desc.name info (start_info info desc)
          (walk_trace path info desc.name trace (start_info info desc) false)

  -- The last page of the trace with the section and extension of the first.
  unfoldable pub pointer_info : Mandata → List Bytes → Option Mandata → Option Mandata
  pointer_info info [] found = found
  pointer_info info (trace_name ∷ trace) found =
      pointer_info info trace (later_info info found (trace_info trace_name))

module _ (b : Backend) (traces : Traces) where
  open b use {Db}

  -- dbstore; the result is whether it is 0.
  unfoldable pub store_one : Mandata → Bytes → M Db Bool
  store_one w name = do (ret, w') ← dbstore b w name; done (ret == 0)

  -- A page that is real is stored; a reference is gathered. `none` is a store that fails, and the
  -- first argument is the rest of the loop.
  unfoldable pub store_kind :
      (List (Mandata × Bytes) → M Db (Option (List (Mandata × Bytes))))
      → Bytes
      → List (Mandata × Bytes)
      → Kind
      → M Db (Option (List (Mandata × Bytes)))
  store_kind further desc_name refs external = further refs
  store_kind further desc_name refs (reference w name) = further (refs ++ ((w, name) ∷ []))
  store_kind further desc_name refs (real w) =
      store_one w desc_name >>= λ stored. if stored then further refs else done none

  unfoldable pub store_real :
      Option Bytes
      → Bytes
      → Mandata
      → List Bytes
      → List PageDescription
      → List (Mandata × Bytes)
      → M Db (Option (List (Mandata × Bytes)))
  store_real path base info trace [] refs = done (some refs)
  store_real path base info trace (desc ∷ descs) refs =
      store_kind (store_real path base info trace descs) desc.name refs
        (describe traces path base info trace desc)

  unfoldable pub store_refs : Bytes → List (Mandata × Bytes) → M Db Bool
  store_refs pointer [] = done true
  store_refs pointer ((w, name) ∷ refs) =
      let further = store_refs pointer refs in
      store_one (record w { pointer = some pointer }) name >>= λ stored.
      if stored then further else done false

  -- The references are stored for the pointer's page, which is asserted to be there.
  unfoldable pub store_gathered : Option Mandata → Option (List (Mandata × Bytes)) → M Db Bool
  store_gathered pointer none = done false
  store_gathered none (some refs) = λ d. fatal d
  store_gathered (some t) (some refs) = store_refs (get_or [] t.name) refs

  -- The result is whether no store failed. An assertion that fails ends the process.
  unfoldable pub store_descriptions :
      List PageDescription → Mandata → Option Bytes → Bytes → List Bytes → M Db Bool
  store_descriptions descs info path base [] = λ d. fatal d
  store_descriptions descs info path base (first ∷ trace) =
      store_real path base info (first ∷ trace) descs []
      >>= store_gathered (pointer_info traces info (first ∷ trace) none)
