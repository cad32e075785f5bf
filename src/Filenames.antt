-- ===== src/Filenames.antt =====
-- lib/compression.c and lib/filenames.c: the compression of a file by its name, and the fields of an
-- entry by the path of its page.
pub mod Extensions
pub mod RoundTrip
use mandb.Base.{
  ℕ, zero, suc, Bool, true, false, not, Option, none, some, List, [], ◌∷◌, ◌++◌, Bytes, ◌==◌, ltb,
  if◌then◌else◌, length, drop, codes, get_or,
}
use mandb.Base.Int.{pos}
use mandb.CString.{streq, split_last, strstr}
use mandb.Db.Record.{Mandata, Timespec, first_char}

pub record Compression : Type 0 where
  pub prog : Bytes
  pub ext : Bytes
  pub stem : Option Bytes

-- The programs that configure finds, PROG_GUNZIP and so on; `none` where HAVE_GZIP and so on is not
-- defined.
pub record Programs : Type 0 where
  pub gunzip : Option Bytes
  pub uncompress : Option Bytes
  pub bunzip2 : Option Bytes
  pub unxz : Option Bytes
  pub unlzma : Option Bytes
  pub unlzip : Option Bytes
  pub unzstd : Option Bytes

-- The entries for a program, if it is there.
unfoldable pub entries : Option Bytes → List Bytes → List Compression
entries none exts = []
entries (some prog) [] = []
entries (some prog) (e ∷ exts) =
    record { prog = prog; ext = e; stem = none } ∷ entries (some prog) exts

-- #ifdef A … #elif defined(B) …
unfoldable pub or_entries : Option Bytes → List Bytes → List Compression → List Compression
unfolding entries
or_entries none exts other = other
or_entries (some prog) exts other = entries (some prog) exts

unfoldable pub comp_list : Programs → List Compression
unfolding entries or_entries
comp_list p =
    entries p.gunzip (codes "gz" ∷ codes "z" ∷ [])
    ++ (or_entries p.uncompress (codes "Z" ∷ []) (entries p.gunzip (codes "Z" ∷ []))
        ++ (entries p.bunzip2 (codes "bz2" ∷ [])
            ++ (or_entries p.unxz (codes "xz" ∷ codes "lzma" ∷ [])
                  (entries p.unlzma (codes "lzma" ∷ []))
                ++ (entries p.unlzip (codes "lz" ∷ [])
                    ++ entries p.unzstd (codes "zst" ∷ codes "zstd" ∷ [])))))

unfoldable pub find_ext : Bytes → List Compression → Option Compression
find_ext ext [] = none
find_ext ext (c ∷ cs) = if streq c.ext ext then some c else find_ext ext cs

unfoldable pub stem_if : Bool → Bytes → Option Bytes
stem_if want_stem s = if want_stem then some s else none

-- Behind the loop: *PROG_GUNZIP and ".Z/".
unfoldable pub hpux_info : Programs → Bytes → Bool → Option Compression
hpux_info p filename want_stem = elim (get_or [] p.gunzip) [
  | [] ↦ none
  | c ∷ prog ↦ elim (strstr (codes ".Z/") filename) [
    | none ↦ none
    | some (before, rest) ↦
        some record {
          prog = (c ∷ prog) ++ codes " -S \"\"";
          ext = [];
          stem = stem_if want_stem before;
        }
  ]
]

unfoldable pub comp_info : Programs → Bytes → Bool → Option Compression
comp_info p filename want_stem = elim (split_last b'.' filename) [
  | none ↦ hpux_info p filename want_stem
  | some (stem, ext) ↦ elim (find_ext ext (comp_list p)) [
    | some c ↦ some record c { stem = stem_if want_stem stem }
    | none ↦ hpux_info p filename want_stem
  ]
]

-- The first compressed file that is there; the first argument is stat (…) == 0.
unfoldable pub first_file : (Bytes → Bool) → Bytes → List Compression → Option Compression
first_file there filename [] = none
first_file there filename (c ∷ cs) =
    if there (filename ++ (b'.' ∷ c.ext))
    then some record c { stem = some (filename ++ (b'.' ∷ c.ext)) }
    else first_file there filename cs

unfoldable pub comp_file : Programs → (Bytes → Bool) → Bytes → Option Compression
comp_file p there filename = first_file there filename (comp_list p)

-- `file` before CAN_ACCESS.
unfoldable pub page_path : Bytes → Option Bytes → Mandata → Bytes → Bytes
page_path path name info type =
    path
    ++ (b'/'
        ∷ (type
            ++ (info.sec
                ++ (b'/'
                    ∷ (get_or (get_or [] info.name) name
                        ++ (b'.'
                            ∷ (info.ext ++ elim info.comp [
                              | none ↦ []
                              | some comp ↦ if first_char comp == b'-' then [] else b'.' ∷ comp
                            ])))))))

-- The first argument is CAN_ACCESS (file, R_OK).
unfoldable pub make_filename :
    (Bytes → Bool) → Bytes → Option Bytes → Mandata → Bytes → Option Bytes
make_filename can_access path name info type =
    let file = page_path path name info type in if can_access file then some file else none

-- What filename_info does: an entry, the null pointer for a bogus name, or a read outside of the
-- directory's name, where that is not long enough for the `+ 4`.
pub data Info : Type 0 where
  info : Mandata → Info
  bogus : Info
  undefined : Info

-- XZALLOC (struct mandata), and what is set in it.
abbrev pub page_info : Bytes → Bytes → Bytes → Option Bytes → Mandata
page_info name ext sec comp = record {
  name = some name;
  ext = ext;
  sec = sec;
  id = 0;
  pointer = none;
  comp = comp;
  filter = none;
  whatis = none;
  mtime = record { tv_sec = pos 0; tv_nsec = pos 0 };
}

module _ (base_name dir_name : Bytes → Bytes) where
  unfoldable pub section_info : Bytes → Bytes → Bytes → Option Bytes → Info
  section_info file name ext comp = elim (split_last b'/' (dir_name file)) [
    | none ↦ undefined
    | some (dirs, last) ↦
        if ltb (length last) 3
        then undefined
        else (let sec = drop 3 last in
            elim sec [
              | [] ↦ info (page_info name ext [] comp)
              | c ∷ cs ↦
                  if c == first_char ext then info (page_info name ext (c ∷ cs) comp) else bogus
            ])
  ]

  unfoldable pub ext_info : Bytes → Bytes → Option Bytes → Info
  ext_info file basename comp = elim (split_last b'.' basename) [
    | none ↦ bogus
    | some (name, ext) ↦ elim ext [ [] ↦ bogus | c ∷ cs ↦ section_info file name (c ∷ cs) comp ]
  ]

  -- base_name and dir_name are gnulib's.
  unfoldable pub filename_info : Programs → Bytes → Info
  filename_info p file = elim (comp_info p (base_name file) true) [
    | none ↦ ext_info file (base_name file) none
    | some c ↦ ext_info file (get_or [] c.stem) (some c.ext)
  ]
