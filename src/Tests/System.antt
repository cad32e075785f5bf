-- ===== src/Tests/System.antt =====
-- The cleanup stack and file names on small inputs.
use mandb.Base.{
  All, true, false, none, some, [], ◌∷◌, ◌++◌, Bytes, codes, ◌≡◌, refl, arith, Lacks, if◌then◌else◌,
  get_or, append_assoc, ap, sym, ◌∙◌,
}
use mandb.CString.{has, streq, split_last}
use mandb.Cleanup.{Slot, State, Trap, dfl, push_cleanup, pop_cleanup, trap_signal, untrap_signal}
use mandb.Cleanup.Slots.{in_use, IsSound}
use mandb.Cleanup.Push.{push_cleanup-in_use}
use mandb.Cleanup.Pop.{pop_cleanup-in_use, without_last}
use mandb.Cleanup.Run.{untrap_signal-trap_signal, after_two}
use mandb.CString.Search.{split_last-append}
use mandb.Db.Record.{Mandata}
use mandb.Filenames.{
  Programs, info, page_info, make_filename, page_path, filename_info, comp_list, entries,
  or_entries, find_ext,
}
use mandb.Filenames.RoundTrip.{SplitsPaths, filename_info-make_filename, compressed}
use mandb.Filenames.Extensions.{is_known}
use mandb.Pathsearch.{pathsearch}
use mandb.Pathsearch.Elements.{path_text, any_dir, dirs, pathsearch-any_dir}

abbrev quiet : Trap
quiet = record { current = dfl; saved = dfl }

abbrev slot_one : Slot
slot_one = record { fun = 1; arg = 10; sigsafe = true }

abbrev slot_two : Slot
slot_two = record { fun = 2; arg = 10; sigsafe = false }

-- Two slots, of which both are in use.
abbrev two_slots : State
two_slots = record {
  stack = slot_one ∷ slot_two ∷ [];
  nslots = 2;
  tos = 2;
  handler_installed = true;
  hup = quiet;
  int = quiet;
  term = quiet;
}

two_slots-IsSound : IsSound two_slots
two_slots-IsSound = record { size = refl; room = omega arith }

push_cleanup-in_use_example :
    (in_use (push_cleanup true true slot_one two_slots).0
      ≡ in_use two_slots
        ++ (if (push_cleanup true true slot_one two_slots).1 then slot_one ∷ [] else []))
    × IsSound (push_cleanup true true slot_one two_slots).0
push_cleanup-in_use_example = push_cleanup-in_use true true slot_one two_slots two_slots-IsSound

pop_cleanup-in_use_example :
    (t : State) × (pop_cleanup 1 10 two_slots ≡ some t)
    × (in_use t ≡ get_or (in_use two_slots) (without_last 1 10 (in_use two_slots)))
    × IsSound t
pop_cleanup-in_use_example = pop_cleanup-in_use 1 10 two_slots two_slots-IsSound (omega arith)

untrap_signal-trap_signal_example :
    ((untrap_signal (trap_signal quiet)).current ≡ quiet.current)
    × (untrap_signal (trap_signal (trap_signal quiet))).current ≡ after_two quiet.current
untrap_signal-trap_signal_example = untrap_signal-trap_signal quiet (λ h. ground (arith, h))

-- gnulib's functions on the paths that the example needs.
abbrev base_of : Bytes → Bytes
base_of s = elim (split_last b'/' s) [ none ↦ s | some (a, b) ↦ b ]

abbrev dir_of : Bytes → Bytes
dir_of s = elim (split_last b'/' s) [ none ↦ codes "." | some (a, b) ↦ a ]

of-SplitsPaths : SplitsPaths base_of dir_of
of-SplitsPaths = record {
  base = λ dirs last file n m h k. ground (arith, split dirs last file k);
  dir = λ dirs last file n m h k. ground (arith, split dirs last file k);
}
  where
    split :
        (dirs last file : Bytes)
        → Lacks b'/' file
        → split_last b'/' (dirs ++ (b'/' ∷ (last ++ (b'/' ∷ file))))
          ≡ some (dirs ++ (b'/' ∷ last), file)
    split dirs last file k =
        ap (split_last b'/') (sym (append_assoc dirs (b'/' ∷ last) (b'/' ∷ file)))
        ∙ split_last-append b'/' (dirs ++ (b'/' ∷ last)) file k

abbrev programs : Programs
programs = record {
  gunzip = some (codes "gzip -dc");
  uncompress = none;
  bunzip2 = none;
  unxz = some (codes "xz -dc");
  unlzma = none;
  unlzip = none;
  unzstd = none;
}

abbrev ls_entry : Mandata
ls_entry = page_info (codes "ls") (codes "1") (codes "1") (some (codes "gz"))

abbrev ls_file : Bytes
ls_file = codes "/usr/share/man/man1/ls.1.gz"

filename_info-make_filename_example :
    filename_info base_of dir_of programs ls_file
    ≡ info (page_info (codes "ls") (codes "1") (codes "1") (some (codes "gz")))
filename_info-make_filename_example =
    filename_info-make_filename base_of dir_of programs (λ file. true) (codes "/usr/share/man")
      ls_file (codes "ls") b'1' [] ls_entry of-SplitsPaths refl (ground arith) (ground arith)
      (ground arith) (ground arith) refl (compressed gz_known) made
  where
    gz_known : is_known programs (codes "gz") ≡ true
    gz_known = unfold is_known comp_list entries or_entries find_ext streq in refl

    made :
        make_filename
          (λ file. true)
          (codes "/usr/share/man")
          (some (codes "ls"))
          ls_entry
          (codes "man")
        ≡ some ls_file
    made = unfold make_filename page_path in refl

pathsearch-any_dir_example :
    pathsearch
      (some (path_text (codes "/bin") ([] ∷ [])))
      (some (codes "/tmp"))
      (streq (codes "/tmp/ls"))
      (codes "ls")
    ≡ some (
        any_dir
          (λ dir. streq (codes "/tmp/ls") (dir ++ (b'/' ∷ codes "ls")))
          (dirs (codes "/tmp") (codes "/bin" ∷ [] ∷ [])))
pathsearch-any_dir_example =
    pathsearch-any_dir (codes "/tmp") (streq (codes "/tmp/ls")) (codes "ls") (codes "/bin")
      ([] ∷ []) plain colons
  where
    plain : has b'/' (codes "ls") ≡ false
    plain = unfold has in refl

    colons : All (Lacks b':') (codes "/bin" ∷ [] ∷ [])
    colons = ground arith
