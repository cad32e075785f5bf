-- ===== src/Lib.antt =====
-- man-db: its page index, the programs that fill, purge and search it, and the parts around them.
--
-- man-db finds manual pages and describes them. mandb walks the page directories, reads the name of
-- a page off its path (filename_info), its NAME section by a lexer (lexgrog) and splits that into
-- descriptions (parse_descriptions), and stores an entry for each page in an index (dbstore). man,
-- whatis and apropos look entries up again (dblookup) and make a path of them (make_filename); mandb
-- removes those whose files are gone (purge_missing, by dbdelete). Where pages are is the manpath,
-- which is made of man_db.conf, $PATH, $MANPATH and the locales (manp.c). man collects candidates for
-- a page along it, puts them in order, reads the page through a decompressor, converts its encoding
-- and formats it for a device.
--
-- The files, and the code that they are about:
--   Base, CString, Exit: lists, numbers and tests; the C library's string functions on byte strings
--     without their NUL; runs that may end in fatal () (lib/fatal.c), with the state they leave.
--   Db/Record: struct mandata (lib/filenames.h), split_content (libdb/db_lookup.c) and make_content
--     (libdb/db_store.c). A field that may be NULL is an Option.
--   Db/Refs: struct name_ext, name_to_key, make_multi_key, list_extensions (libdb/db_lookup.c) and
--     make_extensions_reference (libdb/db_store.c).
--   Db/Ids: compare_ids and the decision of replace_if_necessary (libdb/db_store.c).
--   Db/Backend: what libdb uses of gdbm (libdb/mydbm.h) and of gnulib, as a record of operations;
--     IsLawful states what their manuals say. The store is the state that the operations pass on.
--   Db/Store, Db/Lookup, Db/Delete, Db/Version: dbstore, dblookup with dblookup_all and
--     dblookup_exact, dbdelete, and dbver_rd with dbver_wr. dbstore's three situations are functions
--     of their own.
--   Db/Group: the invariant of the entries that share a key (IsGroup), the table from name and
--     extension to entry that they stand for (view), and what each operation does to it. The
--     invariant says for one entry that it belongs to the key and can be written again, and for
--     several that the references are in order and name exactly the keys that are there.
--     Db/Group/Whole, Db/Group/Remaining: the same of all keys of a database at once, beside the
--     record of the version ($version$) that dbver_wr writes, and dbdelete.
--   Db/Iterate: the walk over the keys in order of libdb/db_xdbm.c, with the unordered iteration and
--     the insertion and search of gnulib's sorted lists as parameters (Db/Iterate/Sorted states what
--     is documented of them).
--   Decompress: the reader of src/decompress.c. Its two kinds are a data type, libpipeline is a
--     record of operations.
--   Encodings: the tables of lib/encodings.c and the searches in them.
--   WordFnmatch: word_fnmatch of lib/wordfnmatch.c, with fnmatch as a parameter.
--   Descriptions: parse_descriptions of src/descriptions.c, and trim_spaces of lib/util.c.
--     Descriptions/Store: store_descriptions of src/descriptions_store.c, on top of dbstore.
--   Filenames: comp_info and comp_file of lib/compression.c, make_filename and filename_info of
--     lib/filenames.c; access, stat, base_name and dir_name are parameters.
--   Cleanup: the stack of lib/cleanup.c, as an array with its size and top, and the actions of the
--     three signals.
--   Pathsearch: pathsearch and directory_on_path of lib/pathsearch.c; getenv, stat and the current
--     directory are parameters.
--   Mandirs: purge_missing, purge_pointers and check_multi_key of src/check_mandirs.c on the model of
--     libdb. The keys are those of the walk, which db_xdbm.c fixes when it starts; stat,
--     filename_info and look_for_file are parameters. The state is the database and force_rescan.
--   Locale: struct locale_bits and unpack_locale_bits of src/manp.c.
--   Manpath: src/manp.c. The list of items and its lookups; Append: pathappend; Nls: locales and
--     systems; Pathlist: the manpath from $PATH and from the configuration, and the search list.
--     Directories, globbing, canonical names and getenv are parameters. A use of freed memory is a
--     result of its own.
--   Candidates: the candidates of src/man.c for a page: their order and duplicates, and in
--     Candidates/Adding add_candidate.
--   Pages: page names, section lists, sh_lang_first_word and escape_less of src/man.c, and
--     escape_shell of lib/util.c. A read behind the end of a string is a result of its own.
--   Security: effective privileges with their count (lib/security.c).
--   Whatis: src/whatis.c. The walk of apropos with the matching of names and texts, pointers, and the
--     line that is displayed, with a write before its start as a result of its own.
--   Utf8: src/utf8.c. LineLength: lib/linelength.c. Preconv: check_preprocessor_encoding of
--     src/manconv.c, whose loop has as many rounds as the line has bytes behind "-*-";
--     Preconv/Declares describes the lines that declare an encoding.
--   Tests: a store in memory that is lawful, and runs at concrete inputs.
--
-- Numbers are natural numbers; a long is an integer, printed and read with the 64-bit bounds
-- (CString/Long). Loops that are not structural run on fuel. list_extensions and parse_descriptions
-- have one round more than there are bytes, since each round but the last takes a byte or more; the
-- loop over gzread has as many rounds as there is room, since each round but the last fills a byte
-- or more; the walk over the keys has one round more than there are keys, and that over PATH two
-- more than it has bytes, since each element but the last takes a colon. The loops over the
-- occurrences of a token (pathappend) and of a keyword (match) have one round more than there are
-- bytes, and those over the references of a multi key and over the characters of a text as many
-- rounds as there are bytes, since each round takes a byte or more. The rounds of
-- resolve_pointers are the ten of the source.
--
-- Configuration: GDBM, libz, no FAVOUR_STRAYCATS, MAN_OWNER and TIOCGWINSZ defined, BTREE and
-- HEIRLOOM_NROFF not defined; OVERRIDE_DIR, MAN_ROOT and CAT_ROOT are arguments. The "C" locale
-- decides what is a letter.
--
-- Not modelled: messages and debugging output, memory management, the file system, child processes,
-- the flex scanners, dblookup_pattern, the parsing of man_db.conf, option parsing, the walks of mandb
-- over directories, and the reading of the C locale in lib/encodings.c.
pub mod Base
pub mod CString
pub mod Candidates
pub mod Cleanup
pub mod Db
pub mod Decompress
pub mod Descriptions
pub mod Encodings
pub mod Exit
pub mod Filenames
pub mod LineLength
pub mod Locale
pub mod Mandirs
pub mod Manpath
pub mod Pages
pub mod Pathsearch
pub mod Preconv
pub mod Security
pub mod Utf8
pub mod Whatis
pub mod WordFnmatch
pub mod Tests
