-- ===== src/Decompress.antt =====
-- src/decompress.c: the reader over a decompression pipeline or over a buffer in memory.
pub mod Laws
pub mod Zlib
use mandb.Base.{
  ℕ, suc, ◌+◌, ◌-◌, min, Bool, true, false, Option, none, some, List, [], ◌∷◌, ◌++◌, Bytes, length,
  take, drop, leb, if◌then◌else◌,
}
use mandb.CString.{has, before}

-- struct decompress_inprocess
pub record Inprocess : Type 0 where
  pub buf : Bytes
  pub len : ℕ
  pub offset : ℕ
  pub line_cache : Option Bytes

abbrev pub newline : ℕ
newline = 10

unfoldable pub decompress_new_inprocess : Bytes → ℕ → Inprocess
decompress_new_inprocess buf len = record { buf = buf; len = len; offset = 0; line_cache = none }

unfoldable pub decompress_inprocess_replace : Bytes → ℕ → Inprocess → Inprocess
decompress_inprocess_replace buf len d = record d {
  buf = buf;
  len = len;
  offset = 0;
  line_cache = none;
}

-- The bytes between the offset and the end.
abbrev pub rest : Inprocess → Bytes
rest d = take (d.len - d.offset) (drop d.offset d.buf)

-- The bytes that the returned pointer and length stand for.
unfoldable pub inprocess_read : ℕ → Inprocess → Inprocess × Bytes
inprocess_read len d =
    let n = min len (d.len - d.offset) in
    (record d { offset = d.offset + n }, take n (drop d.offset d.buf))

unfoldable pub inprocess_peek : ℕ → Inprocess → Bytes
inprocess_peek len d = let n = min len (d.len - d.offset) in take n (drop d.offset d.buf)

-- `none` is the failed assertion.
unfoldable pub inprocess_peek_skip : ℕ → Inprocess → Option Inprocess
inprocess_peek_skip len d =
    if leb len (d.len - d.offset) then some (record d { offset = d.offset + len }) else none

unfoldable pub inprocess_readline : Inprocess → Inprocess × Option Bytes
inprocess_readline d =
    if has newline (rest d)
    then (let line = before newline (rest d) ++ (newline ∷ []) in
        (record d { line_cache = some line; offset = d.offset + length line }, some line))
    else (record d { line_cache = none }, none)

unfoldable pub inprocess_peekline : Inprocess → Inprocess × Option Bytes
inprocess_peekline d =
    if has newline (rest d)
    then (let line = before newline (rest d) ++ (newline ∷ []) in
        (record d { line_cache = some line }, some line))
    else (record d { line_cache = none }, none)

-- What decompress.c uses of libpipeline.
pub record Pipelines : Type 1 where
  Pipe : Type 0
  pub pipeline_read : ℕ → Pipe → Pipe × Bytes
  pub pipeline_peek : ℕ → Pipe → Pipe × Bytes
  pub pipeline_peek_skip : ℕ → Pipe → Pipe
  pub pipeline_readline : Pipe → Pipe × Option Bytes
  pub pipeline_peekline : Pipe → Pipe × Option Bytes
  pub pipeline_start : Pipe → Pipe
  pub pipeline_wait : Pipe → Pipe × ℕ

module _ (l : Pipelines) where
  open l use {
    Pipe, pipeline_read, pipeline_peek, pipeline_peek_skip, pipeline_readline, pipeline_peekline,
    pipeline_start, pipeline_wait,
  }

  -- struct decompress: the tag and the union.
  pub data Decompress : Type 0 where
    pipeline : Pipe → Decompress
    inprocess : Inprocess → Decompress

  unfoldable pub decompress_is_pipeline : Decompress → Bool
  decompress_is_pipeline (pipeline p) = true
  decompress_is_pipeline (inprocess d) = false

  unfoldable pub decompress_start : Decompress → Decompress
  decompress_start (pipeline p) = pipeline (pipeline_start p)
  decompress_start (inprocess d) = inprocess d

  unfoldable pub decompress_read : ℕ → Decompress → Decompress × Bytes
  decompress_read len (pipeline p) = let (p', r) = pipeline_read len p in (pipeline p', r)
  decompress_read len (inprocess d) = let (d', r) = inprocess_read len d in (inprocess d', r)

  unfoldable pub decompress_peek : ℕ → Decompress → Decompress × Bytes
  decompress_peek len (pipeline p) = let (p', r) = pipeline_peek len p in (pipeline p', r)
  decompress_peek len (inprocess d) = (inprocess d, inprocess_peek len d)

  unfoldable pub decompress_peek_skip : ℕ → Decompress → Option Decompress
  decompress_peek_skip len (pipeline p) = some (pipeline (pipeline_peek_skip len p))
  decompress_peek_skip len (inprocess d) = elim (inprocess_peek_skip len d) [
    | none ↦ none
    | some d' ↦ some (inprocess d')
  ]

  unfoldable pub decompress_readline : Decompress → Decompress × Option Bytes
  decompress_readline (pipeline p) = let (p', r) = pipeline_readline p in (pipeline p', r)
  decompress_readline (inprocess d) = let (d', r) = inprocess_readline d in (inprocess d', r)

  unfoldable pub decompress_peekline : Decompress → Decompress × Option Bytes
  decompress_peekline (pipeline p) = let (p', r) = pipeline_peekline p in (pipeline p', r)
  decompress_peekline (inprocess d) = let (d', r) = inprocess_peekline d in (inprocess d', r)

  unfoldable pub decompress_wait : Decompress → Decompress × ℕ
  decompress_wait (pipeline p) = let (p', r) = pipeline_wait p in (pipeline p', r)
  decompress_wait (inprocess d) = (inprocess d, 0)
