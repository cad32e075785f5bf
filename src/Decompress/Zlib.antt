-- ===== src/Decompress/Zlib.antt =====
-- decompress_try_zlib: a file is read into memory if it is small enough. gzread is zlib's.
use mandb.Base.{
  ℕ, zero, suc, ◌+◌, ◌-◌, ◌≤◌, ◌<◌, Option, none, some, [], ◌∷◌, ◌++◌, Bytes, length, leb, ltb,
  if◌then◌else◌, ◌≡◌, refl, arith, length-append, subst, Option-cases, inl, inr,
}
use mandb.Decompress.{Inprocess, decompress_new_inprocess}

abbrev pub max_inprocess : ℕ
max_inprocess = 1048576

-- What a call of gzread gives: an error, or bytes, of which there are none at the end of the file.
pub data Gzread : Type 0 where
  failed : Gzread
  bytes : Bytes → Gzread

module _ {S : Type 0} (gzread : ℕ → S → S × Gzread) where
  -- The loop, with what is in the buffer so far. Each round that goes on adds a byte, so as many
  -- rounds as there is room for are enough. `none` is an error.
  unfoldable pub read_loop : ℕ → ℕ → Bytes → S → Option Bytes
  read_loop zero max got s = some got
  read_loop (suc f) max got s =
      if ltb (length got) max
      then (let (s', r) = gzread (max - length got) s in
          elim r [
            | failed ↦ none
            | bytes [] ↦ some got
            | bytes (c ∷ cs) ↦ read_loop f max (got ++ (c ∷ cs)) s'
          ])
      else some got

  -- `none` where gzopen or gzread fails, or the file is too large.
  unfoldable pub decompress_try_zlib : Option S → Option Inprocess
  decompress_try_zlib none = none
  decompress_try_zlib (some s) = elim (read_loop max_inprocess max_inprocess [] s) [
    | none ↦ none
    | some got ↦
        if leb max_inprocess (length got)
        then none
        else some (decompress_new_inprocess got (length got))
  ]

  -- The file gives these bytes behind those in the buffer, by reads into the room that is left, and
  -- then ends.
  pub data Delivers (max : ℕ) : Bytes → S → Bytes → Type 0 where
    eof :
        {got : Bytes} {s : S} → (gzread (max - length got) s).1 ≡ bytes [] → Delivers max got s got
    more :
        {got out : Bytes} {s : S} {c : ℕ} {cs : Bytes}
        → (gzread (max - length got) s).1 ≡ bytes (c ∷ cs)
        → Delivers max (got ++ (c ∷ cs)) (gzread (max - length got) s).0 out
        → Delivers max got s out

  read_loop-Delivers :
      (f max : ℕ) (got : Bytes) (s : S) (out : Bytes)
      → max ≤ length got + f
      → read_loop f max got s ≡ some out
      → length out < max
      → Delivers max got s out
  unfolding read_loop
  read_loop-Delivers zero max got s out room h small = absurd (ground arith)
  read_loop-Delivers (suc f) max got s out room h small =
      by_read (gzread (max - length got) s).1 refl (read_loop-Delivers f max)
    where
      by_read :
          (r : Gzread)
          → (gzread (max - length got) s).1 ≡ r
          → ((g : Bytes) (t : S) (o : Bytes)
              → max ≤ length g + f
              → read_loop f max g t ≡ some o
              → length o < max
              → Delivers max g t o)
          → Delivers max got s out
      by_read failed e rec = absurd (ground (arith, e))
      by_read (bytes []) e rec = subst (Delivers max got s) (ground (arith, e)) (eof e)
      by_read (bytes (c ∷ cs)) e rec = more e (
          rec (got ++ (c ∷ cs)) (gzread (max - length got) s).0 out
            (omega (arith, length-append got (c ∷ cs))) (ground (arith, e)) small)

  -- Where a file that is open is read into memory, the buffer holds all that the file gives until
  -- its end, it is smaller than the limit, and its length is recorded.
  pub decompress_try_zlib-Delivers :
      (s : S) (d : Inprocess)
      → decompress_try_zlib (some s) ≡ some d
      → Delivers max_inprocess [] s d.buf × (d.len ≡ length d.buf) × (d.len < max_inprocess)
  unfolding decompress_try_zlib decompress_new_inprocess
  decompress_try_zlib-Delivers s d h =
      elim (Option-cases (read_loop max_inprocess max_inprocess [] s)) [
        | inl e ↦ absurd (ground (arith, e))
        | inr (got, e) ↦
            let small : length got < max_inprocess = ground (arith, e) in
            let same : got ≡ d.buf = ground (arith, e) in
            (
              subst (Delivers max_inprocess [] s) same
                  (read_loop-Delivers max_inprocess max_inprocess [] s got (omega arith) e small),
              ground (arith, e),
              ground (arith, e),
            )
      ]
