-- ===== src/Locale.antt =====
-- struct locale_bits and unpack_locale_bits (src/manp.h and src/manp.c).
pub mod RoundTrip
use mandb.Base.{ℕ, Bool, List, [], ◌∷◌, Bytes, ◌==◌, if◌then◌else◌}
use mandb.CString.{has}

pub record LocaleBits : Type 0 where
  pub language : Bytes
  pub territory : Bytes
  pub codeset : Bytes
  pub modifier : Bytes

-- The loop `while (*p && …) ++p`: the text before the first of `stops`, and that from it on.
unfoldable pub up_to : Bytes → Bytes → Bytes × Bytes
up_to stops [] = ([], [])
up_to stops (c ∷ p) =
    let (part, rest) = up_to stops p in if has c stops then ([], c ∷ p) else (c ∷ part, rest)

-- A part that `mark` introduces, and the text behind it.
unfoldable pub part : ℕ → Bytes → Bytes → Bytes × Bytes
part mark stops [] = ([], [])
part mark stops (c ∷ p) = if c == mark then up_to stops p else ([], c ∷ p)

unfoldable pub unpack_bits : Bytes → Bytes × Bytes → LocaleBits
unpack_bits locale ([], p) = record {
  language = locale;
  territory = [];
  codeset = [];
  modifier = [];
}
unpack_bits locale (c ∷ language, p) =
    let (territory, p1) = part b'_' (b'.' ∷ b'@' ∷ []) p in
    let (codeset, p2) = part b'.' (b'@' ∷ []) p1 in
    let (modifier, p3) = part b'@' [] p2 in
    record {
      language = c ∷ language;
      territory = territory;
      codeset = codeset;
      modifier = modifier;
    }

unfoldable pub unpack_locale_bits : Bytes → LocaleBits
unpack_locale_bits locale = unpack_bits locale (up_to (b'_' ∷ b'.' ∷ b'@' ∷ []) locale)
