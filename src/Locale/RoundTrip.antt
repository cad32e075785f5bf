-- ===== src/Locale/RoundTrip.antt =====
-- Locale names that unpack_locale_bits (src/manp.c) reads back.
use mandb.Base.{ℕ, true, false, [], ◌∷◌, ◌++◌, Bytes, ◌≡◌, ◌≢◌, refl, arith}
use mandb.CString.{has}
use mandb.Locale.{LocaleBits, up_to, part, unpack_bits, unpack_locale_bits}

-- A part with its mark, or nothing.
abbrev pub marked : ℕ → Bytes → Bytes
marked mark [] = []
marked mark (c ∷ s) = mark ∷ c ∷ s

-- The name of a locale, in glibc's form.
abbrev pub locale_name : LocaleBits → Bytes
locale_name bits =
    bits.language
    ++ (marked b'_' bits.territory ++ (marked b'.' bits.codeset ++ marked b'@' bits.modifier))

abbrev NoStop : Bytes → Bytes → Type 0
NoStop stops [] = Unit {0}
NoStop stops (c ∷ s) = (has c stops ≡ false) × NoStop stops s

-- A text that is empty or begins with one of these.
abbrev Stopped : Bytes → Bytes → Type 0
Stopped stops [] = Unit {0}
Stopped stops (c ∷ s) = has c stops ≡ true

up_to-append :
    (stops s rest : Bytes)
    → NoStop stops s
    → Stopped stops rest
    → up_to stops (s ++ rest) ≡ (s, rest)
unfolding up_to
up_to-append stops [] [] n h = refl
up_to-append stops [] (c ∷ rest) n h = rw h refl
up_to-append stops (c ∷ s) rest (n, ns) h = rw (n, up_to-append stops s rest ns h) refl

pub record IsLocale (bits : LocaleBits) : Type 0 where
  pub named : bits.language ≢ []
  pub language : NoStop (b'_' ∷ b'.' ∷ b'@' ∷ []) bits.language
  pub territory : NoStop (b'.' ∷ b'@' ∷ []) bits.territory
  pub codeset : NoStop (b'@' ∷ []) bits.codeset

abbrev NotFirst : ℕ → Bytes → Type 0
NotFirst mark [] = Unit {0}
NotFirst mark (c ∷ s) = c ≢ mark

part-marked :
    (mark : ℕ) (stops s rest : Bytes)
    → NoStop stops s
    → Stopped stops rest
    → NotFirst mark rest
    → part mark stops (marked mark s ++ rest) ≡ (s, rest)
unfolding part
part-marked mark stops [] [] n h k = refl
part-marked mark stops [] (c ∷ rest) n h k = ground (arith, k)
part-marked mark stops (c ∷ s) rest n h k = ground (arith, up_to-append stops (c ∷ s) rest n h)

up_to_all : (s : Bytes) → up_to [] s ≡ (s, [])
unfolding up_to has
up_to_all [] = refl
up_to_all (c ∷ s) = rw (up_to_all s) refl

last_part : (m : Bytes) → part b'@' [] (marked b'@' m) ≡ (m, [])
unfolding part
last_part [] = refl
last_part (c ∷ m) = up_to_all (c ∷ m)

behind_territory :
    (c m : Bytes)
    → Stopped (b'.' ∷ b'@' ∷ []) (marked b'.' c ++ marked b'@' m)
      × NotFirst b'_' (marked b'.' c ++ marked b'@' m)
unfolding has
behind_territory [] [] = (tt, tt)
behind_territory [] (x ∷ m) = (refl, ground arith)
behind_territory (x ∷ c) m = (refl, ground arith)

behind_codeset : (m : Bytes) → Stopped (b'@' ∷ []) (marked b'@' m) × NotFirst b'.' (marked b'@' m)
unfolding has
behind_codeset [] = (tt, tt)
behind_codeset (x ∷ m) = (refl, ground arith)

behind_language :
    (t c m : Bytes)
    → Stopped (b'_' ∷ b'.' ∷ b'@' ∷ []) (marked b'_' t ++ (marked b'.' c ++ marked b'@' m))
unfolding has
behind_language [] [] [] = tt
behind_language [] [] (x ∷ m) = refl
behind_language [] (x ∷ c) m = refl
behind_language (x ∷ t) c m = refl

unpack_parts :
    (locale l t c m : Bytes)
    → l ≢ []
    → NoStop (b'.' ∷ b'@' ∷ []) t
    → NoStop (b'@' ∷ []) c
    → unpack_bits locale (l, marked b'_' t ++ (marked b'.' c ++ marked b'@' m))
      ≡ record { language = l; territory = t; codeset = c; modifier = m }
unfolding unpack_bits
unpack_parts locale [] t c m n nt nc = absurd (n refl)
unpack_parts locale (x ∷ l) t c m n nt nc =
    let (st, ft) = behind_territory c m in
    let (sc, fc) = behind_codeset m in
    rw
      (
        part-marked b'_' (b'.' ∷ b'@' ∷ []) t (marked b'.' c ++ marked b'@' m) nt st ft,
        part-marked b'.' (b'@' ∷ []) c (marked b'@' m) nc sc fc,
        last_part m,
      )
      refl

-- The parts of a locale's name, of which the language is not empty and has none of "_.@", the
-- territory none of ".@" and the codeset no "@", are what unpack_locale_bits reads off the name.
pub unpack_locale_bits-locale_name :
    (bits : LocaleBits) → IsLocale bits → unpack_locale_bits (locale_name bits) ≡ bits
unfolding unpack_locale_bits
unpack_locale_bits-locale_name bits v =
    let t = bits.territory in
    let c = bits.codeset in
    let m = bits.modifier in
    rw
      (up_to-append (b'_' ∷ b'.' ∷ b'@' ∷ []) bits.language
        (marked b'_' t ++ (marked b'.' c ++ marked b'@' m)) v.language (behind_language t c m))
      (unpack_parts (locale_name bits) bits.language t c m v.named v.territory v.codeset)
