-- ===== src/CString/Long.antt =====
-- `%ld` of xasprintf and atol, on a 64-bit long.
use mandb.Base.{
  ℕ, zero, suc, ◌+◌, ◌-◌, ◌*◌, ◌/◌, ◌%◌, ◌^◌, ◌≤◌, ◌<◌, [], ◌∷◌, ◌≡◌, ◌∙◌, refl, arith, ◌==◌, ltb,
  Bytes, if◌then◌else◌, Lacks, Bool-cases, inl, inr,
}
use mandb.Base.Int.{ℤ, pos, negsuc}
use mandb.CString.{is_digit, is_space}

-- The decimal digits of a number in front of `out`; the fuel is more than the number.
digits : ℕ → ℕ → Bytes → Bytes
digits zero n out = out
digits (suc f) n out =
    let more = digits f (n / 10) ((b'0' + n % 10) ∷ out) in
    if ltb n 10 then (b'0' + n) ∷ out else more

abbrev print_nat : ℕ → Bytes
print_nat n = digits (suc n) n []

unfoldable pub print_long : ℤ → Bytes
unfolding digits
print_long (pos n) = print_nat n
print_long (negsuc n) = b'-' ∷ print_nat (suc n)

-- The value of the digits at the front of the string, behind `n`.
scan : ℕ → Bytes → ℕ
unfolding is_digit
scan n [] = n
scan n (c ∷ s) = let more = scan (n * 10 + (c - b'0')) s in if is_digit c then more else n

abbrev long_max : ℕ
long_max = 2 ^ 63 - 1

-- Out of range the result is the nearest long.
positive : ℕ → ℤ
positive n = if ltb long_max n then pos long_max else pos n

negative : ℕ → ℤ
negative zero = pos 0
negative (suc n) = if ltb long_max n then negsuc long_max else negsuc n

signed : Bytes → ℤ
unfolding scan positive negative
signed [] = pos 0
signed (c ∷ s) =
    if c == b'-'
    then negative (scan 0 s)
    else if c == b'+'
    then positive (scan 0 s)
    else positive (scan 0 (c ∷ s))

unfoldable pub atol : Bytes → ℤ
unfolding is_space signed
atol [] = pos 0
atol (c ∷ s) = if is_space c then atol s else signed (c ∷ s)

abbrev pub IsLong : ℤ → Type 0
IsLong (pos n) = n ≤ long_max
IsLong (negsuc n) = n ≤ long_max

scan-digits : (f n : ℕ) (out : Bytes) → n < f → scan 0 (digits f n out) ≡ scan n out
unfolding scan digits
scan-digits zero n out h = absurd (omega arith)
scan-digits (suc f) n out h = ground (arith, scan-digits f (n / 10) ((b'0' + n % 10) ∷ out))

-- A number's print begins with a digit.
digits-head :
    (f n : ℕ) (out : Bytes)
    → n < f
    → (c : ℕ) × (s : Bytes) × (digits f n out ≡ c ∷ s) × (b'0' ≤ c) × (c ≤ b'9')
unfolding digits
digits-head zero n out h = absurd (omega arith)
digits-head (suc f) n out h = elim (Bool-cases (ltb n 10)) [
  | inl small ↦ (b'0' + n, out, rw small refl, omega arith, ground arith)
  | inr large ↦ rw large (digits-head f (n / 10) ((b'0' + n % 10) ∷ out) (ground arith))
]

print_nat-scan : (n : ℕ) → scan 0 (print_nat n) ≡ n
print_nat-scan n = scan-digits (suc n) n [] (omega arith) ∙ unfold scan in refl

-- atol reads back every long that `%ld` printed.
pub atol-print_long : (z : ℤ) → IsLong z → atol (print_long z) ≡ z
unfolding atol print_long
atol-print_long (pos n) h =
    let (c, s, e, lo, hi) = digits-head (suc n) n [] (omega arith) in
    ground (arith, e, print_nat-scan n)
atol-print_long (negsuc n) h = ground (arith, print_nat-scan (suc n))

digits-Lacks : (f n b : ℕ) (out : Bytes) → b < b'0' → n < f → Lacks b out → Lacks b (digits f n out)
unfolding digits
digits-Lacks zero n b out small h l = absurd (omega arith)
digits-Lacks (suc f) n b out small h l =
    ground (arith, digits-Lacks f (n / 10) b ((b'0' + n % 10) ∷ out))

-- A print holds no tab.
pub print_long-Lacks : (z : ℤ) → Lacks 9 (print_long z)
unfolding print_long
print_long-Lacks (pos n) = digits-Lacks (suc n) n 9 [] (omega arith) (omega arith) tt
print_long-Lacks (negsuc n) =
    (omega arith, digits-Lacks (suc (suc n)) (suc n) 9 [] (omega arith) (omega arith) tt)
