-- ===== src/Whatis/Display.antt =====
-- The line that display (src/whatis.c) prints, but for its newline, and before convert_to_locale.
use mandb.Base.{
  ℕ, zero, suc, ◌+◌, ◌-◌, ◌/◌, ◌≤◌, ◌<◌, Bool, false, not, ◌&&◌, Option, none, some, [], ◌∷◌, ◌++◌,
  Bytes, codes, ◌≡◌, ◌↔◌, refl, ap, arith, if◌then◌else◌, ltb, leb, length, take, length-append,
  length-take, Bool-cases, inl, inr,
}
use mandb.CString.{streq}

-- "%.*s...", whose precision counts as absent when it is negative.
unfoldable pub shorten : ℕ → Bytes → Bytes
shorten half page_name =
    (if ltb half 3 then page_name else take (half - 3) page_name) ++ codes "..."

unfoldable pub shown_name : ℕ → Bool → Bytes → Bytes
shown_name line_len long_output page_name =
    if not long_output && ltb (line_len / 2) (length page_name)
    then shorten (line_len / 2) page_name
    else page_name

unfoldable pub pointer_part : Bytes → Bytes → Bytes
pointer_part pointer page =
    if not (streq pointer (codes "-")) && not (streq pointer page)
    then codes " [" ++ (pointer ++ codes "]")
    else []

unfoldable pub spaces : ℕ → Bytes
spaces zero = []
spaces (suc n) = b' ' ∷ spaces n

-- Up to 20 columns.
unfoldable pub padded : Bytes → Bytes
padded string = string ++ spaces (20 - length string)

unfoldable pub line_head : ℕ → Bool → Bytes → Bytes → Bytes → Bytes → Bytes
line_head line_len long_output page_name ext pointer page =
    padded (
      shown_name line_len long_output page_name
      ++ (codes " (" ++ (ext ++ (codes ")" ++ pointer_part pointer page))))
    ++ codes " - "

-- The text behind `string`; `rest`, an int, is compared as a size_t, so that it is above all
-- lengths when it is negative. `none` is a write before the start of the text.
unfoldable pub line_of : ℕ → Bool → Bytes → Bytes → Option Bytes
line_of line_len long_output string whatis =
    let rest = line_len - length string in
    if not long_output && (leb (length string) line_len && ltb rest (length whatis))
    then if ltb rest 3 then none else some (string ++ (take (rest - 3) whatis ++ codes "..."))
    else some (string ++ whatis)

unfoldable pub display_line : ℕ → Bool → Bytes → Bytes → Bytes → Bytes → Bytes → Option Bytes
display_line line_len long_output page_name ext pointer page whatis =
    line_of line_len long_output (line_head line_len long_output page_name ext pointer page) whatis

length-spaces : (n : ℕ) → length (spaces n) ≡ n
unfolding spaces
length-spaces zero = refl
length-spaces (suc n) = ap suc (length-spaces n)

-- The head is 23 columns at least.
head_min :
    (line_len : ℕ) (long_output : Bool) (page_name ext pointer page : Bytes)
    → 23 ≤ length (line_head line_len long_output page_name ext pointer page)
unfolding line_head padded
head_min line_len long_output page_name ext pointer page =
    let string =
      shown_name line_len long_output page_name
      ++ (codes " (" ++ (ext ++ (codes ")" ++ pointer_part pointer page))) in
    ground (
      arith,
      length-append (string ++ spaces (20 - length string)) (codes " - "),
      length-append string (spaces (20 - length string)),
      length-spaces (20 - length string),
    )

-- Without -l, when the name, the section and the pointer leave three columns of the line or more,
-- the line that is printed is no longer than the line length.
pub display_line_fits :
    (line_len : ℕ) (page_name ext pointer page whatis : Bytes)
    → length (line_head line_len false page_name ext pointer page) + 3 ≤ line_len
    → (line : Bytes) × (display_line line_len false page_name ext pointer page whatis ≡ some line)
      × (length line ≤ line_len)
unfolding display_line line_of
display_line_fits line_len page_name ext pointer page whatis h =
    let string = line_head line_len false page_name ext pointer page in
    let rest = line_len - length string in
    elim (Bool-cases (ltb rest (length whatis))) [
      | inl e ↦ (
        string ++ (take (rest - 3) whatis ++ codes "..."),
        ground (arith, h, e),
        ground (
          arith,
          h,
          e,
          length-append string (take (rest - 3) whatis ++ codes "..."),
          length-append (take (rest - 3) whatis) (codes "..."),
          length-take (rest - 3) whatis,
        ),
      )
      | inr e ↦ (
        string ++ whatis,
        ground (arith, h, e),
        ground (arith, h, e, length-append string whatis),
      )
    ]

-- The text is written to before its start exactly when, without -l, the line has 23 columns or
-- more, the name, the section and the pointer leave none, one or two columns of it, and the text is
-- longer than that.
pub display_line_underrun :
    (line_len : ℕ) (long_output : Bool) (page_name ext pointer page whatis : Bytes)
    → (display_line line_len long_output page_name ext pointer page whatis ≡ none) ↔ (
        (long_output ≡ false)
        × (23 ≤ line_len)
        × (length (line_head line_len long_output page_name ext pointer page) ≤ line_len)
        × (line_len < length (line_head line_len long_output page_name ext pointer page) + 3)
        × (line_len
            < length (line_head line_len long_output page_name ext pointer page) + length whatis))
unfolding display_line line_of
display_line_underrun line_len long_output page_name ext pointer page whatis =
    let string = line_head line_len long_output page_name ext pointer page in
    let low = head_min line_len long_output page_name ext pointer page in
    (
      (λ h. (
        ground (arith, h),
        ground (arith, h, low),
        ground (arith, h),
        ground (arith, h),
        ground (arith, h),
      )),
      (λ (l, m, a, c, e). ground (arith, l, a, c, e)),
    )
