-- ===== src/Descriptions/Render.antt =====
-- parse_descriptions on a line as lexgrog writes it: names parted by ", ", " - " and a description.
use mandb.Base.{
  Bool, true, false, ◌||◌, if◌then◌else◌, Bool-cases, inl, inr, ℕ, suc, false, Option, none, some,
  List, [], ◌∷◌, ◌++◌, Bytes, map, length, drop, ◌≡◌, ◌≢◌, ◌∙◌, refl, sym, ap, arith, All,
  All-append, Lacks, append_assoc, append-nil,
}
use mandb.CString.{has, strstr, starts_with}
use mandb.CString.Search.{before-Lacks_eq, behind-Lacks_eq}
use mandb.Descriptions.{
  PageDescription, Parsed, skip_spaces, drop_spaces, trim_spaces, tokens, add_name, add_names,
  add_record, dash, skip_separators, parse_records, add_base, parse_descriptions, is_base,
  first_whatis,
}

-- A byte that has no meaning of its own in a name: not a space, a comma, a tab or the byte 0x11.
abbrev pub IsPlain : ℕ → Type 0
IsPlain c = (c ≢ b' ') × ((c ≢ b',') × ((c ≢ 9) × (c ≢ 17)))

abbrev pub IsName : Bytes → Type 0
IsName [] = ⊥
IsName (c ∷ cs) = (c ≢ b'-') × (IsPlain c × All IsPlain cs)

-- The names parted by a comma and a space.
abbrev pub names_text : Bytes → List Bytes → Bytes
names_text n [] = n
names_text n (m ∷ ms) = n ++ (b',' ∷ b' ' ∷ names_text m ms)

abbrev pub line_text : Bytes → List Bytes → Bytes → Bytes
line_text n ns w = names_text n ns ++ (b' ' ∷ b'-' ∷ b' ' ∷ w)

strstr-plain :
    (a rest x y : Bytes)
    → All IsPlain a
    → strstr dash rest ≡ some (x, y)
    → strstr dash (a ++ rest) ≡ some (a ++ x, y)
unfolding strstr starts_with
strstr-plain [] rest x y h e = e
strstr-plain (c ∷ a) rest x y (h, hs) e = ground (arith, strstr-plain a rest x y hs e)

IsName-IsPlain : (n : Bytes) → IsName n → All IsPlain n
IsName-IsPlain [] h = absurd h
IsName-IsPlain (c ∷ cs) (h, hs) = hs

-- No " - " starts at the space before a name.
no_dash :
    (c : ℕ) (cs : Bytes) (ms : List Bytes) (r : Bytes)
    → c ≢ b'-'
    → starts_with dash (b' ' ∷ (names_text (c ∷ cs) ms ++ r)) ≡ false
unfolding starts_with
no_dash c cs [] r h = ground arith
no_dash c cs (m ∷ ms) r h = ground arith

strstr-step :
    (c : ℕ) (s x y : Bytes)
    → starts_with dash (c ∷ s) ≡ false
    → strstr dash s ≡ some (x, y)
    → strstr dash (c ∷ s) ≡ some (c ∷ x, y)
unfolding strstr
strstr-step c s x y h e = ground (arith, h, e)

strstr-parted :
    (c : ℕ) (cs : Bytes) (ms : List Bytes) (r x y : Bytes)
    → c ≢ b'-'
    → strstr dash (names_text (c ∷ cs) ms ++ r) ≡ some (x, y)
    → strstr dash (b',' ∷ b' ' ∷ (names_text (c ∷ cs) ms ++ r)) ≡ some (b',' ∷ b' ' ∷ x, y)
unfolding starts_with
strstr-parted c cs ms r x y h e =
    strstr-step b',' (b' ' ∷ (names_text (c ∷ cs) ms ++ r)) (b' ' ∷ x) y refl
      (strstr-step b' ' (names_text (c ∷ cs) ms ++ r) x y (no_dash c cs ms r h) e)

-- The first " - " is the one behind the names.
strstr-line :
    (n : Bytes) (ns : List Bytes) (r : Bytes)
    → IsName n
    → All IsName ns
    → strstr dash (names_text n ns ++ (b' ' ∷ b'-' ∷ b' ' ∷ r))
      ≡ some (names_text n ns, b' ' ∷ b'-' ∷ b' ' ∷ r)
strstr-line n [] r h hs =
    strstr-plain n (b' ' ∷ b'-' ∷ b' ' ∷ r) [] (b' ' ∷ b'-' ∷ b' ' ∷ r) (IsName-IsPlain n h) at_dash
    ∙ ap (λ a. some (a, b' ' ∷ b'-' ∷ b' ' ∷ r)) (append-nil n)
  where
    at_dash : strstr dash (b' ' ∷ b'-' ∷ b' ' ∷ r) ≡ some ([], b' ' ∷ b'-' ∷ b' ' ∷ r)
    at_dash = unfold strstr starts_with in refl
strstr-line n ([] ∷ ms) r h (h', hs) = absurd h'
strstr-line n ((c ∷ cs) ∷ ms) r h ((h', hc), hs) =
    ap (strstr dash)
      (append_assoc n (b',' ∷ b' ' ∷ names_text (c ∷ cs) ms) (b' ' ∷ b'-' ∷ b' ' ∷ r))
    ∙ strstr-plain n (b',' ∷ b' ' ∷ (names_text (c ∷ cs) ms ++ (b' ' ∷ b'-' ∷ b' ' ∷ r)))
        (b',' ∷ b' ' ∷ names_text (c ∷ cs) ms) (b' ' ∷ b'-' ∷ b' ' ∷ r) (IsName-IsPlain n h)
        (strstr-parted c cs ms (b' ' ∷ b'-' ∷ b' ' ∷ r) (names_text (c ∷ cs) ms)
          (b' ' ∷ b'-' ∷ b' ' ∷ r) h' (strstr-line (c ∷ cs) ms r (h', hc) hs))

tokens-plain :
    (a word rest : Bytes) → All IsPlain a → tokens word (a ++ rest) ≡ tokens (word ++ a) rest
unfolding tokens
tokens-plain [] word rest h = ap (λ x. tokens x rest) (sym (append-nil word))
tokens-plain (c ∷ a) [] rest (h, hs) = ground (arith, tokens-plain a (c ∷ []) rest hs)
tokens-plain (c ∷ a) (x ∷ word) rest (h, hs) =
    ground (arith, tokens-plain a (x ∷ (word ++ (c ∷ []))) rest hs, append_assoc word (c ∷ []) a)

abbrev spaced : Bytes → Bytes
spaced n = b' ' ∷ n

token_end :
    (word : Bytes) (c : ℕ) (cs : Bytes) → tokens (word ++ (c ∷ cs)) [] ≡ (word ++ (c ∷ cs)) ∷ []
unfolding tokens
token_end [] c cs = refl
token_end (x ∷ word) c cs = refl

token_comma :
    (word : Bytes) (c : ℕ) (cs rest : Bytes)
    → tokens (word ++ (c ∷ cs)) (b',' ∷ b' ' ∷ rest) ≡ (word ++ (c ∷ cs)) ∷ tokens (b' ' ∷ []) rest
unfolding tokens
token_comma [] c cs rest = refl
token_comma (x ∷ word) c cs rest = refl

tokens-names :
    (n : Bytes) (ns : List Bytes) (word : Bytes)
    → IsName n
    → All IsName ns
    → tokens word (names_text n ns) ≡ (word ++ n) ∷ map spaced ns
tokens-names [] ns word h hs = absurd h
tokens-names (c ∷ cs) [] word h hs =
    ap (tokens word) (sym (append-nil (c ∷ cs)))
    ∙ tokens-plain (c ∷ cs) word [] (IsName-IsPlain (c ∷ cs) h)
    ∙ token_end word c cs
tokens-names (c ∷ cs) (m ∷ ms) word h (h', hs) =
    tokens-plain (c ∷ cs) word (b',' ∷ b' ' ∷ names_text m ms) (IsName-IsPlain (c ∷ cs) h)
    ∙ token_comma word c cs (names_text m ms)
    ∙ ap (◌∷◌ (word ++ (c ∷ cs))) (tokens-names m ms (b' ' ∷ []) h' hs)

drop_spaces-plain : (n : Bytes) → All IsPlain n → drop_spaces n ≡ n
unfolding drop_spaces
drop_spaces-plain [] h = refl
drop_spaces-plain (c ∷ cs) (h, hs) = ground (arith, drop_spaces-plain cs hs)

trim_spaces-name : (n : Bytes) → IsName n → trim_spaces n ≡ n
unfolding trim_spaces skip_spaces
trim_spaces-name [] h = absurd h
trim_spaces-name (c ∷ cs) (h, (hc, hs)) = ground (arith, drop_spaces-plain (c ∷ cs) (hc, hs))

trim_spaces-spaced : (n : Bytes) → IsName n → trim_spaces (spaced n) ≡ n
unfolding trim_spaces skip_spaces
trim_spaces-spaced [] h = absurd h
trim_spaces-spaced (c ∷ cs) (h, (hc, hs)) = ground (arith, drop_spaces-plain (c ∷ cs) (hc, hs))

has-plain : (d : ℕ) (n : Bytes) → Lacks d n → has d n ≡ false
unfolding has
has-plain d [] h = refl
has-plain d (c ∷ n) (h, hs) = ground (arith, has-plain d n hs)

Lacks-space : (n : Bytes) → All IsPlain n → Lacks b' ' n × (Lacks 9 n × Lacks 17 n)
Lacks-space [] h = (tt, (tt, tt))
Lacks-space (c ∷ n) (h, hs) =
    let (a, (b, d)) = Lacks-space n hs in ((h.0, a), ((h.1.1.0, b), (h.1.1.1, d)))

-- The entry of a name.
abbrev pub described : Bytes → Bytes → PageDescription
described w n = record { name = n; whatis = some w }

-- Whether one of the names is the base name.
unfoldable pub any_base : Option Bytes → List Bytes → Bool
any_base base [] = false
any_base base (n ∷ ns) = is_base base n || any_base base ns

or_assoc : (a b c : Bool) → ((a || b) || c) ≡ (a || (b || c))
or_assoc true b c = refl
or_assoc false b c = refl

or_false : (a : Bool) → (a || false) ≡ a
or_false true = refl
or_false false = refl

add_name-name :
    (base : Option Bytes) (w t n : Bytes) (p : Parsed)
    → IsName n
    → trim_spaces t ≡ n
    → add_name base (some w) t p ≡ record {
      descs = p.descs ++ (described w n ∷ []);
      seen_base = p.seen_base || is_base base n;
    }
unfolding add_name
add_name-name base w t n p h e =
    let lacks = Lacks-space n (IsName-IsPlain n h) in
    ground (arith, e, has-plain b' ' n lacks.0, has-plain 9 n lacks.1.0)

add_names-spaced :
    (base : Option Bytes) (w : Bytes) (ns : List Bytes) (p : Parsed)
    → All IsName ns
    → add_names base (some w) (map spaced ns) p ≡ record {
      descs = p.descs ++ map (described w) ns;
      seen_base = p.seen_base || any_base base ns;
    }
unfolding add_names any_base
add_names-spaced base w [] p h =
    ap (λ (ds : List PageDescription). record { descs = ds; seen_base = p.seen_base })
      (sym (append-nil p.descs))
    ∙ ap (λ (s : Bool). record { descs = p.descs ++ []; seen_base = s })
        (sym (or_false p.seen_base))
add_names-spaced base w (n ∷ ns) p (h, hs) =
    ap (add_names base (some w) (map spaced ns))
      (add_name-name base w (spaced n) n p h (trim_spaces-spaced n h))
    ∙ add_names-spaced base w ns
        record {
          descs = p.descs ++ (described w n ∷ []);
          seen_base = p.seen_base || is_base base n;
        }
        hs
    ∙ ap
        (λ (ds : List PageDescription). record {
          descs = ds;
          seen_base = (p.seen_base || is_base base n) || any_base base ns;
        })
        (append_assoc p.descs (described w n ∷ []) (map (described w) ns))
    ∙ ap (λ (s : Bool). record { descs = p.descs ++ map (described w) (n ∷ ns); seen_base = s })
        (or_assoc p.seen_base (is_base base n) (any_base base ns))

abbrev nothing : Parsed
nothing = record { descs = []; seen_base = false }

add_record-dash :
    (base : Option Bytes) (text names rest : Bytes) (p : Parsed)
    → strstr dash text ≡ some (names, rest)
    → add_record base text p ≡ add_names base (some (trim_spaces (drop 3 rest))) (tokens [] names) p
unfolding add_record
add_record-dash base text names rest p h = ground (arith, h)

add_record-line :
    (base : Option Bytes) (n : Bytes) (ns : List Bytes) (w : Bytes)
    → IsName n
    → All IsName ns
    → trim_spaces w ≡ w
    → add_record base (line_text n ns w) nothing
      ≡ record { descs = map (described w) (n ∷ ns); seen_base = any_base base (n ∷ ns) }
unfolding add_names any_base
add_record-line base n ns w h hs trimmed =
    add_record-dash base (line_text n ns w) (names_text n ns) (b' ' ∷ b'-' ∷ b' ' ∷ w) nothing
      (strstr-line n ns w h hs)
    ∙ ap (λ x. add_names base (some x) (tokens [] (names_text n ns)) nothing) trimmed
    ∙ ap (λ ts. add_names base (some w) ts nothing) (tokens-names n ns [] h hs)
    ∙ ap (add_names base (some w) (map spaced ns))
        (add_name-name base w n n nothing h (trim_spaces-name n h))
    ∙ add_names-spaced base w ns record { descs = described w n ∷ []; seen_base = is_base base n }
        hs

parse_records-one :
    (f c : ℕ) (base : Option Bytes) (s : Bytes)
    → c ≢ b' '
    → Lacks 17 (c ∷ s)
    → parse_records (suc f) base (c ∷ s) nothing ≡ add_record base (c ∷ s) nothing
unfolding parse_records skip_separators
parse_records-one f c base s h lacks =
    ground (arith, before-Lacks_eq 17 (c ∷ s) lacks, behind-Lacks_eq 17 (c ∷ s) lacks)

Lacks-names : (n : Bytes) (ns : List Bytes) → IsName n → All IsName ns → Lacks 17 (names_text n ns)
Lacks-names n [] h hs = (Lacks-space n (IsName-IsPlain n h)).1.1
Lacks-names n (m ∷ ms) h (h', hs) =
    All-append (λ c. c ≢ 17) n (b',' ∷ b' ' ∷ names_text m ms)
      (Lacks-space n (IsName-IsPlain n h)).1.1 (omega arith, (omega arith, Lacks-names m ms h' hs))

Lacks-line :
    (n : Bytes) (ns : List Bytes) (w : Bytes)
    → IsName n
    → All IsName ns
    → Lacks 17 w
    → Lacks 17 (line_text n ns w)
Lacks-line n ns w h hs lacks =
    All-append (λ c. c ≢ 17) (names_text n ns) (b' ' ∷ b'-' ∷ b' ' ∷ w) (Lacks-names n ns h hs)
      (omega arith, (omega arith, (omega arith, lacks)))

-- The entry for the base name where no name is it.
abbrev pub base_entry : Option Bytes → Bytes → List Bytes → List PageDescription
base_entry none w names = []
base_entry (some b) w names = if any_base (some b) names then [] else described w b ∷ []

add_base-entry :
    (base : Option Bytes) (w n : Bytes) (ns : List Bytes)
    → add_base base
        record { descs = map (described w) (n ∷ ns); seen_base = any_base base (n ∷ ns) }
      ≡ map (described w) (n ∷ ns) ++ base_entry base w (n ∷ ns)
unfolding add_base first_whatis
add_base-entry none w n ns = sym (append-nil (map (described w) (n ∷ ns)))
add_base-entry (some b) w n ns = elim (Bool-cases (any_base (some b) (n ∷ ns))) [
  | inl e ↦ rw e (sym (append-nil (map (described w) (n ∷ ns))))
  | inr e ↦ rw e refl
]

-- A line of names parted by ", ", then " - " and a description, gives those names in their order,
-- each with that description, and behind them the base name with it, if there is one and it is none
-- of the names; where no name is empty, starts with '-' or has a space, comma, tab or byte 0x11 in
-- it, and the description has neither the byte 0x11 nor spaces at its ends.
pub parse_descriptions-line_text :
    (base : Option Bytes) (n : Bytes) (ns : List Bytes) (w : Bytes)
    → IsName n
    → All IsName ns
    → Lacks 17 w
    → trim_spaces w ≡ w
    → parse_descriptions base (some (line_text n ns w))
      ≡ map (described w) (n ∷ ns) ++ base_entry base w (n ∷ ns)
unfolding parse_descriptions
parse_descriptions-line_text base [] ns w h hs lacks trimmed = absurd h
parse_descriptions-line_text base (c ∷ cs) [] w h hs lacks trimmed =
    ap (add_base base) (
      parse_records-one (length (line_text (c ∷ cs) [] w)) c base (cs ++ (b' ' ∷ b'-' ∷ b' ' ∷ w))
        h.1.0.0 (Lacks-line (c ∷ cs) [] w h hs lacks)
      ∙ add_record-line base (c ∷ cs) [] w h hs trimmed)
    ∙ add_base-entry base w (c ∷ cs) []
parse_descriptions-line_text base (c ∷ cs) (m ∷ ms) w h hs lacks trimmed =
    ap (add_base base) (
      parse_records-one (length (line_text (c ∷ cs) (m ∷ ms) w)) c base
        ((cs ++ (b',' ∷ b' ' ∷ names_text m ms)) ++ (b' ' ∷ b'-' ∷ b' ' ∷ w)) h.1.0.0
        (Lacks-line (c ∷ cs) (m ∷ ms) w h hs lacks)
      ∙ add_record-line base (c ∷ cs) (m ∷ ms) w h hs trimmed)
    ∙ add_base-entry base w (c ∷ cs) (m ∷ ms)
