-- ===== src/Descriptions/Names.antt =====
-- The names that parse_descriptions (src/descriptions.c) lists, and its rounds.
use mandb.Base.{
  ℕ, zero, suc, ◌≤◌, ◌<◌, Bool, true, false, ◌||◌, Option, none, some, List, [], ◌∷◌, ◌++◌, Bytes,
  length, ◌≡◌, ◌⊎◌, ◌∙◌, refl, drop, arith, All, All-append, Bool-cases, inl, inr,
}
use mandb.CString.{has, before, behind, strstr}
use mandb.CString.Compare.{streq_refl}
use mandb.Descriptions.{
  PageDescription, Parsed, trim_spaces, tokens, is_base, add_base, add_name, add_names, add_record,
  dash, skip_separators, parse_records, parse_descriptions,
}

skip_separators-length : (s : Bytes) → length (skip_separators s) ≤ length s
unfolding skip_separators
skip_separators-length [] = omega arith
skip_separators-length (c ∷ s) = ground (arith, skip_separators-length s)

behind-length : (d : ℕ) (s rest : Bytes) → behind d s ≡ some rest → length rest < length s
unfolding behind
behind-length d [] rest h = ground arith
behind-length d (c ∷ s) rest h = ground (arith, behind-length d s rest)

record_length :
    (s : Bytes) (c : ℕ) (cs rest : Bytes)
    → before 17 s ≡ c ∷ cs
    → behind 17 s ≡ some rest
    → suc (suc (length rest)) ≤ length s
unfolding before behind
record_length [] c cs rest h h' = ground arith
record_length (x ∷ s) c cs rest h h' = ground (arith, behind-length 17 s rest)

-- A name that may be listed: it has neither a space nor a tab, or it is the base name.
abbrev pub IsListable : Option Bytes → PageDescription → Type 0
IsListable base d = ((has b' ' d.name ≡ false) × (has 9 d.name ≡ false)) ⊎ (base ≡ some d.name)

-- What holds between the records: the names are listable, and seen_base tells whether the base name is among them.
abbrev pub is_listed : Option Bytes → List PageDescription → Bool
is_listed base [] = false
is_listed base (d ∷ ds) = is_base base d.name || is_listed base ds

record IsParsed (base : Option Bytes) (p : Parsed) : Type 0 where
  listable : All (IsListable base) p.descs
  seen : is_listed base p.descs ≡ p.seen_base

is_listed-append :
    (base : Option Bytes) (a b : List PageDescription)
    → is_listed base (a ++ b) ≡ (is_listed base a || is_listed base b)
is_listed-append base [] b = refl
is_listed-append base (d ∷ a) b = ground (arith, is_listed-append base a b)

add_name-IsParsed :
    (base whatis : Option Bytes) (t : Bytes) (p : Parsed)
    → IsParsed base p
    → IsParsed base (add_name base whatis t p)
unfolding add_name
add_name-IsParsed base whatis t p h =
    elim (Bool-cases (has b' ' (trim_spaces t) || has 9 (trim_spaces t))) [
      | inl e ↦ rw e h
      | inr e ↦ rw e record {
        listable =
            All-append (IsListable base) p.descs _ h.listable
              (inl (ground (arith, e), ground (arith, e)), tt);
        seen = is_listed-append base p.descs _ ∙ ground (arith, h.seen);
      }
    ]

add_names-IsParsed :
    (base whatis : Option Bytes) (ts : List Bytes) (p : Parsed)
    → IsParsed base p
    → IsParsed base (add_names base whatis ts p)
unfolding add_names
add_names-IsParsed base whatis [] p h = h
add_names-IsParsed base whatis (t ∷ ts) p h =
    add_names-IsParsed base whatis ts (add_name base whatis t p)
      (add_name-IsParsed base whatis t p h)

add_record-IsParsed :
    (base : Option Bytes) (text : Bytes) (p : Parsed)
    → IsParsed base p
    → IsParsed base (add_record base text p)
unfolding add_record
add_record-IsParsed base text p h = by_dash (strstr dash text)
  where
    by_size :
        (ds : List PageDescription)
        → IsParsed base (elim ds [ [] ↦ add_names base none (tokens [] text) p | d ∷ r ↦ p ])
    by_size [] = add_names-IsParsed base none (tokens [] text) p h
    by_size (d ∷ r) = h

    by_dash :
        (o : Option (Bytes × Bytes))
        → IsParsed base (elim o [
          | some (names, rest) ↦
              add_names base (some (trim_spaces (drop 3 rest))) (tokens [] names) p
          | none ↦ elim p.descs [ [] ↦ add_names base none (tokens [] text) p | d ∷ ds ↦ p ]
        ])
    by_dash none = by_size p.descs
    by_dash (some (names, rest)) =
        add_names-IsParsed base (some (trim_spaces (drop 3 rest))) (tokens [] names) p h

parse_records-IsParsed :
    (f : ℕ) (base : Option Bytes) (sep : Bytes) (p : Parsed)
    → IsParsed base p
    → IsParsed base (parse_records f base sep p)
unfolding parse_records
parse_records-IsParsed zero base sep p h = h
parse_records-IsParsed (suc f) base sep p h =
    by_text (before 17 (skip_separators sep)) (behind 17 (skip_separators sep))
      (parse_records-IsParsed f base)
  where
    by_text :
        (text : Bytes) (next : Option Bytes)
        → ((s : Bytes) (q : Parsed) → IsParsed base q → IsParsed base (parse_records f base s q))
        → IsParsed base (elim text [
          | [] ↦ p
          | c ∷ cs ↦ elim next [
            | none ↦ add_record base (c ∷ cs) p
            | some rest ↦ parse_records f base (17 ∷ rest) (add_record base (c ∷ cs) p)
          ]
        ])
    by_text [] next rec = h
    by_text (c ∷ cs) none rec = add_record-IsParsed base (c ∷ cs) p h
    by_text (c ∷ cs) (some rest) rec =
        rec (17 ∷ rest) (add_record base (c ∷ cs) p) (add_record-IsParsed base (c ∷ cs) p h)

-- Each name that parse_descriptions lists has neither a space nor a tab, or is the base name.
parse_descriptions-IsListable :
    (base whatis : Option Bytes) → All (IsListable base) (parse_descriptions base whatis)
unfolding parse_descriptions
parse_descriptions-IsListable base none = tt
parse_descriptions-IsListable base (some w) =
    by_base base (parse_records (suc (length w)) base w record { descs = []; seen_base = false }) (
      parse_records-IsParsed (suc (length w)) base w record { descs = []; seen_base = false }
        record { listable = tt; seen = refl })
  where
    by_base : (o : Option Bytes) (p : Parsed) → IsParsed o p → All (IsListable o) (add_base o p)
    by_base none p h = unfold add_base in h.listable
    by_base (some b) p h = elim (Bool-cases p.seen_base) [
      | inl e ↦ unfold add_base in rw e h.listable
      | inr e ↦
          unfold add_base in
          rw e (All-append (IsListable (some b)) p.descs _ h.listable (inr refl, tt))
    ]

-- Where there is a text and a base name, the base name is among the names that parse_descriptions
-- lists.
parse_descriptions-base :
    (b whatis : Bytes) → is_listed (some b) (parse_descriptions (some b) (some whatis)) ≡ true
unfolding parse_descriptions
parse_descriptions-base b w =
    listed_after
      (parse_records (suc (length w)) (some b) w record { descs = []; seen_base = false })
      (parse_records-IsParsed (suc (length w)) (some b) w record { descs = []; seen_base = false }
        record { listable = tt; seen = refl })
  where
    base_itself : is_base (some b) b ≡ true
    base_itself = unfold is_base in streq_refl b

    listed_after :
        (p : Parsed) → IsParsed (some b) p → is_listed (some b) (add_base (some b) p) ≡ true
    listed_after p h = elim (Bool-cases p.seen_base) [
      | inl e ↦ unfold add_base in rw e (h.seen ∙ e)
      | inr e ↦
          unfold add_base in
          rw e (is_listed-append (some b) p.descs _ ∙ ground (arith, base_itself))
    ]

-- Where there are more rounds than bytes in the text, one round more makes no difference.
parse_records_enough :
    (f : ℕ) (base : Option Bytes) (sep : Bytes) (p : Parsed)
    → length sep < f
    → parse_records (suc f) base sep p ≡ parse_records f base sep p
unfolding parse_records
parse_records_enough zero base sep p h = absurd (omega arith)
parse_records_enough (suc f) base sep p h =
    by_text (before 17 (skip_separators sep)) refl (behind 17 (skip_separators sep)) refl
      (parse_records_enough f base)
  where
    round : ℕ → Bytes → Option Bytes → Parsed
    round g text next = elim text [
      | [] ↦ p
      | c ∷ cs ↦ elim next [
        | none ↦ add_record base (c ∷ cs) p
        | some rest ↦ parse_records g base (17 ∷ rest) (add_record base (c ∷ cs) p)
      ]
    ]

    by_text :
        (text : Bytes)
        → before 17 (skip_separators sep) ≡ text
        → (next : Option Bytes) → behind 17 (skip_separators sep) ≡ next
        → ((s : Bytes) (q : Parsed)
            → length s < f
            → parse_records (suc f) base s q ≡ parse_records f base s q)
        → round (suc f) text next ≡ round f text next
    by_text [] e next e' rec = refl
    by_text (c ∷ cs) e none e' rec = refl
    by_text (c ∷ cs) e (some rest) e' rec = rec (17 ∷ rest) (add_record base (c ∷ cs) p) (
        omega
          (arith, record_length (skip_separators sep) c cs rest e e', skip_separators-length sep))
