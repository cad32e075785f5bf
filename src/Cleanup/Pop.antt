-- ===== src/Cleanup/Pop.antt =====
-- pop_cleanup (lib/cleanup.c) and the slots in use.
use mandb.Base.{
  ℕ, zero, suc, ◌-◌, ◌≤◌, ◌&&◌, Option, none, some, List, [], ◌∷◌, ◌==◌, if◌then◌else◌, get_elem?,
  length, take, get_or, ◌≡◌, refl, arith, Option-cases, Bool-cases, ◌∙◌, inl, inr,
}
use mandb.Cleanup.{
  Slot, State, put, shift, find_slot, untrap_if_empty, remove_slot, pop_cleanup,
  untrap_abnormal_exits,
}
use mandb.Cleanup.Slots.{in_use, IsSound, length-put}

-- `xs` without its last slot of that function and argument, if there is one.
unfoldable pub without_last : ℕ → ℕ → List Slot → Option (List Slot)
without_last fun arg [] = none
without_last fun arg (x ∷ xs) = elim (without_last fun arg xs) [
  | some ys ↦ some (x ∷ ys)
  | none ↦ if x.fun == fun && x.arg == arg then some xs else none
]

find_slot-cons :
    (fun arg i : ℕ) (x : Slot) (xs : List Slot)
    → find_slot fun arg (suc i) (x ∷ xs) ≡ elim (find_slot fun arg i xs) [
      | some k ↦ some (suc k)
      | none ↦ if x.fun == fun && x.arg == arg then some 1 else none
    ]
unfolding find_slot
find_slot-cons fun arg zero x xs = ground arith
find_slot-cons fun arg (suc i) x xs = ground (arith, find_slot-cons fun arg i x xs)

shift-cons :
    (n j : ℕ) (x : Slot) (xs : List Slot) → shift n (suc (suc j)) (x ∷ xs) ≡ x ∷ shift n (suc j) xs
unfolding shift put
shift-cons zero j x xs = refl
shift-cons (suc n) j x xs = elim (Option-cases (get_elem? xs (suc j))) [
  | inl e ↦ ground (arith, e)
  | inr (y, e) ↦ ground (arith, e, shift-cons n (suc j) x (put j y xs))
]

take-shift :
    (n : ℕ) (x : Slot) (ys : List Slot) → n ≤ length ys → take n (shift n 1 (x ∷ ys)) ≡ take n ys
unfolding shift put
take-shift zero x ys h = refl
take-shift (suc n) x [] h = ground arith
take-shift (suc n) x (y ∷ ys) h = ground (arith, shift-cons n 0 y (y ∷ ys), take-shift n y ys)

find_slot-bound :
    (fun arg i : ℕ) (xs : List Slot) (k : ℕ) → find_slot fun arg i xs ≡ some k → (1 ≤ k) × (k ≤ i)
unfolding find_slot
find_slot-bound fun arg zero xs k h = ground arith
find_slot-bound fun arg (suc i) xs k h = ground (arith, find_slot-bound fun arg i xs k)

-- What pop_cleanup leaves in use, by what its loop found.
abbrev taken_out : ℕ → List Slot → Option ℕ → Option (List Slot)
taken_out n xs none = none
taken_out n xs (some i) = some (take (n - 1) (shift (n - i) i xs))

take-shift-cons :
    (n k : ℕ) (x : Slot) (xs : List Slot)
    → 1 ≤ k
    → k ≤ n
    → take n (shift (n - k) (suc k) (x ∷ xs)) ≡ x ∷ take (n - 1) (shift (n - k) k xs)
take-shift-cons n zero x xs h h' = absurd (omega arith)
take-shift-cons zero (suc k) x xs h h' = absurd (omega arith)
take-shift-cons (suc n) (suc k) x xs h h' = ground (arith, shift-cons (n - k) k x xs)

-- Taking out the slot that was found takes it out of the slots in use.
without_last-take :
    (fun arg n : ℕ) (xs : List Slot)
    → n ≤ length xs
    → without_last fun arg (take n xs) ≡ taken_out n xs (find_slot fun arg n xs)
unfolding without_last
without_last-take fun arg zero xs h = unfold find_slot in refl
without_last-take fun arg (suc n) [] h = absurd (omega arith)
without_last-take fun arg (suc n) (x ∷ xs) h = elim (Option-cases (find_slot fun arg n xs)) [
  | inl e ↦
      ground
        (arith, e, find_slot-cons fun arg n x xs, without_last-take fun arg n xs, take-shift n x xs)
  | inr (k, e) ↦ ground (
    arith,
    e,
    find_slot-cons fun arg n x xs,
    without_last-take fun arg n xs,
    take-shift-cons n k x xs,
    find_slot-bound fun arg n xs k e,
  )
]

length-shift : (n j : ℕ) (xs : List Slot) → length (shift n j xs) ≡ length xs
unfolding shift
length-shift zero j xs = refl
length-shift (suc n) j xs = elim (Option-cases (get_elem? xs j)) [
  | inl e ↦ ground (arith, e)
  | inr (x, e) ↦
      ground (arith, e, length-shift n (suc j) (put (j - 1) x xs), length-put (j - 1) x xs)
]

remove_slot-in_use :
    (fun arg : ℕ) (s : State)
    → IsSound s
    → in_use (remove_slot (find_slot fun arg s.tos s.stack) s)
      ≡ get_or (in_use s) (without_last fun arg (in_use s))
unfolding remove_slot in_use
remove_slot-in_use fun arg s sound = elim (Option-cases (find_slot fun arg s.tos s.stack)) [
  | inl e ↦
      ground
        (arith, e, without_last-take fun arg s.tos s.stack (omega (arith, sound.size, sound.room)))
  | inr (i, e) ↦
      ground
        (arith, e, without_last-take fun arg s.tos s.stack (omega (arith, sound.size, sound.room)))
]

remove_slot-IsSound : (o : Option ℕ) (s : State) → IsSound s → IsSound (remove_slot o s)
unfolding remove_slot
remove_slot-IsSound none s sound = sound
remove_slot-IsSound (some i) s sound = record {
  size = length-shift (s.tos - i) i s.stack ∙ sound.size;
  room = omega (arith, sound.room);
}

untrap-IsSound :
    (s : State) → IsSound s → IsSound (untrap_if_empty s) × (in_use (untrap_if_empty s) ≡ in_use s)
unfolding untrap_if_empty untrap_abnormal_exits in_use
untrap-IsSound s sound = elim (Bool-cases (s.tos == 0)) [
  | inl e ↦ rw e (record { size = sound.size; room = sound.room }, refl)
  | inr e ↦ rw e (sound, refl)
]

-- From a stack within its bounds that is not empty, pop_cleanup removes the topmost slot of that
-- function and argument, if there is one, leaves the others in their order, and the stack is
-- within its bounds again.
pub pop_cleanup-in_use :
    (fun arg : ℕ) (s : State)
    → IsSound s
    → 1 ≤ s.tos
    → (t : State) × (pop_cleanup fun arg s ≡ some t)
      × (in_use t ≡ get_or (in_use s) (without_last fun arg (in_use s)))
      × IsSound t
unfolding pop_cleanup
pop_cleanup-in_use fun arg s sound used =
    let r : State = remove_slot (find_slot fun arg s.tos s.stack) s in
    let (sound_t, same) =
      untrap-IsSound r (remove_slot-IsSound (find_slot fun arg s.tos s.stack) s sound) in
    (untrap_if_empty r, ground (arith, used), same ∙ remove_slot-in_use fun arg s sound, sound_t)
