-- ===== src/Cleanup/Push.antt =====
-- push_cleanup (lib/cleanup.c) and the slots in use.
use mandb.Base.{
  ℕ, zero, suc, ◌≤◌, ◌<◌, Bool, true, false, List, [], ◌∷◌, ◌++◌, ◌==◌, if◌then◌else◌, length, take,
  ◌≡◌, refl, arith, length-append, Bool-cases, ◌≢◌, ◌⊎◌, sym, append-nil, subst, inl, inr,
}
use mandb.Cleanup.{
  Slot, State, put, uninitialised, store_slot, store_or_grow, push_cleanup, trap_abnormal_exits,
}
use mandb.Cleanup.Slots.{in_use, IsSound, length-put}

dec_eq : (a b : ℕ) → (a ≡ b) ⊎ (a ≢ b)
dec_eq a b = elim (Bool-cases (a == b)) [
  | inl e ↦ inl (ground (arith, e))
  | inr e ↦ inr (λ h. absurd (ground (arith, e, h)))
]

eq_test : (a b : ℕ) → a ≡ b → (a == b) ≡ true
eq_test a b h = ground (arith, h)

ne_test : (a b : ℕ) → a ≢ b → (a == b) ≡ false
ne_test a b h = ground (arith, h)

take-put :
    (n : ℕ) (x : Slot) (xs : List Slot)
    → n < length xs
    → take (suc n) (put n x xs) ≡ take n xs ++ (x ∷ [])
unfolding put
take-put n x [] h = ground arith
take-put zero x (y ∷ ys) h = ground arith
take-put (suc n) x (y ∷ ys) h = ground (arith, take-put n x ys)

take-append : (n : ℕ) (xs ys : List Slot) → n ≤ length xs → take n (xs ++ ys) ≡ take n xs
take-append zero xs ys h = refl
take-append (suc n) [] ys h = ground arith
take-append (suc n) (x ∷ xs) ys h = ground (arith, take-append n xs ys)

take-all : (n : ℕ) (xs : List Slot) → n ≡ length xs → take n xs ≡ xs
take-all zero [] h = refl
take-all zero (x ∷ xs) h = ground arith
take-all (suc n) [] h = ground arith
take-all (suc n) (x ∷ xs) h = ground (arith, take-all n xs)

store_slot-in_use :
    (x : Slot) (s : State)
    → IsSound s
    → s.tos < s.nslots
    → (in_use (store_slot x s).0 ≡ in_use s ++ (x ∷ [])) × IsSound (store_slot x s).0
unfolding store_slot in_use trap_abnormal_exits
store_slot-in_use x s sound h = (
  take-put s.tos x s.stack (omega (arith, sound.size)),
  record { size = ground (arith, length-put s.tos x s.stack, sound.size); room = omega arith },
)

-- What an operation that adds a slot leaves: the Boolean is whether it returned 0.
abbrev pub AddsSlot : Slot → State → State × Bool → Type 0
AddsSlot x s r = (in_use r.0 ≡ in_use s ++ (if r.1 then x ∷ [] else [])) × IsSound r.0

store_slot-AddsSlot :
    (x : Slot) (s : State) → IsSound s → s.tos < s.nslots → AddsSlot x s (store_slot x s)
store_slot-AddsSlot x s sound h =
    (unfold store_slot in (store_slot-in_use x s sound h).0, (store_slot-in_use x s sound h).1)

grow-AddsSlot :
    (x : Slot) (s : State)
    → IsSound s
    → s.tos ≡ s.nslots
    → AddsSlot x s
        (store_slot x record s { stack = s.stack ++ (uninitialised ∷ []); nslots = suc s.nslots })
grow-AddsSlot x s sound h =
    let t : State = record s { stack = s.stack ++ (uninitialised ∷ []); nslots = suc s.nslots } in
    let sound_t : IsSound t = record {
      size = omega (arith, length-append s.stack (uninitialised ∷ []), sound.size);
      room = omega (arith, sound.room);
    } in
    let same : in_use t ≡ in_use s =
      unfold in_use in take-append s.tos s.stack (uninitialised ∷ []) (omega (arith, sound.size)) in
    subst
      (λ xs.
        (in_use (store_slot x t).0 ≡ xs ++ (if (store_slot x t).1 then x ∷ [] else []))
        × IsSound (store_slot x t).0)
      same (store_slot-AddsSlot x t sound_t (omega (arith, sound.room, h)))

refused-AddsSlot : (x : Slot) (s : State) → IsSound s → AddsSlot x s (s, false)
refused-AddsSlot x s sound = (sym (append-nil (in_use s)), sound)

store_or_grow-AddsSlot :
    (alloc : Bool) (x : Slot) (s : State) → IsSound s → AddsSlot x s (store_or_grow alloc x s)
unfolding store_or_grow
store_or_grow-AddsSlot true x s sound = elim (dec_eq s.tos s.nslots) [
  | inl e ↦ rw (eq_test s.tos s.nslots e) (grow-AddsSlot x s sound e)
  | inr ne ↦
      rw (ne_test s.tos s.nslots ne) (store_slot-AddsSlot x s sound (omega (arith, sound.room, ne)))
]
store_or_grow-AddsSlot false x s sound = elim (dec_eq s.tos s.nslots) [
  | inl e ↦ rw (eq_test s.tos s.nslots e) (refused-AddsSlot x s sound)
  | inr ne ↦
      rw (ne_test s.tos s.nslots ne) (store_slot-AddsSlot x s sound (omega (arith, sound.room, ne)))
]

-- From a stack within its bounds, push_cleanup adds the slot behind those in use where it returns
-- 0, otherwise leaves those in use as they are, and the stack is within its bounds again.
pub push_cleanup-in_use :
    (atexit alloc : Bool) (x : Slot) (s : State)
    → IsSound s
    → AddsSlot x s (push_cleanup atexit alloc x s)
unfolding push_cleanup
push_cleanup-in_use atexit alloc x s sound = installed_AddsSlot s.handler_installed atexit
  where
    installed_sound : IsSound record s { handler_installed = true }
    installed_sound = record { size = sound.size; room = sound.room }

    installed_AddsSlot :
        (i a : Bool)
        → AddsSlot x s (
            if i
            then store_or_grow alloc x s
            else (if a
                then store_or_grow alloc x record s { handler_installed = true }
                else (s, false)))
    installed_AddsSlot true a = store_or_grow-AddsSlot alloc x s sound
    installed_AddsSlot false true =
        unfold in_use in
        store_or_grow-AddsSlot alloc x record s { handler_installed = true } installed_sound
    installed_AddsSlot false false = refused-AddsSlot x s sound
