-- ===== src/Cleanup/Slots.antt =====
-- The slots in use of the cleanup stack of lib/cleanup.c, and its bounds.
use mandb.Base.{ℕ, zero, suc, ◌≤◌, List, [], ◌∷◌, length, take, ◌≡◌, refl, arith}
use mandb.Cleanup.{Slot, State, put}

-- The slots in use, from the oldest.
unfoldable pub in_use : State → List Slot
in_use s = take s.tos s.stack

-- 0 <= tos <= nslots
pub record IsSound (s : State) : Type 0 where
  pub size : length s.stack ≡ s.nslots
  pub room : s.tos ≤ s.nslots

pub length-put : (n : ℕ) (x : Slot) (xs : List Slot) → length (put n x xs) ≡ length xs
unfolding put
length-put n x [] = refl
length-put zero x (y ∷ ys) = refl
length-put (suc n) x (y ∷ ys) = ground (arith, length-put n x ys)
