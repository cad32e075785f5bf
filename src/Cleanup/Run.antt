-- ===== src/Cleanup/Run.antt =====
-- do_cleanups_sigsafe and the trapping of signals (lib/cleanup.c).
use mandb.Base.{
  ℕ, zero, suc, ◌≤◌, Bool, not, ◌||◌, List, [], ◌∷◌, ◌++◌, if◌then◌else◌, length, take, ◌≡◌, refl,
  ap, arith, ◌≢◌, ◌∙◌,
}
use mandb.Cleanup.{
  Slot, Action, dfl, other, sighandler, State, Trap, called, do_cleanups_sigsafe, trap_signal,
  untrap_signal,
}
use mandb.Cleanup.Slots.{in_use, IsSound}

-- The slots that a run of the stack calls, from the newest: in a signal handler those only that are
-- safe there.
unfoldable pub calls : Bool → List Slot → List Slot
calls in_sighandler [] = []
calls in_sighandler (x ∷ xs) =
    calls in_sighandler xs ++ (if not in_sighandler || x.sigsafe then x ∷ [] else [])

called-cons :
    (h : Bool) (n : ℕ) (x : Slot) (xs : List Slot)
    → called h (suc n) (x ∷ xs) ≡ called h n xs ++ (if not h || x.sigsafe then x ∷ [] else [])
unfolding called
called-cons h zero x xs = refl
called-cons h (suc n) x xs = ground (arith, called-cons h n x xs)

calls-snoc :
    (h : Bool) (n : ℕ) (xs : List Slot) → n ≤ length xs → called h n xs ≡ calls h (take n xs)
unfolding calls
calls-snoc h zero xs room = unfold called in refl
calls-snoc h (suc n) [] room = absurd (omega arith)
calls-snoc h (suc n) (x ∷ xs) room =
    called-cons h n x xs
    ∙ ap (λ r. r ++ (if not h || x.sigsafe then x ∷ [] else [])) (calls-snoc h n xs (omega arith))

-- From a stack within its bounds, the cleanups run from the newest to the oldest of those in use,
-- in a signal handler those only that are marked safe for it.
do_cleanups_sigsafe-calls :
    (in_sighandler : Bool) (s : State)
    → IsSound s
    → do_cleanups_sigsafe in_sighandler s ≡ calls in_sighandler (in_use s)
unfolding do_cleanups_sigsafe in_use
do_cleanups_sigsafe-calls in_sighandler s sound =
    calls-snoc in_sighandler s.tos s.stack (omega (arith, sound.size, sound.room))

-- The action that is left where a signal was trapped twice and given back once.
abbrev pub after_two : Action → Action
after_two dfl = sighandler
after_two sighandler = sighandler
after_two (other h) = other h

-- Trapping a signal once and giving it back leaves the action that it had, unless that was
-- sighandler; trapping it twice, as two pushes do, and giving it back leaves sighandler, where the
-- action was the default.
pub untrap_signal-trap_signal :
    (t : Trap)
    → t.current ≢ sighandler
    → ((untrap_signal (trap_signal t)).current ≡ t.current)
      × (untrap_signal (trap_signal (trap_signal t))).current ≡ after_two t.current
unfolding trap_signal untrap_signal
untrap_signal-trap_signal t h = by_action t.current refl
  where
    by_action :
        (a : Action)
        → t.current ≡ a
        → ((untrap_signal (trap_signal t)).current ≡ t.current)
          × (untrap_signal (trap_signal (trap_signal t))).current ≡ after_two t.current
    by_action dfl e = ground (arith, e)
    by_action sighandler e = absurd (h e)
    by_action (other h) e = ground (arith, e)
