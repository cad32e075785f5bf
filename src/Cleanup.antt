-- ===== src/Cleanup.antt =====
-- lib/cleanup.c: the stack of functions that run when the process ends, and the signals that it
-- traps while the stack is in use.
pub mod Slots
pub mod Push
pub mod Pop
pub mod Run
use mandb.Base.{
  ℕ, zero, suc, ◌+◌, ◌-◌, Bool, true, false, not, ◌&&◌, ◌||◌, Option, none, some, List, [], ◌∷◌,
  ◌++◌, ◌==◌, if◌then◌else◌, get_elem?,
}

-- A function and its argument, by their addresses.
pub record Slot : Type 0 where
  pub fun : ℕ
  pub arg : ℕ
  pub sigsafe : Bool

-- What sigaction knows of a signal: SIG_DFL, sighandler of this file, or another handler.
pub data Action : Type 0 where
  dfl : Action
  sighandler : Action
  other : ℕ → Action

pub record Trap : Type 0 where
  pub current : Action
  pub saved : Action

-- `stack` holds nslots slots. The signals are SIGHUP, SIGINT and SIGTERM.
pub record State : Type 0 where
  pub stack : List Slot
  pub nslots : ℕ
  pub tos : ℕ
  pub handler_installed : Bool
  pub hup : Trap
  pub int : Trap
  pub term : Trap

unfoldable pub trap_signal : Trap → Trap
trap_signal t = elim t.current [
  | dfl ↦ record { current = sighandler; saved = dfl }
  | sighandler ↦ record { current = sighandler; saved = sighandler }
  | other h ↦ record { current = other h; saved = other h }
]

unfoldable pub untrap_signal : Trap → Trap
untrap_signal t = elim t.current [
  | dfl ↦ t
  | sighandler ↦ record { current = t.saved; saved = t.saved }
  | other h ↦ t
]

unfoldable pub trap_abnormal_exits : State → State
trap_abnormal_exits s = record s {
  hup = trap_signal s.hup;
  int = trap_signal s.int;
  term = trap_signal s.term;
}

unfoldable pub untrap_abnormal_exits : State → State
untrap_abnormal_exits s = record s {
  hup = untrap_signal s.hup;
  int = untrap_signal s.int;
  term = untrap_signal s.term;
}

-- The slots that the loop calls, from the i-th down.
unfoldable pub called : Bool → ℕ → List Slot → List Slot
called in_sighandler zero stack = []
called in_sighandler (suc i) stack =
    let rest = called in_sighandler i stack in
    elim (get_elem? stack i) [
      | none ↦ rest
      | some s ↦ if not in_sighandler || s.sigsafe then s ∷ rest else rest
    ]

unfoldable pub do_cleanups_sigsafe : Bool → State → List Slot
do_cleanups_sigsafe in_sighandler s = called in_sighandler s.tos s.stack

unfoldable pub do_cleanups : State → State × List Slot
do_cleanups s = (record s { stack = []; nslots = 0; tos = 0 }, do_cleanups_sigsafe false s)

-- stack[i] = x
unfoldable pub put : ℕ → Slot → List Slot → List Slot
put i x [] = []
put zero x (y ∷ ys) = x ∷ ys
put (suc i) x (y ∷ ys) = y ∷ put i x ys

-- What malloc returns is not initialised.
abbrev pub uninitialised : Slot
uninitialised = record { fun = 0; arg = 0; sigsafe = false }

unfoldable pub store_slot : Slot → State → State × Bool
store_slot x s =
    (trap_abnormal_exits record s { stack = put s.tos x s.stack; tos = suc s.tos }, true)

-- `alloc`: whether malloc or realloc gives memory.
unfoldable pub store_or_grow : Bool → Slot → State → State × Bool
store_or_grow alloc x s =
    if s.tos == s.nslots
    then (if alloc
        then store_slot x
            record s { stack = s.stack ++ (uninitialised ∷ []); nslots = suc s.nslots }
        else (s, false))
    else store_slot x s

-- `atexit`: whether atexit returns 0. The result is whether the function returns 0.
unfoldable pub push_cleanup : Bool → Bool → Slot → State → State × Bool
push_cleanup atexit alloc x s =
    if s.handler_installed
    then store_or_grow alloc x s
    else (if atexit
        then store_or_grow alloc x record s { handler_installed = true }
        else (s, false))

-- for (j = i; j < tos; ++j) stack[j - 1] = stack[j]: the first argument is tos - i.
unfoldable pub shift : ℕ → ℕ → List Slot → List Slot
shift zero j stack = stack
shift (suc n) j stack = elim (get_elem? stack j) [
  | none ↦ stack
  | some x ↦ shift n (suc j) (put (j - 1) x stack)
]

-- The loop down from `i` to the topmost slot of that function and argument.
unfoldable pub find_slot : ℕ → ℕ → ℕ → List Slot → Option ℕ
find_slot fun arg zero stack = none
find_slot fun arg (suc i) stack =
    let below = find_slot fun arg i stack in
    elim (get_elem? stack i) [
      | none ↦ below
      | some s ↦ if s.fun == fun && s.arg == arg then some (suc i) else below
    ]

unfoldable pub untrap_if_empty : State → State
untrap_if_empty s = if s.tos == 0 then untrap_abnormal_exits s else s

unfoldable pub remove_slot : Option ℕ → State → State
remove_slot none s = s
remove_slot (some i) s = record s { stack = shift (s.tos - i) i s.stack; tos = s.tos - 1 }

-- `none` is the failed assertion.
unfoldable pub pop_cleanup : ℕ → ℕ → State → Option State
pop_cleanup fun arg s =
    if s.tos == 0
    then none
    else some (untrap_if_empty (remove_slot (find_slot fun arg s.tos s.stack) s))

unfoldable pub pop_all_cleanups : State → State
pop_all_cleanups s = untrap_abnormal_exits record s { tos = 0 }
