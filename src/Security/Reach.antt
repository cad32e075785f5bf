-- ===== src/Security/Reach.antt =====
-- The states of lib/security.c that calls of its functions reach.
use mandb.Base.{ℕ, zero, suc, true, ◌==◌, if◌then◌else◌, ◌≡◌, refl, arith, ◌∙◌, sym, subst}
use mandb.Exit.{Outcome, done, fatal}
use mandb.Security.{
  Ids, State, Idpriv, drop_effective_privs, restore, regain_at, regain_effective_privs,
  init_security,
}

-- What the calls of a process make of the variables.
pub data Reach (ids : Ids) : State → Type 0 where
  start : (i : Idpriv) (s : State) → init_security ids i ≡ done tt s → Reach ids s
  dropped :
      (i : Idpriv) (s s' : State)
      → Reach ids s
      → drop_effective_privs ids i s ≡ done tt s'
      → Reach ids s'
  regained :
      (i : Idpriv) (s s' : State)
      → Reach ids s
      → regain_effective_privs ids i s ≡ done tt s'
      → Reach ids s'

-- While the count is not 0 the ids in use are the real ones, and else the effective ones; the group
-- changes only in a program that runs setuid.
abbrev pub uid_for : Ids → ℕ → ℕ
uid_for ids zero = ids.euid
uid_for ids (suc n) = ids.ruid

abbrev pub gid_for : Ids → ℕ → ℕ
gid_for ids zero = ids.egid
gid_for ids (suc n) = if ids.ruid == ids.euid then ids.egid else ids.rgid

abbrev pub state_for : Ids → ℕ → State
state_for ids n = record { uid = uid_for ids n; gid = gid_for ids n; priv_drop_count = n }

module _ (ids : Ids) (i : Idpriv) where
  drop-state_for :
      (n : ℕ) (s' : State)
      → drop_effective_privs ids i (state_for ids n) ≡ done tt s'
      → s' ≡ state_for ids (suc n)
  unfolding drop_effective_privs
  drop-state_for zero s' e = ground (arith, e)
  drop-state_for (suc n) s' e = ground (arith, e)

  regain-state_for :
      (n : ℕ) (s' : State)
      → regain_effective_privs ids i (state_for ids n) ≡ done tt s'
      → s' ≡ state_for ids (elim n [ zero ↦ zero | suc m ↦ m ])
  unfolding regain_effective_privs regain_at restore
  regain-state_for zero s' e = ground (arith, e)
  regain-state_for (suc zero) s' e = ground (arith, e)
  regain-state_for (suc (suc n)) s' e = ground (arith, e)

init-state_for :
    (ids : Ids) (i : Idpriv) (s : State) → init_security ids i ≡ done tt s → s ≡ state_for ids 1
unfolding init_security
init-state_for ids i s e = drop-state_for ids i 0 s e

counted :
    (ids : Ids) (s : State) (n : ℕ) → s ≡ state_for ids n → s ≡ state_for ids s.priv_drop_count
counted ids s n h = subst (λ t. t ≡ state_for ids t.priv_drop_count) (sym h) refl

-- In every state that calls of drop_effective_privs and regain_effective_privs reach from
-- init_security, the user id in use is the real one while the count is not 0, and else the
-- effective one; so is the group id, except that it stays the effective one when the process does
-- not run setuid.
pub Reach-state_for : (ids : Ids) (s : State) → Reach ids s → s ≡ state_for ids s.priv_drop_count
Reach-state_for ids s (start i _ e) = counted ids s 1 (init-state_for ids i s e)
Reach-state_for ids s (dropped i t _ r e) =
    let h = Reach-state_for ids t r in
    counted ids s (suc t.priv_drop_count) (
      drop-state_for ids i t.priv_drop_count s
        (subst (λ u. drop_effective_privs ids i u ≡ done tt s) h e))
Reach-state_for ids s (regained i t _ r e) =
    let h = Reach-state_for ids t r in
    counted ids s _ (
      regain-state_for ids i t.priv_drop_count s
        (subst (λ u. regain_effective_privs ids i u ≡ done tt s) h e))

-- In a reachable state, a call of regain_effective_privs that follows one of drop_effective_privs,
-- when both return, leaves the variables as they were before the two.
regain-drop :
    (ids : Ids) (i j : Idpriv) (s s1 s2 : State)
    → Reach ids s
    → drop_effective_privs ids i s ≡ done tt s1
    → regain_effective_privs ids j s1 ≡ done tt s2
    → s2 ≡ s
regain-drop ids i j s s1 s2 r d g =
    let h = Reach-state_for ids s r in
    let n = s.priv_drop_count in
    let h1 =
      drop-state_for ids i n s1 (subst (λ u. drop_effective_privs ids i u ≡ done tt s1) h d) in
    regain-state_for ids j (suc n) s2
      (subst (λ u. regain_effective_privs ids j u ≡ done tt s2) h1 g)
    ∙ sym h

-- As many calls of regain_effective_privs.
unfoldable pub regain_times : Ids → Idpriv → ℕ → State → Outcome State (Unit {0})
regain_times ids i zero s = done tt s
regain_times ids i (suc n) s = elim (regain_effective_privs ids i s) [
  | done u s' ↦ regain_times ids i n s'
  | fatal s' ↦ fatal s'
]

regain_once :
    (ids : Ids) (i : Idpriv) (n : ℕ)
    → i.temp_restore ≡ true
    → regain_effective_privs ids i (state_for ids (suc n)) ≡ done tt (state_for ids n)
unfolding regain_effective_privs regain_at restore
regain_once ids i zero t = ground (arith, t)
regain_once ids i (suc n) t = refl

regain_all :
    (ids : Ids) (i : Idpriv) (n : ℕ)
    → i.temp_restore ≡ true
    → regain_times ids i n (state_for ids n) ≡ done tt (state_for ids 0)
unfolding regain_times
regain_all ids i zero t = refl
regain_all ids i (suc n) t = ground (arith, regain_once ids i n t, regain_all ids i n t)

-- From a reachable state, as many calls of regain_effective_privs as the count says, when the
-- system restores the ids, end with the count at 0 and the effective ids in use.
pub regain_times_ends :
    (ids : Ids) (i : Idpriv) (s : State)
    → Reach ids s
    → i.temp_restore ≡ true
    → regain_times ids i s.priv_drop_count s
      ≡ done tt (record { uid = ids.euid; gid = ids.egid; priv_drop_count = 0 })
regain_times_ends ids i s r t =
    subst (λ u. regain_times ids i s.priv_drop_count u ≡ done tt (state_for ids 0))
      (sym (Reach-state_for ids s r)) (regain_all ids i s.priv_drop_count t)
