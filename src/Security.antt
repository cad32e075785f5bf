-- ===== src/Security.antt =====
-- Effective privileges (lib/security.c, with MAN_OWNER defined).
pub mod Reach
use mandb.Base.{ℕ, zero, suc, Bool, true, false, not, ◌==◌, if◌then◌else◌, List, [], ◌∷◌}
use mandb.Exit.{Outcome, done, fatal, M, ◌>>=◌, ◌>>◌}

-- The user and group ids of the process when it starts, and the static variables.
pub record Ids : Type 0 where
  pub ruid : ℕ
  pub euid : ℕ
  pub rgid : ℕ
  pub egid : ℕ

pub record State : Type 0 where
  pub uid : ℕ
  pub gid : ℕ
  pub priv_drop_count : ℕ

-- Whether idpriv_temp_drop and idpriv_temp_restore of gnulib succeed.
pub record Idpriv : Type 0 where
  pub temp_drop : Bool
  pub temp_restore : Bool

module _ (ids : Ids) (idpriv : Idpriv) where
  open ids use {ruid, euid, rgid, egid}

  unfoldable pub drop_effective_privs : M State (Unit {0})
  drop_effective_privs s =
      if not (s.uid == ruid)
      then if idpriv.temp_drop
        then done tt (record { uid = ruid; gid = rgid; priv_drop_count = suc s.priv_drop_count })
        else fatal s
      else done tt (record s { priv_drop_count = suc s.priv_drop_count })

  -- The ids are taken back unless they are in use.
  unfoldable pub restore : M State (Unit {0})
  restore s =
      if not (s.uid == euid)
      then if idpriv.temp_restore then done tt (record s { uid = euid; gid = egid }) else fatal s
      else done tt s

  unfoldable pub regain_at : ℕ → M State (Unit {0})
  regain_at zero s = restore s
  regain_at (suc zero) s = restore (record s { priv_drop_count = zero })
  regain_at (suc (suc n)) s = done tt (record s { priv_drop_count = suc n })

  unfoldable pub regain_effective_privs : M State (Unit {0})
  regain_effective_privs s = regain_at s.priv_drop_count s

  unfoldable pub init_security : Outcome State (Unit {0})
  init_security = drop_effective_privs (record { uid = euid; gid = egid; priv_drop_count = 0 })

  unfoldable pub running_setuid : Bool
  running_setuid = not (ruid == euid)
