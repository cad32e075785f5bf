-- ===== src/Exit.antt =====
-- Code that changes a state and may end the process through fatal () (lib/fatal.c, FATAL is its
-- exit status). The state reached is kept, since what was written stays written.

pub data Outcome (S A : Type 0) : Type 0 where
  done : A → S → Outcome S A
  fatal : S → Outcome S A

abbrev pub M : Type 0 → Type 0 → Type 0
M S A = S → Outcome S A

infixl 5 ◌>>=◌ ◌>>◌
abbrev pub ◌>>=◌ : {S A B : Type 0} → M S A → (A → M S B) → M S B
◌>>=◌ m f s = elim (m s) [ done a s' ↦ f a s' | fatal s' ↦ fatal s' ]

abbrev pub ◌>>◌ : {S B : Type 0} → M S (Unit {0}) → M S B → M S B
m >> k = m >>= λ _. k
