-- ===== src/Base/Outcome.antt =====
-- What a call does to the process: it returns, or it leaves by `exit(-1)`, as the `FATAL` macro of
-- DROS2/Common/misc.h and the recorder's fatal paths do.
pub data Exit {ℓ} (A : Type ℓ) : Type ℓ where
  returns : A → Exit A
  fatal : Exit A

infixl 5 ◌>>=◌
abbrev pub ◌>>=◌ {ℓ κ} : {A : Type ℓ} {B : Type κ} → Exit A → (A → Exit B) → Exit B
returns a >>= f = f a
fatal >>= f = fatal
