-- ===== src/Common/Exec.antt =====
-- Methods with effects: a state `W` is passed on, and the value says whether the call failed.
use ezdbbackup.Common.Errors.{Result, ok, err}

abbrev pub Exec : Type 0 → Type 0 → Type 0
Exec W A = W → A × W

infixl 5 ◌>>=◌ ◌>>◌
abbrev pub ◌>>=◌ : {W A B : Type 0} → Exec W A → (A → Exec W B) → Exec W B
◌>>=◌ m f w = let (a, w') = m w in f a w'

abbrev pub ◌>>◌ : {W A B : Type 0} → Exec W A → Exec W B → Exec W B
m >> k = m >>= λ _. k

abbrev pub pure : {W A : Type 0} → A → Exec W A
pure a w = (a, w)

-- `if err != nil { return err }` after a call: the error ends the function, a value goes on.
abbrev pub resume :
    {W X A B : Type 0} → Result X A → (A → Exec W (Result X B)) → Exec W (Result X B)
resume (ok a) f = f a
resume (err e) f = pure (err e)
