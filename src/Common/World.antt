-- ===== src/Common/World.antt =====
-- What the program calls and cannot see into: the answers come from an environment of any type, and
-- the calls are recorded in order.
pub mod Trace
use ezdbbackup.Common.Exec.{Exec}
use mathlib.Core.List.{List, [], ◌∷◌, ◌++◌}

pub record World (E C : Type 0) : Type 0 where
  pub env : E
  pub calls : List C

-- One recorded call.
unfoldable pub perform : {E C A : Type 0} → C → (E → A × E) → Exec (World E C) A
perform call answer w =
    let (a, e) = answer w.env in (a, record { env = e; calls = w.calls ++ call ∷ [] })

-- A question that changes nothing outside the program, such as `ctx.Err()`.
unfoldable pub consult : {E C A : Type 0} → (E → A × E) → Exec (World E C) A
consult answer w = let (a, e) = answer w.env in (a, record { env = e; calls = w.calls })

-- A call that is recorded with its answer.
unfoldable pub observe : {E C A : Type 0} → (A → C) → (E → A × E) → Exec (World E C) A
observe call answer w =
    let (a, e) = answer w.env in (a, record { env = e; calls = w.calls ++ call a ∷ [] })
