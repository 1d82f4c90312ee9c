-- ===== src/Common/World/Trace.antt =====
-- The calls that a method adds to those of the world, with its result.
use mathlib.Core.Path.{◌≡◌, refl, sym, ap, ◌∙◌}
use mathlib.Core.List.{List, [], ◌∷◌, ◌++◌, append_assoc, append-nil}
use ezdbbackup.Common.Exec.{Exec, ◌>>=◌, pure}
use ezdbbackup.Common.World.{World, perform, consult, observe}

-- What holds of the calls that a method adds, and of its result.
module _ {E C : Type 0} where
  unfoldable pub Gives : {A : Type 0} → (List C → A → Type 0) → Exec (World E C) A → Type 0
  Gives P m = (w : World E C) → (t : List C) × ((m w).1.calls ≡ w.calls ++ t) × P t (m w).0

  pub Gives-consult :
      {A B : Type 0} (P : List C → B → Type 0) (answer : E → A × E) (k : A → Exec (World E C) B)
      → ((a : A) → Gives P (k a))
      → Gives P (consult answer >>= k)
  unfolding Gives consult
  Gives-consult P answer k h w =
      h (answer w.env).0 (record { env = (answer w.env).1; calls = w.calls })

  pub Gives-perform :
      {A B : Type 0} (P : List C → B → Type 0) (c : C) (answer : E → A × E)
      (k : A → Exec (World E C) B)
      → ((a : A) → Gives (λ t b. P (c ∷ t) b) (k a))
      → Gives P (perform c answer >>= k)
  unfolding Gives perform
  Gives-perform P c answer k h w =
      let (t, e, p) =
        h (answer w.env).0 (record { env = (answer w.env).1; calls = w.calls ++ c ∷ [] }) in
      (c ∷ t, e ∙ append_assoc w.calls (c ∷ []) t, p)

  pub Gives-bind :
      {A B : Type 0} (P : List C → A → Type 0) (Q : List C → B → Type 0) (m : Exec (World E C) A)
      (k : A → Exec (World E C) B)
      → Gives P m
      → ((a : A) (t : List C) → P t a → Gives (λ u b. Q (t ++ u) b) (k a))
      → Gives Q (m >>= k)
  unfolding Gives
  Gives-bind P Q m k h next w =
      let (t, e, p) = h w in
      let (u, f, q) = next (m w).0 t p (m w).1 in
      (t ++ u, f ∙ ap (λ c. c ++ u) e ∙ append_assoc w.calls t u, q)

pub Gives-pure :
    (E : Type 0) {C A : Type 0} (P : List C → A → Type 0) (a : A)
    → P [] a
    → Gives {E = E} P (pure a)
unfolding Gives
Gives-pure E P a h w = ([], sym (append-nil w.calls), h)

pub Gives-imp :
    {E C A : Type 0} (P Q : List C → A → Type 0) (m : Exec (World E C) A)
    → ((t : List C) (a : A) → P t a → Q t a)
    → Gives P m
    → Gives Q m
unfolding Gives
Gives-imp P Q m f h w = let (t, e, p) = h w in (t, e, f t (m w).0 p)

pub Gives-observe :
    {E C A B : Type 0} (P : List C → B → Type 0) (call : A → C) (answer : E → A × E)
    (k : A → Exec (World E C) B)
    → ((a : A) → Gives (λ t b. P (call a ∷ t) b) (k a))
    → Gives P (observe call answer >>= k)
unfolding Gives observe
Gives-observe P call answer k h w =
    let (t, e, p) =
      h (answer w.env).0
        (record { env = (answer w.env).1; calls = w.calls ++ call (answer w.env).0 ∷ [] }) in
    (call (answer w.env).0 ∷ t, e ∙ append_assoc w.calls (call (answer w.env).0 ∷ []) t, p)

-- a recorded call that ends a method
pub Gives-last :
    {E C A : Type 0} (P : List C → A → Type 0) (call : A → C) (answer : E → A × E)
    → ((a : A) → P (call a ∷ []) a)
    → Gives P (observe call answer)
unfolding Gives observe
Gives-last P call answer h w = (call (answer w.env).0 ∷ [], refl, h (answer w.env).0)
