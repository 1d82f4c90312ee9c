-- ===== src/Backup/Run/Balance.antt =====
-- What was taken and not given back, over the actions of a run.
use ezdbbackup.Common.{◌≡◌, refl, sym, ap, ◌∙◌, Bool, List, [], ◌∷◌, ◌++◌, append-nil, append_assoc}
use ezdbbackup.Backup.Types.{Action}

-- what the actions `give`, in order
unfoldable pub gather : {A : Type 0} → (Action → List A) → List Action → List A
gather give [] = []
gather give (a ∷ l) = give a ++ gather give l

gather-append :
    {A : Type 0} (give : Action → List A) (l m : List Action)
    → gather give (l ++ m) ≡ gather give l ++ gather give m
unfolding gather
gather-append give [] m = refl
gather-append give (a ∷ l) m =
    ap (λ r. give a ++ r) (gather-append give l m)
    ∙ sym (append_assoc (give a) (gather give l) (gather give m))

-- `held` was taken and is not given back yet.
pub record Balanced {A : Type 0} (take give : Action → List A) (held : List A) (l : List Action)
    (healthy : Bool) : Type 0 where
  balance : gather take l ≡ gather give l ++ held

pub Balanced-step :
    {A : Type 0} {take give : Action → List A} {held held' : List A} {b b' : Bool} (l : List Action)
    (a : Action)
    → gather give (a ∷ []) ++ held' ≡ held ++ gather take (a ∷ [])
    → Balanced take give held l b
    → Balanced take give held' (l ++ a ∷ []) b'
Balanced-step {take = take} {give} {held} {held'} l a e h = record {
  balance =
      gather-append take l (a ∷ [])
      ∙ ap (λ r. r ++ gather take (a ∷ [])) h.balance
      ∙ append_assoc (gather give l) held (gather take (a ∷ []))
      ∙ ap (λ r. gather give l ++ r) (sym e)
      ∙ sym (append_assoc (gather give l) (gather give (a ∷ [])) held')
      ∙ ap (λ r. r ++ held') (sym (gather-append give l (a ∷ [])));
}

pub Balanced-start :
    {A : Type 0} {take give : Action → List A} {b : Bool} → Balanced take give [] [] b
unfolding gather
Balanced-start = record { balance = refl }

pub Balanced-end :
    {A : Type 0} {take give : Action → List A} {b : Bool} {l : List Action}
    → Balanced take give [] l b
    → gather take l ≡ gather give l
Balanced-end h = h.balance ∙ append-nil _
