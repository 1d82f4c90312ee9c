-- ===== src/Dump/Capture/Capped.antt =====
-- internal/dump/runner.go: writes into a capped buffer, one behind another.
use ezdbbackup.Common.{
  ℕ, zero, suc, ◌+◌, ◌-◌, ◌≤◌, ◌≡◌, refl, sym, ap, ◌∙◌, true, false, [], ◌∷◌, ◌++◌, arith,
  append_assoc, append-nil, ltb, leb, length, length-append, take, Bool-cases, inl, inr,
}
use ezdbbackup.Common.Bytes.{Bytes}
use ezdbbackup.Dump.Capture.{CappedBuffer, write_capped}

pub length-take : (n : ℕ) (p : Bytes) → length (take n p) ≤ n
length-take zero p = omega arith
length-take (suc n) [] = omega arith
length-take (suc n) (c ∷ p) = omega (arith, length-take n p)

pub take-all : (n : ℕ) (p : Bytes) → length p ≤ n → take n p ≡ p
take-all zero [] h = refl
take-all zero (c ∷ p) h = absurd (omega (arith, h))
take-all (suc n) [] h = refl
take-all (suc n) (c ∷ p) h = ap (◌∷◌ c) (take-all n p (omega (arith, h)))

take-nil : (n : ℕ) → take {A = ℕ} n [] ≡ []
take-nil zero = refl
take-nil (suc n) = refl

less_nil : (n : ℕ) → n - 0 ≡ n
less_nil n = omega arith

less_cons : (n m : ℕ) → suc n - suc m ≡ n - m
less_cons n m = omega arith

less_sum : (n a b : ℕ) → n - a - b ≡ n - (a + b)
less_sum n a b = omega arith

-- What is left of the bound behind a first text.
take-append : (n : ℕ) (p q : Bytes) → take n (p ++ q) ≡ take n p ++ take (n - length (take n p)) q
take-append zero p q = refl
take-append (suc n) [] q = rw (less_nil (suc n)) refl
take-append (suc n) (c ∷ p) q =
    rw (less_cons n (length (take n p))) (ap (◌∷◌ c) (take-append n p q))

abbrev pub room : CappedBuffer → ℕ
room b = b.limit - length b.data_bytes

abbrev appended : CappedBuffer → Bytes → CappedBuffer
appended b p = record b { data_bytes = b.data_bytes ++ p }

no_room : (n : ℕ) → ltb 0 n ≡ false → n ≡ 0
no_room n h = ground arith

fits : (n m : ℕ) → ltb n m ≡ false → m ≤ n
fits n m h = ground arith

pub capped-data : (b : CappedBuffer) (p : Bytes) → write_capped b p ≡ appended b (take (room b) p)
unfolding write_capped
capped-data b p = elim (Bool-cases (ltb 0 (room b))) [
  | inl e ↦ elim (Bool-cases (ltb (room b) (length p))) [
    | inl f ↦ rw (e, f) refl
    | inr f ↦ rw (e, f) (ap (appended b) (sym (take-all (room b) p (fits _ _ f))))
  ]
  | inr e ↦
      rw (e, no_room _ e) (ap (λ x. record b { data_bytes = x }) (sym (append-nil b.data_bytes)))
]

room-append : (b : CappedBuffer) (x : Bytes) → room (appended b x) ≡ room b - length x
room-append b x =
    rw (length-append b.data_bytes x) (sym (less_sum b.limit (length b.data_bytes) (length x)))

-- Two writes are one write of both texts.
pub capped-append :
    (b : CappedBuffer) (p q : Bytes) → write_capped (write_capped b p) q ≡ write_capped b (p ++ q)
capped-append b p q =
    let x = take (room b) p in
    ap (λ c. write_capped c q) (capped-data b p)
    ∙ capped-data (appended b x) q
    ∙ ap (λ y. record b { data_bytes = y })
        (append_assoc b.data_bytes x (take (room (appended b x)) q))
    ∙ ap (λ n. appended b (x ++ take n q)) (room-append b x)
    ∙ ap (appended b) (sym (take-append (room b) p q))
    ∙ sym (capped-data b (p ++ q))

pub capped-nil : (b : CappedBuffer) → write_capped b [] ≡ b
capped-nil b =
    capped-data b []
    ∙ rw (take-nil (room b)) (ap (λ x. record b { data_bytes = x }) (append-nil b.data_bytes))

-- A full buffer stays as it is.
pub capped-full :
    (b : CappedBuffer) (p : Bytes) → leb b.limit (length b.data_bytes) ≡ true → write_capped b p ≡ b
unfolding write_capped
capped-full b p h = rw (no_more b.limit (length b.data_bytes) h) refl
  where
    no_more : (n m : ℕ) → leb n m ≡ true → ltb 0 (n - m) ≡ false
    no_more n m h = ground arith
