-- ===== src/Dump/Capture/Stream.antt =====
-- internal/dump/runner.go: what the loop of `Write` and `finish` append, without a bound.
use ezdbbackup.Common.{
  ℕ, suc, ◌-◌, ◌≡◌, refl, sym, ap, ◌∙◌, Bool, true, false, List, [], ◌∷◌, ◌++◌, ltb, leb, ◌==◌,
  if◌then◌else◌, length, take, Bool-cases, inl, inr,
}
use ezdbbackup.Common.Bytes.{Bytes}
use ezdbbackup.Dump.Capture.{
  write_capped, Capture, emit, set_matched, extend_match, drop_match, accept_byte, write_each,
  finish, redacted, fall_back, at,
}
use ezdbbackup.Dump.Capture.Capped.{capped-append, capped-nil, capped-full}

abbrev fitting : Bytes → ℕ → ℕ → Bytes × ℕ
fitting secret previous k = (
  (if ltb k previous then take (previous - k) secret else [])
      ++ (if suc k == length secret then redacted else []),
  if suc k == length secret then 0 else suc k,
)

abbrev failing : Bytes → ℕ → ℕ → ℕ → Bytes × ℕ
failing secret previous k value =
    ((if ltb 0 previous then take previous secret else []) ++ value ∷ [], k)

-- What one byte appends, and the next number of matched bytes.
unfoldable pub step : Bytes → List ℕ → ℕ → ℕ → Bytes × ℕ
step secret failure previous value =
    let k = fall_back secret failure value previous previous in
    if at secret k == value then fitting secret previous k else failing secret previous k value

unfoldable pub stream : Bytes → List ℕ → ℕ → Bytes → Bytes
unfolding step
stream secret failure m [] = if m == 0 then [] else redacted
stream secret failure m (value ∷ values) =
    let (text, next) = step secret failure m value in text ++ stream secret failure next values

pub emit-emit : (p q : Bytes) (b : Capture) → emit q (emit p b) ≡ emit (p ++ q) b
emit-emit p q b = ap (λ o. record b { output = o }) (capped-append b.output p q)

emit_nil : (b : Capture) → emit [] b ≡ b
emit_nil b = ap (λ o. record b { output = o }) (capped-nil b.output)

emit_if :
    (c : Bool) (p : Bytes) (b : Capture)
    → (if c then emit p b else b) ≡ emit (if c then p else []) b
emit_if true p b = refl
emit_if false p b = sym (emit_nil b)

emit_last :
    (c : Bool) (k : ℕ) (p : Bytes) (b : Capture)
    → (if c then set_matched 0 (emit p b) else set_matched k b)
      ≡ set_matched (if c then 0 else k) (emit (if c then p else []) b)
emit_last true k p b = refl
emit_last false k p b = ap (set_matched k) (sym (emit_nil b))

extend_match-fitting :
    (previous k : ℕ) (b : Capture)
    → extend_match previous k b
      ≡ set_matched (fitting b.secret previous k).1 (emit (fitting b.secret previous k).0 b)
extend_match-fitting previous k b =
    let done = suc k == length b.secret in
    let shift = take (previous - k) b.secret in
    let last = if done then redacted else [] in
    emit_last done (suc k) redacted (if ltb k previous then emit shift b else b)
    ∙ ap (λ c. set_matched (if done then 0 else suc k) (emit last c))
        (emit_if (ltb k previous) shift b)
    ∙ ap (set_matched (if done then 0 else suc k))
        (emit-emit (if ltb k previous then shift else []) last b)

drop_match-failing :
    (previous k value : ℕ) (b : Capture)
    → drop_match previous k value b ≡ set_matched k (emit (failing b.secret previous k value).0 b)
drop_match-failing previous k value b =
    let kept = take previous b.secret in
    ap (λ c. set_matched k (emit (value ∷ []) c)) (emit_if (ltb 0 previous) kept b)
    ∙ ap (set_matched k) (emit-emit (if ltb 0 previous then kept else []) (value ∷ []) b)

-- A round of the loop, in terms of what it appends.
pub accept_byte-step :
    (value : ℕ) (b : Capture)
    → accept_byte value b
      ≡ set_matched
          (step b.secret b.failure b.matched value).1
          (emit (step b.secret b.failure b.matched value).0 b)
unfolding accept_byte step
accept_byte-step value b =
    let k = fall_back b.secret b.failure value b.matched b.matched in
    elim (Bool-cases (at b.secret k == value)) [
      | inl e ↦ rw e (extend_match-fitting b.matched k b)
      | inr e ↦ rw e (drop_match-failing b.matched k value b)
    ]

finished :
    (m : ℕ) (b : Capture)
    → (finish (set_matched m b)).output ≡ (emit (if m == 0 then [] else redacted) b).output
unfolding finish
finished m b = elim (Bool-cases (m == 0)) [
  | inl e ↦ rw e (sym (capped-nil b.output))
  | inr e ↦ rw e refl
]

-- What the loop and `finish` leave is the stream of the bytes, cut off where the buffer is full.
pub write_each-stream :
    (p : Bytes) (b : Capture)
    → (finish (write_each p b)).output
      ≡ write_capped b.output (stream b.secret b.failure b.matched p)
unfolding write_each stream
write_each-stream [] b = finished b.matched b
write_each-stream (value ∷ values) b =
    elim (Bool-cases (leb b.output.limit (length b.output.data_bytes))) [
      | inl e ↦ rw e (finished 0 b ∙ capped-nil b.output ∙ sym (capped-full b.output _ e))
      | inr e ↦ rw e (
          let s = step b.secret b.failure b.matched value in
          ap (λ c. (finish (write_each values c)).output) (accept_byte-step value b)
          ∙ write_each-stream values (set_matched s.1 (emit s.0 b))
          ∙ capped-append b.output s.0 (stream b.secret b.failure s.1 values))
    ]
