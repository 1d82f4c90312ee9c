-- ===== src/Dump/Capture.antt =====
-- internal/dump/runner.go: what is kept of the standard error of mysqldump, without the password.
pub mod Capped
pub mod Chunks
pub mod Stream
pub mod Borders
pub mod Table
pub mod Reference
pub mod Refines
use ezdbbackup.Common.{
  ℕ, zero, suc, ◌+◌, ◌-◌, Bool, true, false, not, ◌&&◌, ◌||◌, List, [], ◌∷◌, ◌++◌, ltb, leb, ◌==◌,
  if◌then◌else◌, length, take, ℤ, pos, negsuc,
}
use ezdbbackup.Common.Bytes.{Bytes, codes, is_empty}

abbrev pub default_stderr_limit : ℕ
default_stderr_limit = 65536

-- `stderrLimit`
abbrev pub stderr_limit : ℤ → ℕ
stderr_limit (pos n) = if n == 0 then default_stderr_limit else n
stderr_limit (negsuc n) = default_stderr_limit

-- `cappedBuffer`; the program makes it with a positive limit only.
pub record CappedBuffer : Type 0 where
  pub limit : ℕ
  pub data_bytes : Bytes

-- `(*cappedBuffer).Write`
unfoldable pub write_capped : CappedBuffer → Bytes → CappedBuffer
write_capped b p =
    let remaining = b.limit - length b.data_bytes in
    if ltb 0 remaining
    then record b {
      data_bytes = b.data_bytes ++ (if ltb remaining (length p) then take remaining p else p);
    }
    else b

-- An element of a slice; the program reads inside its bounds.
abbrev pub at : List ℕ → ℕ → ℕ
at [] i = 0
at (c ∷ s) zero = c
at (c ∷ s) (suc i) = at s i

-- The inner loop: shorter borders of the matched prefix until the next byte fits. Each round makes
-- the number smaller, so the number is enough fuel.
abbrev pub fall_back : Bytes → List ℕ → ℕ → ℕ → ℕ → ℕ
fall_back secret failure value zero matched = matched
fall_back secret failure value (suc fuel) matched =
    let shorter = fall_back secret failure value fuel (at failure (matched - 1)) in
    if not (matched == 0) && not (at secret matched == value) then shorter else matched

abbrev pub extended : Bytes → ℕ → ℕ → ℕ
extended pattern value matched = if at pattern matched == value then suc matched else matched

-- The loop of `prefixFailureTable` from an index on, with the elements before it and the last of them.
unfoldable pub failure_from : Bytes → List ℕ → ℕ → Bytes → List ℕ
failure_from pattern failure matched [] = failure
failure_from pattern failure matched (value ∷ values) =
    let next = extended pattern value (fall_back pattern failure value matched matched) in
    failure_from pattern (failure ++ next ∷ []) next values

-- `prefixFailureTable`
unfoldable pub prefix_failure_table : Bytes → List ℕ
unfolding failure_from
prefix_failure_table [] = []
prefix_failure_table (c ∷ values) = failure_from (c ∷ values) (0 ∷ []) 0 values

-- `redactingCappedBuffer`
pub record Capture : Type 0 where
  pub output : CappedBuffer
  pub secret : Bytes
  pub failure : List ℕ
  pub matched : ℕ

-- `newRedactingCappedBuffer`
unfoldable pub new_capture : ℕ → Bytes → Capture
unfolding prefix_failure_table
new_capture limit secret = record {
  output = record { limit = limit; data_bytes = [] };
  secret = secret;
  failure = prefix_failure_table secret;
  matched = 0;
}

abbrev pub redacted : Bytes
redacted = codes "[REDACTED]"

abbrev pub emit : Bytes → Capture → Capture
emit p b = record b { output = write_capped b.output p }

abbrev pub set_matched : ℕ → Capture → Capture
set_matched m b = record b { matched = m }

-- A byte that fits behind the matched prefix.
abbrev pub extend_match : ℕ → ℕ → Capture → Capture
extend_match previous m b =
    let b' = if ltb m previous then emit (take (previous - m) b.secret) b else b in
    if suc m == length b.secret then set_matched 0 (emit redacted b') else set_matched (suc m) b'

-- A byte that does not.
abbrev pub drop_match : ℕ → ℕ → ℕ → Capture → Capture
drop_match previous m value b =
    let b' = if ltb 0 previous then emit (take previous b.secret) b else b in
    set_matched m (emit (value ∷ []) b')

-- One round of the loop of `Write`.
unfoldable pub accept_byte : ℕ → Capture → Capture
unfolding write_capped
accept_byte value b =
    let m = fall_back b.secret b.failure value b.matched b.matched in
    if at b.secret m == value then extend_match b.matched m b else drop_match b.matched m value b

unfoldable pub write_each : Bytes → Capture → Capture
unfolding accept_byte
write_each [] b = b
write_each (value ∷ values) b =
    let more = write_each values (accept_byte value b) in
    if leb b.output.limit (length b.output.data_bytes) then set_matched 0 b else more

-- `(*redactingCappedBuffer).Write`
unfoldable pub write : Bytes → Capture → Capture
unfolding write_each write_capped
write p b = if is_empty b.secret then emit p b else write_each p b

-- the calls of `Write`, one for each piece that arrives
unfoldable pub write_pieces : List Bytes → Capture → Capture
unfolding write
write_pieces [] b = b
write_pieces (p ∷ ps) b = write_pieces ps (write p b)

-- `finish`
unfoldable pub finish : Capture → Capture
unfolding write_capped
finish b = if b.matched == 0 then b else set_matched 0 (emit redacted b)
