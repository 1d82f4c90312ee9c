-- ===== src/Resolve/Trimmed.antt =====
-- internal/jobresolve/options.go and internal/config/secret.go: secrets that are read from files.
use ezdbbackup.Common.{
  arith, ℕ, ◌≡◌, ◌≢◌, refl, ap, ◌⊎◌, inl, inr, Bool, true, false, Bool-cases, ==_iff, ◌==◌, ◌&&◌,
  ◌||◌, if◌then◌else◌, All, Option, none, some, [], ◌∷◌, ◌++◌, Result, ok, err,
}
use ezdbbackup.Common.Exec.{resume}
use ezdbbackup.Common.Bytes.{Bytes, is_empty}
use ezdbbackup.Backup.Fault.{Fault}
use ezdbbackup.Config.Secrets.{SecretRef}
use ezdbbackup.Resolve.{
  Resolver, trim_line_end, trimmed, with_close, read_open, open_identity, open_as, read_secret,
  resolve_secret,
}

-- CR or LF
abbrev pub IsLineEnd : ℕ → Type 0
IsLineEnd c = (c ≡ 13) ⊎ (c ≡ 10)

-- the last byte is neither CR nor LF
abbrev pub EndsClean : Bytes → Type 0
EndsClean [] = Unit
EndsClean (c ∷ []) = (c ≢ 13) × (c ≢ 10)
EndsClean (c ∷ d ∷ ds) = EndsClean (d ∷ ds)

-- The value is the content without the CRs and LFs at its end.
pub record IsContent (content value : Bytes) : Type 0 where
  pub ending : Bytes
  pub split_at : content ≡ value ++ ending
  pub line_ends : All IsLineEnd ending
  pub ends_clean : EndsClean value

in_front :
    (c : ℕ) (value : Bytes) → is_empty value ≡ false → EndsClean value → EndsClean (c ∷ value)
in_front c [] n h = absurd cc
in_front c (d ∷ value) n h = h

line_end : (c : ℕ) → ((c == 13) || (c == 10)) ≡ true → IsLineEnd c
line_end c h = elim (Bool-cases (c == 13)) [
  | inl e ↦ inl ((==_iff c 13).0 e)
  | inr e ↦ inr ((==_iff c 10).0 (ground arith))
]

no_line_end : (c : ℕ) → ((c == 13) || (c == 10)) ≡ false → (c ≢ 13) × (c ≢ 10)
no_line_end c h = ground arith

trim_line_end-IsContent : (content : Bytes) → IsContent content (trim_line_end content)
unfolding trim_line_end
trim_line_end-IsContent [] = record {
  ending = [];
  split_at = refl;
  line_ends = tt;
  ends_clean = tt;
}
trim_line_end-IsContent (c ∷ cs) =
    step (trim_line_end cs) (trim_line_end-IsContent cs) (Bool-cases (is_empty (trim_line_end cs)))
      (Bool-cases ((c == 13) || (c == 10)))
  where
    step :
        (rest : Bytes)
        → IsContent cs rest
        → (is_empty rest ≡ true) ⊎ (is_empty rest ≡ false)
        → (((c == 13) || (c == 10)) ≡ true) ⊎ (((c == 13) || (c == 10)) ≡ false)
        → IsContent (c ∷ cs) (if is_empty rest && ((c == 13) || (c == 10)) then [] else c ∷ rest)
    step [] k a (inl h) = rw h (record {
      ending = c ∷ k.ending;
      split_at = ap (λ l. c ∷ l) k.split_at;
      line_ends = (line_end c h, k.line_ends);
      ends_clean = tt;
    })
    step [] k a (inr h) = rw h (record {
      ending = k.ending;
      split_at = ap (λ l. c ∷ l) k.split_at;
      line_ends = k.line_ends;
      ends_clean = no_line_end c h;
    })
    step (d ∷ ds) k a b = record {
      ending = k.ending;
      split_at = ap (λ l. c ∷ l) k.split_at;
      line_ends = k.line_ends;
      ends_clean = k.ends_clean;
    }

module _ {E : Type 0} (r : Resolver E) where
  -- Who reads the file: the program's own identity, if the job names no account, or else that of the
  -- account.
  abbrev pub Reader : Bytes → E → Result Fault ℕ → Type 0
  Reader run_as e a =
      ((is_empty run_as ≡ true) × ((r.current_identity e).0 ≡ a))
      ⊎ ((is_empty run_as ≡ false) × ((r.lookup_identity run_as e).0 ≡ a))

  -- The file is open, by its path, for the identity that is to read it.
  pub record WasOpened (file run_as : Bytes) (opened : ℕ) : Type 0 where
    pub not_injected : r.read_file ≡ none
    pub who : ℕ
    pub asked_in : E
    pub identity : Reader run_as asked_in (ok who)
    pub opened_in : E
    pub open_answer : (r.open_regular file who opened_in).0 ≡ ok opened

  -- What becomes of the secret in a file: its content, without the CRs and LFs at the end, where it is
  -- read and closed, and an error only where a call failed.
  pub data IsResolved (file run_as : Bytes) (e : E) : Result Fault Bytes → Type 0 where
    injected_value :
        (read : Bytes → E → Result Fault Bytes × E) (content value : Bytes)
        → r.read_file ≡ some read
        → (read file e).0 ≡ ok content
        → IsContent content value
        → IsResolved file run_as e (ok value)
    injected_error :
        (read : Bytes → E → Result Fault Bytes × E) (f : Fault)
        → r.read_file ≡ some read
        → (read file e).0 ≡ err f
        → IsResolved file run_as e (err f)
    file_value :
        (opened : ℕ) (e₂ e₃ : E) (content value : Bytes)
        → WasOpened file run_as opened
        → (r.read_all opened e₂).0 ≡ ok content
        → (r.close opened e₃).0 ≡ none
        → IsContent content value
        → IsResolved file run_as e (ok value)
    no_identity : (e₁ : E) (f : Fault) → Reader run_as e₁ (err f) → IsResolved file run_as e (err f)
    not_opened :
        (who : ℕ) (e₀ e₁ : E) (f : Fault)
        → Reader run_as e₀ (ok who)
        → (r.open_regular file who e₁).0 ≡ err f
        → IsResolved file run_as e (err f)
    not_read :
        (opened : ℕ) (e₂ : E) (f g : Fault)
        → WasOpened file run_as opened
        → (r.read_all opened e₂).0 ≡ err f
        → IsResolved file run_as e (err g)
    not_closed :
        (opened : ℕ) (e₃ : E) (f g : Fault)
        → WasOpened file run_as opened
        → (r.close opened e₃).0 ≡ some f
        → IsResolved file run_as e (err g)

  module _ (file run_as : Bytes) (e : E) where
    closed-IsResolved :
        (opened : ℕ) (e₂ e₃ : E) (content : Result Fault Bytes) (closing : Option Fault)
        → WasOpened file run_as opened
        → (r.read_all opened e₂).0 ≡ content
        → (r.close opened e₃).0 ≡ closing
        → IsResolved file run_as e (with_close (trimmed content) closing)
    unfolding with_close trimmed
    closed-IsResolved opened e₂ e₃ (ok content) none o h k =
        file_value opened e₂ e₃ content _ o h k (trim_line_end-IsContent content)
    closed-IsResolved opened e₂ e₃ (ok content) (some f) o h k = not_closed opened e₃ f _ o k
    closed-IsResolved opened e₂ e₃ (err f) none o h k = not_read opened e₂ f _ o h
    closed-IsResolved opened e₂ e₃ (err g) (some f) o h k = not_closed opened e₃ f _ o k

    opened-IsResolved :
        (who : ℕ) (e₀ e₁ : E) (a : Result Fault ℕ) (e₂ : E)
        → r.read_file ≡ none
        → Reader run_as e₀ (ok who)
        → (r.open_regular file who e₁).0 ≡ a
        → IsResolved file run_as e (resume a (read_open r) e₂).0
    unfolding read_open
    opened-IsResolved who e₀ e₁ (ok opened) e₂ n i o =
        closed-IsResolved opened _ _ _ _
          (record {
            not_injected = n;
            who = who;
            asked_in = e₀;
            identity = i;
            opened_in = e₁;
            open_answer = o;
          })
          refl refl
    opened-IsResolved who e₀ e₁ (err f) e₂ n i o = not_opened who e₀ e₁ f i o

    identified-IsResolved :
        (e₁ : E) (a : Result Fault ℕ) (e₂ : E)
        → r.read_file ≡ none
        → Reader run_as e₁ a
        → IsResolved file run_as e (resume a (open_as r file) e₂).0
    unfolding open_as
    identified-IsResolved e₁ (ok who) e₂ n i = opened-IsResolved who e₁ e₂ _ _ n i refl
    identified-IsResolved e₁ (err f) e₂ n i = no_identity e₁ f i

    by_name-IsResolved :
        (b : Bool)
        → is_empty run_as ≡ b
        → r.read_file ≡ none
        → IsResolved file run_as e (read_secret r none file run_as e).0
    unfolding read_secret open_identity
    by_name-IsResolved true h n = rw h (identified-IsResolved e _ _ n (inl (h, refl)))
    by_name-IsResolved false h n =
        rw h (identified-IsResolved (r.current_identity e).1 _ _ n (inr (h, refl)))

    injected-IsResolved :
        (read : Bytes → E → Result Fault Bytes × E) (content : Result Fault Bytes)
        → r.read_file ≡ some read
        → (read file e).0 ≡ content
        → IsResolved file run_as e (trimmed content)
    unfolding trimmed
    injected-IsResolved read (ok content) h k =
        injected_value read content _ h k (trim_line_end-IsContent content)
    injected-IsResolved read (err f) h k = injected_error read f h k

    read_secret-IsResolved :
        (o : Option (Bytes → E → Result Fault Bytes × E))
        → r.read_file ≡ o
        → IsResolved file run_as e (read_secret r o file run_as e).0
    unfolding read_secret
    read_secret-IsResolved none h = by_name-IsResolved _ refl h
    read_secret-IsResolved (some read) h = injected-IsResolved read _ h refl

  -- A secret with a file and no literal is resolved to the content of the file without the CRs and LFs
  -- at its end, so that it ends with neither. The content is what the injected reader gives for the
  -- file, if there is one; else it is what is read from a file that was opened under that path, for
  -- the identity of the account that the job names or, without one, of the program, and that closes
  -- without an error. There is an error only where the reader, the look at the identity, the open, the
  -- read or the close gave one.
  pub resolve_secret-IsResolved :
      (reference : SecretRef) (run_as : Bytes) (e : E)
      → is_empty reference.literal ≡ true
      → is_empty reference.file ≡ false
      → IsResolved reference.file run_as e (resolve_secret r reference run_as e).0
  unfolding resolve_secret
  resolve_secret-IsResolved reference run_as e l f =
      rw (l, f) (read_secret-IsResolved reference.file run_as e r.read_file refl)
