-- ===== src/Cron/Render/Shell.antt =====
-- The command of a cron line, as the shell reads it.
use ezdbbackup.Common.{
  ℕ, ◌≡◌, ap, ◌∙◌, Bool, true, false, ◌||◌, Option, none, some, List, [], ◌∷◌, ◌++◌, append_assoc,
  ◌==◌, ==_iff, if◌then◌else◌, any, Bool-cases, inl, inr, append-nil,
}
use ezdbbackup.Common.Bytes.{Bytes, codes}
use ezdbbackup.Cron.Render.{escape_quotes, posix_quote, command_text}

-- Where the shell stands: outside quotes, or inside quotes of one kind.
data Quoting : Type 0 where
  bare single double : Quoting

abbrev is_blank : ℕ → Bool
is_blank c = c == b' ' || c == b'\t'

-- What the shell gives a meaning outside quotes, so that a word with it is more than its bytes.
abbrev is_special : ℕ → Bool
is_special c = any (λ d. d == c) (codes "|&;<>()$`\\*?[]#~=%!{}\n")

-- The words that have ended, and the one that is read; it was begun if it has bytes or quotes.
record Reader : Type 0 where
  quoting : Quoting
  begun : Bool
  word : Bytes
  words : List Bytes

abbrev end_word : Reader → List Bytes
end_word r = if r.begun then r.words ++ r.word ∷ [] else r.words

abbrev literal : Reader → ℕ → Option Reader
literal r c = some (record r { begun = true; word = r.word ++ c ∷ [] })

-- One character by the quoting rules of POSIX; `none` for what is expanded or is an operator.
step : Quoting → Reader → ℕ → Option Reader
step bare r c =
    if is_blank c
    then some (record { quoting = bare; begun = false; word = []; words = end_word r })
    else if c == 39
    then some (record r { quoting = single; begun = true })
    else if c == 34
    then some (record r { quoting = double; begun = true })
    else if is_special c
    then none
    else literal r c
step single r c = if c == 39 then some (record r { quoting = bare }) else literal r c
step double r c =
    if c == 34
    then some (record r { quoting = bare })
    else if any (λ d. d == c) (codes "$`\\")
    then none
    else literal r c

finish : Quoting → Reader → Option (List Bytes)
finish bare r = some (end_word r)
finish _ r = none

read : Reader → Bytes → Option (List Bytes)
unfolding step finish
read r [] = finish r.quoting r
read r (c ∷ cs) = elim (step r.quoting r c) [ none ↦ none | some r' ↦ read r' cs ]

abbrev reader : Quoting → Bool → Bytes → List Bytes → Reader
reader quoting begun word words = record {
  quoting = quoting;
  begun = begun;
  word = word;
  words = words;
}

-- The words of a simple command as the shell reads it, or `none` if the text is no such command.
pub shell_words : Bytes → Option (List Bytes)
unfolding read
shell_words = read (reader bare false [] [])

-- Inside single quotes the escaped text is read as the text.
read-escape_quotes :
    (value word : Bytes) (words : List Bytes) (rest : Bytes)
    → read (reader single true word words) (escape_quotes value ++ 39 ∷ rest)
      ≡ read (reader bare true (word ++ value) words) rest
unfolding read escape_quotes
read-escape_quotes [] word words rest = rw append-nil
read-escape_quotes (c ∷ cs) word words rest = elim (Bool-cases (c == 39)) [
  | inl e ↦
      rw e
        (read-escape_quotes cs (word ++ 39 ∷ []) words rest ∙ rw ((==_iff c 39).0 e, append_assoc))
  | inr e ↦
      rw e (rw (e, read) (read-escape_quotes cs (word ++ c ∷ []) words rest ∙ rw append_assoc))
]

read-posix_quote :
    (value : Bytes) (begun : Bool) (word : Bytes) (words : List Bytes) (rest : Bytes)
    → read (reader bare begun word words) (posix_quote value ++ rest)
      ≡ read (reader bare true (word ++ value) words) rest
unfolding read posix_quote
read-posix_quote value begun word words rest =
    ap (λ t. read (reader single true word words) t)
      (append_assoc (escape_quotes value) (39 ∷ []) rest)
    ∙ read-escape_quotes value word words rest

-- The shell reads the command of a job's line as five words: the program's path, `backup`, the job's
-- name, `--config` and the configuration's path, each as it was given, whatever it holds.
pub shell_words-command_text :
    (binary_path name config_path : Bytes)
    → shell_words (command_text binary_path name config_path)
      ≡ some (binary_path ∷ codes "backup" ∷ name ∷ codes "--config" ∷ config_path ∷ [])
unfolding shell_words command_text
shell_words-command_text binary_path name config_path =
    read-posix_quote binary_path false [] [] _
    ∙ read-posix_quote name false [] (binary_path ∷ codes "backup" ∷ []) _
    ∙ read-escape_quotes config_path []
        (binary_path ∷ codes "backup" ∷ name ∷ codes "--config" ∷ []) []
