-- ===== src/Resolve.antt =====
-- internal/jobresolve/options.go, with internal/config/secret.go: the options of a job, with its
-- secrets read. Identities and files are the answers of a parameter.
pub mod Trimmed
use ezdbbackup.Common.{
  ℕ, Bool, true, false, not, ◌&&◌, ◌||◌, ◌==◌, Option, none, some, List, [], ◌∷◌, ◌++◌, String,
  if◌then◌else◌, Result, ok, err,
}
use ezdbbackup.Common.Exec.{Exec, ◌>>=◌, ◌>>◌, pure, resume}
use ezdbbackup.Common.Bytes.{Bytes, codes, is_empty}
use ezdbbackup.Config.Types.{MySqlConfig, S3Config, JobConfig}
use ezdbbackup.Config.Secrets.{
  SecretRef, password_ref, access_key_id_ref, secret_access_key_ref, session_token_ref,
}
use ezdbbackup.Backup.Fault.{Fault, plain, wrapping, error_text, join_errors}
use ezdbbackup.Backup.Types.{DumpRequest, StorageOptions}

-- `Resolver`, with internal/securepath: who reads, the open of a secret file, its content and its
-- close. Identities and open files go by numbers.
pub record Resolver (E : Type 0) : Type 0 where
  pub read_file : Option (Bytes → E → Result Fault Bytes × E)
  pub current_identity : E → Result Fault ℕ × E
  pub lookup_identity : Bytes → E → Result Fault ℕ × E
  pub open_regular : Bytes → ℕ → E → Result Fault ℕ × E
  pub after_secret_open : Option (ℕ → E → Unit {0} × E)
  pub read_all : ℕ → E → Result Fault Bytes × E
  pub close : ℕ → E → Option Fault × E

-- `TrimRight` with the cut set of CR and LF
unfoldable pub trim_line_end : Bytes → Bytes
trim_line_end [] = []
trim_line_end (c ∷ cs) =
    let rest = trim_line_end cs in
    if is_empty rest && ((c == b'\r') || (c == b'\n')) then [] else c ∷ rest

trimmed : Result Fault Bytes → Result Fault Bytes
trimmed (ok data_) = ok (trim_line_end data_)
trimmed (err f) = err f

exclusive : Fault
exclusive = plain (codes "literal and file secret sources are mutually exclusive")

with_close : Result Fault Bytes → Option Fault → Result Fault Bytes
with_close r none = r
with_close (ok value) (some f) = err (wrapping (codes "close secret file: " ++ error_text f) f)
with_close (err e) (some f) =
    err (join_errors e (wrapping (codes "close secret file: " ++ error_text f) f))

abbrev under : {A : Type 0} → String → Result Fault A → Result Fault A
under text (ok a) = ok a
under text (err f) = err (wrapping (codes text ++ error_text f) f)

module _ {E : Type 0} (r : Resolver E) where
  hook : Option (ℕ → E → Unit {0} × E) → ℕ → Exec E (Unit {0})
  hook none file = pure tt
  hook (some f) file = f file

  open_identity : Bytes → Exec E (Result Fault ℕ)
  open_identity run_as = do
    current ← r.current_identity
    (if is_empty run_as then pure current else r.lookup_identity run_as)

  read_open : ℕ → Exec E (Result Fault Bytes)
  unfolding hook trimmed with_close
  read_open file = do
    hook r.after_secret_open file
    content ← r.read_all file
    closing ← r.close file
    pure (with_close (trimmed content) closing)

  open_as : Bytes → ℕ → Exec E (Result Fault Bytes)
  unfolding read_open
  open_as file who = do opening ← r.open_regular file who; resume opening read_open

  -- a file, by `SecretRef.Resolve` or from the file system
  read_secret :
      Option (Bytes → E → Result Fault Bytes × E) → Bytes → Bytes → Exec E (Result Fault Bytes)
  unfolding trimmed open_identity open_as
  read_secret (some read) file run_as = do content ← read file; pure (trimmed content)
  read_secret none file run_as = do identity ← open_identity run_as; resume identity (open_as file)

  -- `resolveSecret`
  unfoldable pub resolve_secret : SecretRef → Bytes → Exec E (Result Fault Bytes)
  unfolding exclusive read_secret
  resolve_secret reference run_as =
      if not (is_empty reference.literal) && not (is_empty reference.file)
      then pure (err exclusive)
      else if is_empty reference.file
      then pure (ok reference.literal)
      else read_secret r.read_file reference.file run_as

  -- `Resolver.Dump`
  unfoldable pub resolve_dump_options : JobConfig → Exec E (Result Fault DumpRequest)
  unfolding resolve_secret
  resolve_dump_options job = do
    secret ← resolve_secret (password_ref job.mysql) job.run_as
    resume (under "resolve MySQL password: " secret) (λ password. pure (
        ok (record {
          binary = job.dump_binary;
          run_as = job.run_as;
          host = job.mysql.host;
          port = job.mysql.port;
          user = job.mysql.user;
          password = password;
          all_databases = job.mysql.databases.every;
          databases = job.mysql.databases.names;
          extra_args = job.mysql.extra_args;
        })))

  storage_without_credentials : S3Config → StorageOptions
  storage_without_credentials s = record {
    region = s.region;
    endpoint = s.endpoint;
    force_path_style = s.force_path_style;
    access_key_id = [];
    secret_access_key = [];
    session_token = [];
    explicit = false;
  }

  storage_credentials : JobConfig → Exec E (Result Fault StorageOptions)
  unfolding storage_without_credentials resolve_secret
  storage_credentials job = do
    key ← resolve_secret (access_key_id_ref job.s3) job.run_as
    resume (under "resolve S3 access key ID: " key) (λ access_key_id. do
      secret ← resolve_secret (secret_access_key_ref job.s3) job.run_as
      resume (under "resolve S3 secret access key: " secret) (λ secret_access_key. do
        token ← resolve_secret (session_token_ref job.s3) job.run_as
        resume (under "resolve S3 session token: " token) (λ session_token. pure (
            ok (record (storage_without_credentials job.s3) {
              access_key_id = access_key_id;
              secret_access_key = secret_access_key;
              session_token = session_token;
              explicit = true;
            })))))

  -- `Resolver.Storage`
  unfoldable pub resolve_storage_options : JobConfig → Exec E (Result Fault StorageOptions)
  unfolding storage_credentials storage_without_credentials
  resolve_storage_options job =
      if is_empty job.s3.access_key_id && is_empty job.s3.access_key_id_file
      then pure (ok (storage_without_credentials job.s3))
      else storage_credentials job
