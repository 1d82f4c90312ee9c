-- ===== src/Dump/Environment.antt =====
-- internal/dump/runner.go: the environment of the child process.
pub mod Lookup
use ezdbbackup.Common.{Bool, true, false, ◌||◌, List, [], ◌∷◌, ◌++◌, ◌==◌, if◌then◌else◌}
use ezdbbackup.Common.Bytes.{Bytes, codes, is_empty, equal, member}

-- `name, _, _ := strings.Cut(entry, "=")`
unfoldable pub entry_name : Bytes → Bytes
entry_name [] = []
entry_name (c ∷ cs) = let rest = entry_name cs in if c == b'=' then [] else c ∷ rest

abbrev pub password_name : Bytes
password_name = codes "MYSQL_PWD"

-- `cloudCredentialEnvironment`
unfoldable pub cloud_credential_environment : List Bytes
cloud_credential_environment =
    codes "AMAZON_ACCESS_KEY_ID"
    ∷ codes "AMAZON_ACCESS_KEY"
    ∷ codes "AMAZON_SECURITY_TOKEN"
    ∷ codes "AMAZON_SECRET_ACCESS_KEY"
    ∷ codes "AMAZON_SECRET_KEY"
    ∷ codes "AWS_ACCESS_KEY"
    ∷ codes "AWS_ACCESS_KEY_ID"
    ∷ codes "AWS_CONFIG_FILE"
    ∷ codes "AWS_CONTAINER_AUTHORIZATION_TOKEN"
    ∷ codes "AWS_CONTAINER_AUTHORIZATION_TOKEN_FILE"
    ∷ codes "AWS_CONTAINER_CREDENTIALS_FULL_URI"
    ∷ codes "AWS_CONTAINER_CREDENTIALS_RELATIVE_URI"
    ∷ codes "AWS_CREDENTIAL_FILE"
    ∷ codes "AWS_CREDENTIAL_PROFILES_FILE"
    ∷ codes "AWS_CREDENTIALS_FILE"
    ∷ codes "AWS_DEFAULT_PROFILE"
    ∷ codes "AWS_PROFILE"
    ∷ codes "AWS_ROLE_ARN"
    ∷ codes "AWS_ROLE_SESSION_NAME"
    ∷ codes "AWS_SECRET_ACCESS_KEY"
    ∷ codes "AWS_SECRET_KEY"
    ∷ codes "AWS_SECURITY_TOKEN"
    ∷ codes "AWS_SESSION_TOKEN"
    ∷ codes "AWS_SHARED_CREDENTIALS_FILE"
    ∷ codes "AWS_WEB_IDENTITY_TOKEN_FILE"
    ∷ []

unfoldable pub dropped : Bytes → Bool
unfolding cloud_credential_environment
dropped name = if equal name password_name then true else member name cloud_credential_environment

-- the loop over `os.Environ()`
unfoldable pub kept_entries : List Bytes → List Bytes
unfolding entry_name dropped
kept_entries [] = []
kept_entries (entry ∷ entries) =
    let rest = kept_entries entries in if dropped (entry_name entry) then rest else entry ∷ rest

abbrev pub password_entry : Bytes → List Bytes
password_entry password =
    if is_empty password then [] else (password_name ++ (codes "=" ++ password)) ∷ []

-- `childEnv`
unfoldable pub child_env : List Bytes → Bytes → List Bytes
unfolding kept_entries
child_env environ password = kept_entries environ ++ password_entry password
