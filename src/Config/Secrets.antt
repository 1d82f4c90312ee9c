-- ===== src/Config/Secrets.antt =====
-- internal/config/secret.go: where a secret comes from.
use ezdbbackup.Common.Bytes.{Bytes}
use ezdbbackup.Config.Types.{MySqlConfig, S3Config}

pub record SecretRef : Type 0 where
  pub literal : Bytes
  pub file : Bytes

abbrev pub password_ref : MySqlConfig → SecretRef
password_ref m = record { literal = m.password; file = m.password_file }

abbrev pub access_key_id_ref : S3Config → SecretRef
access_key_id_ref s = record { literal = s.access_key_id; file = s.access_key_id_file }

abbrev pub secret_access_key_ref : S3Config → SecretRef
secret_access_key_ref s = record { literal = s.secret_access_key; file = s.secret_access_key_file }

abbrev pub session_token_ref : S3Config → SecretRef
session_token_ref s = record { literal = s.session_token; file = s.session_token_file }
