-- ===== src/Dump/Args.antt =====
-- internal/dump/args.go: the arguments of a backup, and those of a probe.
use ezdbbackup.Common.{
  Bool, false, Option, none, some, List, [], ◌∷◌, ◌++◌, ℤ, pos, negsuc, suc, if◌then◌else◌,
}
use ezdbbackup.Common.Bytes.{Bytes, codes, member, itoa}
use ezdbbackup.Backup.Types.{DumpRequest}
use ezdbbackup.Dump.LongName.{long_name}

-- `strconv.Itoa`
abbrev itoa_signed : ℤ → Bytes
itoa_signed (pos n) = itoa n
itoa_signed (negsuc n) = b'-' ∷ itoa (suc n)

unfoldable pub connection_args : DumpRequest → List Bytes
connection_args r =
    codes "--no-defaults"
    ∷ (codes "--host=" ++ r.host)
    ∷ (codes "--port=" ++ itoa_signed r.port)
    ∷ (codes "--user=" ++ r.user)
    ∷ []

unfoldable pub append_database_scope : List Bytes → DumpRequest → List Bytes
append_database_scope args r =
    if r.all_databases
    then args ++ codes "--all-databases" ∷ []
    else (args ++ codes "--databases" ∷ codes "--" ∷ []) ++ r.databases

-- `Args`
unfoldable pub args : DumpRequest → List Bytes
unfolding connection_args append_database_scope
args r = append_database_scope (connection_args r ++ r.extra_args) r

abbrev pub probe_connection_options : List Bytes
probe_connection_options =
    codes "bind-address"
    ∷ codes "compress"
    ∷ codes "compression-algorithms"
    ∷ codes "connect-timeout"
    ∷ codes "default-auth"
    ∷ codes "disable-ssl"
    ∷ codes "enable-cleartext-plugin"
    ∷ codes "enable-ssl"
    ∷ codes "get-server-public-key"
    ∷ codes "max-allowed-packet"
    ∷ codes "plugin-dir"
    ∷ codes "protocol"
    ∷ codes "server-public-key-path"
    ∷ codes "skip-ssl"
    ∷ codes "socket"
    ∷ codes "ssl"
    ∷ codes "ssl-ca"
    ∷ codes "ssl-capath"
    ∷ codes "ssl-cert"
    ∷ codes "ssl-cipher"
    ∷ codes "ssl-crl"
    ∷ codes "ssl-crlpath"
    ∷ codes "ssl-fips-mode"
    ∷ codes "ssl-key"
    ∷ codes "ssl-mode"
    ∷ codes "ssl-session-data"
    ∷ codes "ssl-session-data-continue-on-failed-reuse"
    ∷ codes "ssl-verify-server-cert"
    ∷ codes "tls-ciphersuites"
    ∷ codes "tls-sni-servername"
    ∷ codes "tls-version"
    ∷ codes "zstd-compression-level"
    ∷ []

abbrev listed : Option Bytes → Bool
listed none = false
listed (some name) = member name probe_connection_options

unfoldable pub probe_connection_option : Bytes → Bool
unfolding long_name
probe_connection_option arg = listed (long_name arg)

-- the loop of `ProbeArgs`
unfoldable pub probe_extra_args : List Bytes → List Bytes
unfolding probe_connection_option
probe_extra_args [] = []
probe_extra_args (arg ∷ rest) =
    let kept = probe_extra_args rest in if probe_connection_option arg then arg ∷ kept else kept

abbrev probe_baseline : List Bytes
probe_baseline =
    codes "--no-data"
    ∷ codes "--no-create-info"
    ∷ codes "--skip-triggers"
    ∷ codes "--skip-lock-tables"
    ∷ codes "--skip-delete-master-logs"
    ∷ codes "--skip-flush-logs"
    ∷ []

-- `ProbeArgs`
unfoldable pub probe_args : DumpRequest → List Bytes
unfolding probe_extra_args connection_args append_database_scope
probe_args r =
    append_database_scope (connection_args r ++ probe_extra_args r.extra_args ++ probe_baseline) r
