-- ===== src/Config/Endpoint.antt =====
-- internal/config/validate.go: the check of an endpoint, and what it needs of other packages.
use ezdbbackup.Common.{
  Bool, false, not, ◌&&◌, ◌||◌, Option, none, some, List, [], ◌∷◌, ◌==◌, within, if◌then◌else◌, ℤ,
  pos, negsuc,
}
use ezdbbackup.Common.Bytes.{Bytes, codes, is_empty, equal, contains_byte}
use ezdbbackup.Common.Utf8.{valid_string, has_control}
use ezdbbackup.Config.Schedule.{ScheduleError}
use ezdbbackup.Config.Findings.{Finding, job_error, job_warning}
use ezdbbackup.Config.Patterns.{valid_endpoint_host}

abbrev pub in_port_range : ℤ → Bool
in_port_range (pos n) = within 1 65535 n
in_port_range (negsuc n) = false

-- What `url.ParseRequestURI` and the methods of `url.URL` give; the path is none where it cannot be
-- unescaped.
pub record Endpoint : Type 0 where
  pub scheme : Bytes
  pub host : Bytes
  pub hostname : Bytes
  pub port : Bytes
  pub has_user : Bool
  pub raw_query : Bytes
  pub force_query : Bool
  pub fragment : Bytes
  pub opaque : Bytes
  pub decoded_path : Option Bytes

-- The packages `net` and `net/url`, `strconv.Atoi`, and the texts of schedule errors.
pub record Texts : Type 0 where
  pub parse_request_uri : Bytes → Option Endpoint
  pub is_ip : Bytes → Bool
  pub atoi : Bytes → Option ℤ
  pub schedule_text : ScheduleError → Bytes

module _ (texts : Texts) where
  abbrev valid_path : Option Bytes → Bool
  valid_path none = false
  valid_path (some path) = valid_string path && not (has_control path)

  abbrev ends_in_colon : Bytes → Bool
  ends_in_colon [] = false
  ends_in_colon (c ∷ []) = c == b':'
  ends_in_colon (c ∷ d ∷ ds) = ends_in_colon (d ∷ ds)

  abbrev valid_port_value : Option ℤ → Bool
  valid_port_value none = false
  valid_port_value (some value) = in_port_range value

  abbrev is_http : Bytes → Bool
  is_http scheme = equal scheme (codes "http") || equal scheme (codes "https")

  -- `validEndpointURL`
  unfoldable pub valid_endpoint_url : Bytes → Endpoint → Bool
  valid_endpoint_url raw u =
      valid_string raw
      && not (has_control raw)
      && not (contains_byte raw b'#')
      && not (is_empty u.host)
      && is_http u.scheme
      && not u.has_user
      && is_empty u.raw_query
      && not u.force_query
      && is_empty u.fragment
      && is_empty u.opaque
      && valid_path u.decoded_path
      && not (is_empty u.hostname)
      && valid_endpoint_host texts.is_ip u.hostname
      && not (ends_in_colon u.host)
      && (is_empty u.port || valid_port_value (texts.atoi u.port))

  endpoint_error : Bytes → Bytes → List Finding
  endpoint_error job path = job_error job path (
      codes
        "must be an http:// or https:// URL with a valid host and no userinfo, query, fragment, or control characters")

  parsed_endpoint : Bytes → Bytes → Bytes → Option Endpoint → List Finding
  parsed_endpoint job path endpoint none = endpoint_error job path
  parsed_endpoint job path endpoint (some u) =
      if not (valid_endpoint_url endpoint u)
      then endpoint_error job path
      else if equal u.scheme (codes "http")
      then job_warning job path (codes "plain HTTP endpoint configured")
      else []

  -- `validateEndpoint`
  unfoldable pub validate_endpoint : Bytes → Bytes → Bytes → List Finding
  unfolding parsed_endpoint endpoint_error
  validate_endpoint job path endpoint =
      if is_empty endpoint
      then []
      else parsed_endpoint job path endpoint (texts.parse_request_uri endpoint)
