-- ===== src/Event.antt =====
-- The metrics event: sidecar-go/models/event.go.
use duckdb_load_testing_tool.Prelude.{String, Bool, not, ◌||◌, str_eq, Option, none, some}
use duckdb_load_testing_tool.Prelude.Int.{ℤ, pos, leb_ℤ}
use duckdb_load_testing_tool.Prelude.Dict.{Dict, lookup}

-- `tags` is none for a nil map.
pub record Event (F : Type 0) : Type 0 where
  pub run_id : String
  pub ts : ℤ
  pub pod_id : String
  pub vu : ℤ
  pub iter : ℤ
  pub method : String
  pub url : String
  pub name : String
  pub status : ℤ
  pub body_len : ℤ
  pub rtt : F
  pub dns_lookup : F
  pub tcp_connect : F
  pub tls_handshake : F
  pub ttfb : F
  pub content_transfer : F
  pub request_size : ℤ
  pub response_size : ℤ
  pub error_code : String
  pub error_msg : String
  pub tags : Option (Dict String)

-- A read of a map gives the zero value for a missing key.
abbrev or_empty : Option String → String
or_empty none = ""
or_empty (some s) = s

abbrev tag_of : Option (Dict String) → String → String
tag_of none key = ""
tag_of (some tags) key = or_empty (lookup key tags)

module _ {F : Type 0} where
  -- (*Event).IsError
  unfoldable pub is_error : Event F → Bool
  is_error e = not (str_eq e.error_code "") || leb_ℤ (pos 400) e.status

  -- (*Event).GetTag
  unfoldable pub get_tag : Event F → String → String
  get_tag e key = tag_of e.tags key
