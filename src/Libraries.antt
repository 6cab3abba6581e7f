-- ===== src/Libraries.antt =====
-- The calls of a server that stand outside the repository: zlib, std::regex and nlohmann::json.
use mathlib.Core.List.{List}
use thinger_http.Common.{ℕ, Bool, Option, Bytes}

-- `compress` and `decompress` of `util::gzip` and `util::deflate`; `none` is a failure.
pub record Zlib : Type 0 where
  pub gzip : Bytes → Option Bytes
  pub deflate : Bytes → Option Bytes
  pub gunzip : Bytes → Option Bytes
  pub inflate : Bytes → Option Bytes

-- `std::regex_match` of a regular expression and a whole path: the groups, `none` for a group that
-- took no part.
pub record Regex : Type 0 where
  pub regex_match : Bytes → Bytes → Option (List (Option Bytes))

-- `nlohmann::json`: `parse` without exceptions, and the value that is constructed by default.
pub record JsonLib (J : Type 0) : Type 0 where
  pub parse : Bytes → Option J
  pub null : J

-- The groups of `uri_regex` in `set_url` that the code reads.
pub record UrlParts : Type 0 where
  pub protocol : Bytes
  pub host : Bytes
  pub port : Bytes
  pub uri : Bytes

-- `std::regex_match` of `uri_regex`
pub record UriRegex : Type 0 where
  pub split_url : Bytes → Option UrlParts

-- `std::filesystem` and `std::ifstream`; `none` is an exception, or a file that cannot be opened.
pub record Filesystem : Type 0 where
  pub canonical : Bytes → Option Bytes
  pub weakly_canonical : Bytes → Option Bytes
  -- `operator/`
  pub join : Bytes → Bytes → Bytes
  pub exists : Bytes → Bool
  pub is_regular_file : Bytes → Bool
  pub is_directory : Bytes → Bool
  pub contents : Bytes → Option Bytes
  pub extension : Bytes → Bytes
  pub filename : Bytes → Bytes

-- `std::hex` of a `std::ostringstream`
pub record HexStream : Type 0 where
  pub hex : ℕ → Bytes
