-- ===== src/Server/MimeTypes.antt =====
-- thinger/http/server/mime_types.{hpp,cpp}: the content type of a file extension.
pub mod FirstTypes
pub mod MiddleTypes
pub mod LastTypes
use mathlib.Core.List.{map}
use thinger_http.Common.{
  ℕ, ◌+◌, Option, none, some, List, [], ◌∷◌, ◌++◌, ◌==◌, within, if◌then◌else◌, Bytes, codes,
  bytes_eq,
}
use thinger_http.Server.MimeTypes.FirstTypes.{first_types}
use thinger_http.Server.MimeTypes.MiddleTypes.{middle_types}
use thinger_http.Server.MimeTypes.LastTypes.{last_types}

abbrev pub text_plain : Bytes
text_plain = codes "text/plain"

-- `extension_map`; of two entries with one key, a map that is built from them keeps the first.
unfoldable pub extension_map : List (Bytes × Bytes)
unfolding first_types middle_types last_types
extension_map = first_types ++ (middle_types ++ last_types)

-- `tolower` in the C locale
unfoldable pub to_lower : ℕ → ℕ
to_lower c = if within b'A' b'Z' c then c + 32 else c

-- the first `if` of `extension_to_type`
unfoldable pub strip_dot : Bytes → Bytes
strip_dot [] = []
strip_dot (c ∷ cs) = if c == b'.' then cs else c ∷ cs

-- `extension_map.find`, or the default
unfoldable pub find_type : Bytes → List (Bytes × Bytes) → Bytes
find_type ext [] = text_plain
find_type ext ((key, type) ∷ types) = if bytes_eq key ext then type else find_type ext types

unfoldable pub extension_to_type : Bytes → Bytes
unfolding find_type to_lower strip_dot extension_map
extension_to_type extension = find_type (map to_lower (strip_dot extension)) extension_map
