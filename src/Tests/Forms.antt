-- ===== src/Tests/Forms.antt =====
-- The text of pairs and of forms at concrete inputs.
use thinger_http.Common.{◌≡◌, refl, List, Bytes, [], ◌∷◌, codes, All, arith}
use thinger_http.Util.Url.{parse_url_encoded_data, get_url_encoded_data}
use thinger_http.Util.Url.Pairs.{IsPair, emplace_all, parse_url_encoded_data-get_url_encoded_data}
use thinger_http.Message.Method
use thinger_http.Client.Form.{file, Form, new_form, fields, is_multipart, body}
use thinger_http.Client.Form.RoundTrip.{parse_url_encoded_data-body}

abbrev pairs : List (Bytes × Bytes)
pairs = (codes "a key", codes "a b&c=d") ∷ (codes "a key", []) ∷ (codes "z", codes "%2") ∷ []

pairs-IsPair : All IsPair pairs
pairs-IsPair = (
  record { named = refl; key_bytes = omega arith; value_bytes = omega arith },
  (
    record { named = refl; key_bytes = omega arith; value_bytes = tt },
    (record { named = refl; key_bytes = omega arith; value_bytes = omega arith }, tt),
  ),
)

parse_url_encoded_data-get_url_encoded_data_example :
    parse_url_encoded_data (get_url_encoded_data pairs) [] ≡ emplace_all pairs []
parse_url_encoded_data-get_url_encoded_data_example =
    parse_url_encoded_data-get_url_encoded_data pairs [] pairs-IsPair

abbrev login : Form
login = fields pairs new_form

parse_url_encoded_data-body_example :
    parse_url_encoded_data (body (codes "----x") login).0 [] ≡ emplace_all pairs []
unfolding fields is_multipart
parse_url_encoded_data-body_example =
    parse_url_encoded_data-body (codes "----x") login [] refl pairs-IsPair

abbrev upload : Form
upload =
    file
      (record {
        name = codes "f";
        filename = codes "a.txt";
        content_type = codes "text/plain";
        content = codes "abc";
      })
      login
