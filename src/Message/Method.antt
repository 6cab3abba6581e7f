-- ===== src/Message/Method.antt =====
-- thinger/http/common/http_request.{hpp,cpp}: the methods and their names.
use thinger_http.Common.{
  ◌≡◌, ◌≢◌, refl, ◌⊎◌, inl, List, [], ◌∷◌, if◌then◌else◌, Bytes, codes, bytes_eq, bytes_eq_iff,
  arith,
}

pub data Method : Type 0 where
  get head post put delete trace options connect patch unknown : Method

-- `get_method(method)`; the default is the empty string.
unfoldable pub method_string : Method → Bytes
method_string get = codes "GET"
method_string head = codes "HEAD"
method_string post = codes "POST"
method_string put = codes "PUT"
method_string delete = codes "DELETE"
method_string trace = codes "TRACE"
method_string options = codes "OPTIONS"
method_string connect = codes "CONNECT"
method_string patch = codes "PATCH"
method_string unknown = []

-- the entries of the map `methods`
abbrev methods : List Method
methods = get ∷ head ∷ post ∷ put ∷ delete ∷ trace ∷ options ∷ connect ∷ patch ∷ []

find_method : Bytes → List Method → Method
unfolding method_string
find_method s [] = unknown
find_method s (m ∷ ms) = if bytes_eq (method_string m) s then m else find_method s ms

-- `get_method(const std::string&)`
unfoldable pub get_method : Bytes → Method
unfolding find_method
get_method s = find_method s methods

-- Reading the name of a method gives the method back; `unknown` has the empty name.
pub get_method-method_string : (m : Method) → get_method (method_string m) ≡ m
unfolding get_method bytes_eq
get_method-method_string get = refl
get_method-method_string head = refl
get_method-method_string post = refl
get_method-method_string put = refl
get_method-method_string delete = refl
get_method-method_string trace = refl
get_method-method_string options = refl
get_method-method_string connect = refl
get_method-method_string patch = refl
get_method-method_string unknown = refl

find_method-eq :
    (s : Bytes) (ms : List Method)
    → (find_method s ms ≡ unknown) ⊎ (method_string (find_method s ms) ≡ s)
unfolding find_method
find_method-eq s [] = inl refl
find_method-eq s (m ∷ ms) = ground (arith, find_method-eq s ms, bytes_eq_iff (method_string m) s)

-- A text is read as a method only if it is the name of that method, in this very case.
pub method_string-get_method :
    (s : Bytes) → get_method s ≢ unknown → method_string (get_method s) ≡ s
unfolding get_method
method_string-get_method s h = ground (arith, find_method-eq s methods)
