-- ===== src/Server/Routing/Params.antt =====
-- The parameters of a path.
use thinger_http.Common.{
  ◌≡◌, ◌≢◌, refl, ap, ◌∙◌, inl, inr, false, Option, none, some, List, [], ◌∷◌, if◌then◌else◌, Bytes,
  bytes_eq, bytes_eq_iff, bytes_eq_self, All, Bool-cases, arith,
}
use thinger_http.Util.Url.{Multimap, emplace}
use thinger_http.Server.Exchange.{erase, set_param, get_param}
use thinger_http.Server.Routing.{store_params}

bytes_eq_ne : (xs ys : Bytes) → xs ≢ ys → bytes_eq xs ys ≡ false
bytes_eq_ne xs ys h = ground (arith, bytes_eq_iff xs ys)

get_param-erase_ne : (j k : Bytes) (m : Multimap) → j ≢ k → get_param j (erase k m) ≡ get_param j m
unfolding get_param erase
get_param-erase_ne j k [] h = refl
get_param-erase_ne j k ((i, v) ∷ m) h =
    ground (arith, get_param-erase_ne j k m h, bytes_eq_iff i k, bytes_eq_iff i j)

-- A key that is not there is found once it is put in.
get_param-emplace-erase : (k v : Bytes) (m : Multimap) → get_param k (emplace k v (erase k m)) ≡ v
unfolding get_param emplace erase
get_param-emplace-erase k v [] = ground (arith, bytes_eq_self k)
get_param-emplace-erase k v ((j, w) ∷ m) =
    ground (arith, get_param-emplace-erase k v m, bytes_eq_self k)

get_param-emplace_ne :
    (j k v : Bytes) (m : Multimap) → j ≢ k → get_param j (emplace k v m) ≡ get_param j m
unfolding get_param emplace
get_param-emplace_ne j k v [] h = ground (arith, bytes_eq_iff k j)
get_param-emplace_ne j k v ((i, w) ∷ m) h =
    ground (arith, get_param-emplace_ne j k v m h, bytes_eq_iff k j)

pub get_param-set_param : (k v : Bytes) (m : Multimap) → get_param k (set_param k v m) ≡ v
unfolding set_param
get_param-set_param k v m = get_param-emplace-erase k v m

pub get_param-set_param_ne :
    (j k v : Bytes) (m : Multimap) → j ≢ k → get_param j (set_param k v m) ≡ get_param j m
unfolding set_param
get_param-set_param_ne j k v m h =
    get_param-emplace_ne j k v (erase k m) h ∙ get_param-erase_ne j k m h

-- The group of the first parameter with a name.
abbrev pub group_of : Bytes → List Bytes → List (Option Bytes) → Option Bytes
group_of k [] groups = none
group_of k (p ∷ ps) [] = none
group_of k (p ∷ ps) (g ∷ groups) = if bytes_eq p k then g else group_of k ps groups

abbrev pub value_or : Bytes → Option Bytes → Bytes
value_or old none = old
value_or old (some v) = v

-- No two parameters have a name in common.
abbrev pub AreDistinct : List Bytes → Type 0
AreDistinct [] = Unit
AreDistinct (p ∷ ps) = All (λ q. p ≢ q) ps × AreDistinct ps

get_param-store_params_ne :
    (k : Bytes) (ps : List Bytes) (groups : List (Option Bytes)) (m : Multimap)
    → All (λ q. k ≢ q) ps
    → get_param k (store_params ps groups m) ≡ get_param k m
unfolding store_params
get_param-store_params_ne k [] groups m h = refl
get_param-store_params_ne k (p ∷ ps) [] m h = refl
get_param-store_params_ne k (p ∷ ps) (none ∷ groups) m h =
    get_param-store_params_ne k ps groups m h.1
get_param-store_params_ne k (p ∷ ps) (some v ∷ groups) m h =
    get_param-store_params_ne k ps groups (set_param p v m) h.1 ∙ get_param-set_param_ne k p v m h.0

-- Where the parameters of a route have different names, each of them has the value of its group
-- afterwards, where that took part in the match, and every other name has the value that it had.
pub get_param-store_params :
    (k : Bytes) (ps : List Bytes) (groups : List (Option Bytes)) (m : Multimap)
    → AreDistinct ps
    → get_param k (store_params ps groups m) ≡ value_or (get_param k m) (group_of k ps groups)
unfolding store_params
get_param-store_params k [] groups m h = refl
get_param-store_params k (p ∷ ps) [] m h = refl
get_param-store_params k (p ∷ ps) (none ∷ groups) m h = elim (Bool-cases (bytes_eq p k)) [
  | inl e ↦ rw (e) (get_param-store_params_ne k ps groups m (rw⁻¹ ((bytes_eq_iff p k).0 e) h.0))
  | inr e ↦ rw (e) (get_param-store_params k ps groups m h.1)
]
get_param-store_params k (p ∷ ps) (some v ∷ groups) m h = elim (Bool-cases (bytes_eq p k)) [
  | inl e ↦ rw (e) (
      let same = (bytes_eq_iff p k).0 e in
      rw⁻¹ (same)
        (get_param-store_params_ne p ps groups (set_param p v m) h.0 ∙ get_param-set_param p v m))
  | inr e ↦ rw (e) (
      get_param-store_params k ps groups (set_param p v m) h.1
      ∙ ap (λ t. value_or t (group_of k ps groups))
          (get_param-set_param_ne k p v m (ground (arith, bytes_eq_self k))))
]
