-- ===== src/Tests/Ascii.antt =====
-- boost::algorithm on ASCII text, for concrete inputs.
use mathlib.Core.List.{map, reverse}
use thinger_http.Common.{
  ℕ, zero, suc, ltb, ◌/◌, ◌%◌, ◌+◌, ◌≡◌, refl, sym, ◌∙◌, Bool, true, ◌||◌, List, [], ◌∷◌, ◌++◌,
  ◌==◌, within, if◌then◌else◌, Bytes, bytes_eq, bytes_eq_iff,
}
use thinger_http.Boost.{Boost, IsEquivalence}

unfoldable pub lower : ℕ → ℕ
lower c = if within b'A' b'Z' c then c + 32 else c

unfoldable pub ascii_iequals : Bytes → Bytes → Bool
unfolding bytes_eq lower
ascii_iequals k j = bytes_eq (map lower k) (map lower j)

-- `std::isspace`
is_space : ℕ → Bool
is_space c = c == b' ' || within b'\t' b'\r' c

trim_left : Bytes → Bytes
unfolding is_space
trim_left [] = []
trim_left (c ∷ cs) = if is_space c then trim_left cs else c ∷ cs

unfoldable pub ascii_trim : Bytes → Bytes
unfolding trim_left
ascii_trim s = reverse (trim_left (reverse (trim_left s)))

unfoldable pub split_from : Bytes → Bytes → List Bytes
split_from cur [] = cur ∷ []
split_from cur (c ∷ cs) =
    let closed = cur ∷ split_from [] cs in
    let longer = split_from (cur ++ c ∷ []) cs in if c == b',' then closed else longer

-- The fuel is one more than the number of digits that are left at most.
unfoldable pub decimal_digits : ℕ → ℕ → Bytes → Bytes
decimal_digits zero n later = later
decimal_digits (suc f) n later =
    let rest = decimal_digits f (n / 10) ((b'0' + n % 10) ∷ later) in
    if ltb n 10 then (b'0' + n) ∷ later else rest

instance abbrev pub ascii : Boost
ascii = record {
  iequals = ascii_iequals;
  trim = ascii_trim;
  split_commas = split_from [];
  to_lower = map lower;
  decimal = λ n. decimal_digits 20 n [];
}

iequals_iff_to : (k j : Bytes) → ascii_iequals k j ≡ true → map lower k ≡ map lower j
unfolding ascii_iequals
iequals_iff_to k j h = (bytes_eq_iff (map lower k) (map lower j)).0 h

iequals_iff_from : (k j : Bytes) → map lower k ≡ map lower j → ascii_iequals k j ≡ true
unfolding ascii_iequals
iequals_iff_from k j h = (bytes_eq_iff (map lower k) (map lower j)).1 h

pub ascii-IsEquivalence : IsEquivalence ascii
ascii-IsEquivalence = record {
  iequals_refl = λ k. iequals_iff_from k k refl;
  iequals_symm = λ k j h. iequals_iff_from j k (sym (iequals_iff_to k j h));
  iequals_trans = λ k j l h g. iequals_iff_from k l (iequals_iff_to k j h ∙ iequals_iff_to j l g);
}
