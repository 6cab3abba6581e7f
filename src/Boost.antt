-- ===== src/Boost.antt =====
-- The calls of boost::algorithm and boost::lexical_cast that the code makes, which stand outside the repository.
use thinger_http.Common.{ℕ, Bool, true, ◌≡◌, Bytes}
use mathlib.Core.List.{List}

pub record Boost : Type 0 where
  -- `boost::iequals`, equality up to case
  pub iequals : Bytes → Bytes → Bool
  -- `boost::algorithm::trim`
  pub trim : Bytes → Bytes
  -- `boost::split` at `boost::is_any_of(",")`
  pub split_commas : Bytes → List Bytes
  -- `boost::algorithm::to_lower`
  pub to_lower : Bytes → Bytes
  -- `boost::lexical_cast<std::string>` of a `size_t`
  pub decimal : ℕ → Bytes

-- What lookups rely on: `iequals` is an equivalence.
pub record IsEquivalence (b : Boost) : Type 0 where
  pub iequals_refl : (k : Bytes) → b.iequals k k ≡ true
  pub iequals_symm : (k j : Bytes) → b.iequals k j ≡ true → b.iequals j k ≡ true
  pub iequals_trans :
      (k j l : Bytes) → b.iequals k j ≡ true → b.iequals j l ≡ true → b.iequals k l ≡ true
