-- ===== src/CompanyIdentity/Copies.antt =====
-- Two contacts with one payload, resolved one after the other.
pub mod Oldest
use mathlib.Core.Option.{some-injective}
use cerniq_app_v.Prelude.{
  ◌≡◌, ltb, Option-cases, ℕ, List, true, false, not, none, str_eq, String, every, leb, ◌||◌, ◌++◌,
}
use cerniq_app_v.Prelude.Rows.{find_first}
use cerniq_app_v.CompanyIdentity.Model.{BronzeContact, Resolution}
use cerniq_app_v.CompanyIdentity.Action.{Result, ok}
use cerniq_app_v.CompanyIdentity.Copies.Oldest.{IsOldest}

-- The result is that the contact repeats the oldest other contact of the tenant with the payload.
abbrev pub IsOldestCopy : ℕ → ℕ → String → List BronzeContact → Result Resolution → Type 0
IsOldestCopy tenant id hash bronze r =
    (z : BronzeContact) × IsOldest tenant id hash bronze z
    × (r ≡ ok (Resolution.duplicate_source z.resolved_company_id z.id))
