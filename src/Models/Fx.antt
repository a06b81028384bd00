-- ===== src/Models/Fx.antt =====
-- nexus_spark_lib/models/fx.py: which exchange rate a conversion uses. The entries are state, since
-- `_find_entry` marks an entry of the shared snapshot. A rate is a number of 10 ** -8; the product
-- of amount and rate is not modelled.
pub mod Entries
use nexus_spark_lib.Base.{
  Text, ℕ, Bool, true, false, ◌&&◌, Option, none, some, List, [], ◌∷◌, if◌then◌else◌, leb, text_eq,
}

pub record FxRateEntry : Type 0 where
  pub rate : ℕ
  pub valid_from : ℕ
  pub valid_until : Option ℕ
  pub is_approximate : Bool

abbrev pub approximate : FxRateEntry → FxRateEntry
approximate entry = record entry { is_approximate = true }

-- `_find_entry` on `newer` and the rest of the list: the first entry that is valid, or the last one,
-- marked. The list comes back as the call leaves it.
unfoldable pub find_in : FxRateEntry → List FxRateEntry → ℕ → FxRateEntry × List FxRateEntry
find_in entry [] at =
    if leb entry.valid_from at
    then (entry, entry ∷ [])
    else (approximate entry, approximate entry ∷ [])
find_in entry (next ∷ entries) at =
    let (found, marked) = find_in next entries at in
    if leb entry.valid_from at then (entry, entry ∷ next ∷ entries) else (found, entry ∷ marked)

-- rates[from_currency][to_currency]
abbrev pub FxRates : Type 0
FxRates = List ((Text × Text) × List FxRateEntry)

abbrev pub pair_eq : Text × Text → Text × Text → Bool
pair_eq a b = text_eq a.0 b.0 && text_eq a.1 b.1

unfoldable pub entries_of : Text × Text → FxRates → List FxRateEntry
entries_of pair [] = []
entries_of pair ((key, entries) ∷ rates) =
    if pair_eq key pair then entries else entries_of pair rates

unfoldable pub set_entries : Text × Text → List FxRateEntry → FxRates → FxRates
set_entries pair entries [] = []
set_entries pair entries ((key, old) ∷ rates) =
    let rest = set_entries pair entries rates in
    if pair_eq key pair then (key, entries) ∷ rates else (key, old) ∷ rest

-- The rate of a conversion: 1, an entry's rate, or the inverse of one. `unavailable` is ValueError.
pub data Rate : Type 0 where
  unit_rate unavailable : Rate
  direct inverse : ℕ → Bool → Rate

unfoldable pub inverse_rate : Text × Text → List FxRateEntry → ℕ → FxRates → Rate × FxRates
unfolding find_in set_entries
inverse_rate pair [] at rates = (unavailable, rates)
inverse_rate pair (entry ∷ entries) at rates =
    let (found, marked) = find_in entry entries at in
    (inverse found.rate found.is_approximate, set_entries pair marked rates)

unfoldable pub direct_rate : Text × Text → List FxRateEntry → ℕ → FxRates → Rate × FxRates
unfolding find_in set_entries inverse_rate entries_of
direct_rate (source, target) [] at rates =
    inverse_rate (target, source) (entries_of (target, source) rates) at rates
direct_rate pair (entry ∷ entries) at rates =
    let (found, marked) = find_in entry entries at in
    (direct found.rate found.is_approximate, set_entries pair marked rates)

unfoldable pub convert : Text → Text → ℕ → FxRates → Rate × FxRates
unfolding direct_rate entries_of
convert from_currency to_currency at rates =
    if text_eq from_currency to_currency
    then (unit_rate, rates)
    else direct_rate (from_currency, to_currency) (entries_of (from_currency, to_currency) rates) at
        rates
