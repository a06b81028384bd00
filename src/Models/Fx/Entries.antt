-- ===== src/Models/Fx/Entries.antt =====
-- About `FxRates._find_entry` of models/fx.py.
use nexus_spark_lib.Base.{
  ℕ, ◌<◌, ◌≤◌, ◌≡◌, refl, ap, sym, subst, ◌⊎◌, inl, inr, true, false, List, [], ◌∷◌, arith, leb,
  Bool-cases, All, Among, All-map_lem,
}
use nexus_spark_lib.Models.Fx.{FxRateEntry, approximate, find_in}

-- Sorted by valid_from, the latest first.
abbrev pub IsDescending : FxRateEntry → List FxRateEntry → Type 0
IsDescending entry [] = Unit
IsDescending entry (next ∷ entries) =
    (next.valid_from ≤ entry.valid_from) × IsDescending next entries

-- What is found, and the list afterwards: the latest of the entries that are valid at the time, and
-- the list as it was; or, if none is, an entry that is marked as approximate.
abbrev pub IsFound : List FxRateEntry → ℕ → FxRateEntry × List FxRateEntry → Type 0
IsFound entries at (found, after) =
    (Among found entries)
      × (found.valid_from ≤ at)
      × All (λ e. e.valid_from ≤ at → e.valid_from ≤ found.valid_from) entries
      × (after ≡ entries)
    ⊎ All (λ e. at < e.valid_from) entries × (found.is_approximate ≡ true) × (Among found after)

below_head :
    (entry : FxRateEntry) (entries : List FxRateEntry)
    → IsDescending entry entries
    → All (λ e. e.valid_from ≤ entry.valid_from) entries
below_head entry [] h = tt
below_head entry (next ∷ entries) h = (
  h.0,
  All-map_lem (λ e. e.valid_from ≤ next.valid_from) (λ e. e.valid_from ≤ entry.valid_from) entries
      (λ e k. omega arith) (below_head next entries h.1),
)

IsFound-later :
    (entry : FxRateEntry) (entries : List FxRateEntry) (at : ℕ) (r : FxRateEntry × List FxRateEntry)
    → IsFound entries at r
    → at < entry.valid_from
    → IsFound (entry ∷ entries) at (r.0, entry ∷ r.1)
IsFound-later entry entries at (found, after) (inl (among, valid, latest, same)) h =
    inl (inr among, valid, ((λ k. absurd (omega arith)), latest), ap (λ xs. entry ∷ xs) same)
IsFound-later entry entries at (found, after) (inr (newer, marked, among)) h =
    inr ((h, newer), marked, inr among)

find_in-valid :
    (entry next : FxRateEntry) (entries : List FxRateEntry) (at : ℕ)
    → leb entry.valid_from at ≡ true
    → find_in entry (next ∷ entries) at ≡ (entry, entry ∷ next ∷ entries)
unfolding find_in
find_in-valid entry next entries at e = rw e refl

find_in-newer :
    (entry next : FxRateEntry) (entries : List FxRateEntry) (at : ℕ)
    → leb entry.valid_from at ≡ false
    → find_in entry (next ∷ entries) at
      ≡ ((find_in next entries at).0, entry ∷ (find_in next entries at).1)
unfolding find_in
find_in-newer entry next entries at e = rw e refl

-- In a list of rates whose latest comes first: if some entry is valid at the time, the latest such
-- entry is found, and the list is left as it was; otherwise every entry is later than the time, and
-- one is found that is marked as approximate and stands in the list that is left.
pub find_in-IsFound :
    (entry : FxRateEntry) (entries : List FxRateEntry) (at : ℕ)
    → IsDescending entry entries
    → IsFound (entry ∷ entries) at (find_in entry entries at)
unfolding find_in
find_in-IsFound entry [] at h = elim (Bool-cases (leb entry.valid_from at)) [
  | inl e ↦ rw e (inl (inl refl, ground (arith, e), ((λ k. omega arith), tt), refl))
  | inr e ↦ rw e (inr ((ground (arith, e), tt), refl, inl refl))
]
find_in-IsFound entry (next ∷ entries) at h = elim (Bool-cases (leb entry.valid_from at)) [
  | inl e ↦
      subst (IsFound (entry ∷ next ∷ entries) at) (sym (find_in-valid entry next entries at e)) (
        inl (
          inl refl,
          ground (arith, e),
          (
            (λ k. omega arith),
            All-map_lem (λ x. x.valid_from ≤ entry.valid_from)
                (λ x. x.valid_from ≤ at → x.valid_from ≤ entry.valid_from) (next ∷ entries)
                (λ x k _. k) (below_head entry (next ∷ entries) h),
          ),
          refl,
        ))
  | inr e ↦
      subst (IsFound (entry ∷ next ∷ entries) at) (sym (find_in-newer entry next entries at e)) (
        IsFound-later entry (next ∷ entries) at (find_in next entries at)
          (find_in-IsFound next entries at h.1) (ground (arith, e)))
]

-- A rate that is the only one and was used for a time before it is valid stays marked in the list;
-- at a time when it is valid it is then found as approximate, while without that use it is found as
-- it is.
pub find_in_marked :
    (entry : FxRateEntry) (early at : ℕ)
    → early < entry.valid_from
    → entry.valid_from ≤ at
    → (find_in entry [] at ≡ (entry, entry ∷ []))
      × ((find_in entry [] early).1 ≡ approximate entry ∷ [])
      × (find_in (approximate entry) [] at ≡ (approximate entry, approximate entry ∷ []))
unfolding find_in
find_in_marked entry early at h k = ground arith
