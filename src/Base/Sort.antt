-- ===== src/Base/Sort.antt =====
-- list.sort(key=…) and sorted(…): stable sorting by a strict order on the keys.
use mathlib.Core.Path.{sym, ◌≡◌, refl, ap, ◌∙◌}
use mathlib.Core.Logic.{◌⊎◌, inl, inr}
use mathlib.Core.Bool.{Bool, true, false}
use mathlib.Core.List.{List, [], ◌∷◌, map}
use Prim.Native.Nat.{suc, ◌+◌}
use native.Mathlib.Omega.{arith}
use nexus_spark_lib.Base.Tests.{if◌then◌else◌, Bool-cases}
use nexus_spark_lib.Base.Lists.{All, count_of, length}

module _ {ℓ} {A : Type ℓ} (less : A → A → Bool) where
  unfoldable pub insert_by : A → List A → List A
  insert_by x [] = x ∷ []
  insert_by x (y ∷ ys) = if less y x then y ∷ insert_by x ys else x ∷ y ∷ ys

  unfoldable pub sort_by : List A → List A
  unfolding insert_by
  sort_by [] = []
  sort_by (x ∷ xs) = insert_by x (sort_by xs)

  -- A reordering that exchanges only items that the order tells apart.
  pub data Reordered : List A → List A → Type ℓ where
    same : (xs : List A) → Reordered xs xs
    keep_first : (x : A) {xs ys : List A} → Reordered xs ys → Reordered (x ∷ xs) (x ∷ ys)
    exchange :
        (x y : A) (xs : List A)
        → (less x y ≡ true) ⊎ (less y x ≡ true)
        → Reordered (x ∷ y ∷ xs) (y ∷ x ∷ xs)
    then_to : {xs ys zs : List A} → Reordered xs ys → Reordered ys zs → Reordered xs zs

  -- No item is below the first.
  abbrev pub IsFirst : A → List A → Type 0
  IsFirst x [] = Unit
  IsFirst x (y ∷ ys) = (less y x ≡ false) × IsFirst x ys

  abbrev pub IsSorted : List A → Type 0
  IsSorted [] = Unit
  IsSorted (x ∷ xs) = IsFirst x xs × IsSorted xs

  pub All-insert_by :
      (P : A → Type 0) (x : A) (xs : List A) → P x → All P xs → All P (insert_by x xs)
  unfolding insert_by
  All-insert_by P x [] p h = (p, tt)
  All-insert_by P x (y ∷ ys) p h = elim (Bool-cases (less y x)) [
    | inl e ↦ rw e (h.0, All-insert_by P x ys p h.1)
    | inr e ↦ rw e (p, h)
  ]

  -- What holds of every item holds of every item of the sorted list.
  pub All-sort_by : (P : A → Type 0) (xs : List A) → All P xs → All P (sort_by xs)
  unfolding sort_by
  All-sort_by P [] h = tt
  All-sort_by P (x ∷ xs) h = All-insert_by P x (sort_by xs) h.0 (All-sort_by P xs h.1)

  count-insert_by :
      (p : A → Bool) (x : A) (xs : List A)
      → count_of p (insert_by x xs) ≡ (if p x then 1 else 0) + count_of p xs
  unfolding insert_by count_of
  count-insert_by p x [] = refl
  count-insert_by p x (y ∷ ys) = ground (arith, count-insert_by p x ys)

  -- Sorting keeps every item as often as it was there.
  pub count-sort_by : (p : A → Bool) (xs : List A) → count_of p (sort_by xs) ≡ count_of p xs
  unfolding sort_by count_of
  count-sort_by p [] = refl
  count-sort_by p (x ∷ xs) = ground (arith, count-insert_by p x (sort_by xs), count-sort_by p xs)

  module _ (asym : (x y : A) → less x y ≡ true → less y x ≡ false)
      (trans : (x y z : A) → less x y ≡ true → less y z ≡ true → less x z ≡ true) where
    insert_by_comm_lt :
        (x y : A) (l : List A)
        → less x y ≡ true
        → insert_by x (insert_by y l) ≡ insert_by y (insert_by x l)
    unfolding insert_by
    insert_by_comm_lt x y [] h = ground (arith, asym x y)
    insert_by_comm_lt x y (z ∷ l) h =
        ground (arith, asym x y, trans z x y, asym z x, insert_by_comm_lt x y l)

    insert_by_comm :
        (x y : A) (l : List A)
        → (less x y ≡ true) ⊎ (less y x ≡ true)
        → insert_by x (insert_by y l) ≡ insert_by y (insert_by x l)
    insert_by_comm x y l (inl h) = insert_by_comm_lt x y l h
    insert_by_comm x y l (inr h) = sym (insert_by_comm_lt y x l h)

    -- The order of the items does not matter, as far as the keys tell them apart.
    pub sort_by-Reordered : {xs ys : List A} → Reordered xs ys → sort_by xs ≡ sort_by ys
    unfolding sort_by
    sort_by-Reordered (same xs) = refl
    sort_by-Reordered (keep_first x r) = ap (insert_by x) (sort_by-Reordered r)
    sort_by-Reordered (exchange x y xs d) = insert_by_comm x y (sort_by xs) d
    sort_by-Reordered (then_to r s) = sort_by-Reordered r ∙ sort_by-Reordered s

  module _ (asym : (x y : A) → less x y ≡ true → less y x ≡ false)
      (negtrans : (x y z : A) → less x y ≡ false → less y z ≡ false → less x z ≡ false) where
    IsFirst-insert_by :
        (x y : A) (l : List A) → less y x ≡ false → IsFirst x l → IsFirst x (insert_by y l)
    unfolding insert_by
    IsFirst-insert_by x y [] h f = (h, tt)
    IsFirst-insert_by x y (z ∷ l) h f = elim (Bool-cases (less z y)) [
      | inl e ↦ rw e (f.0, IsFirst-insert_by x y l h f.1)
      | inr e ↦ rw e (h, f)
    ]

    IsFirst-weaken : (x y : A) (l : List A) → less y x ≡ false → IsFirst y l → IsFirst x l
    IsFirst-weaken x y [] h f = tt
    IsFirst-weaken x y (z ∷ l) h f = (negtrans z y x f.0 h, IsFirst-weaken x y l h f.1)

    insert_by-IsSorted : (x : A) (l : List A) → IsSorted l → IsSorted (insert_by x l)
    unfolding insert_by
    insert_by-IsSorted x [] s = (tt, tt)
    insert_by-IsSorted x (y ∷ l) s = elim (Bool-cases (less y x)) [
      | inl e ↦ rw e (IsFirst-insert_by y x l (asym y x e) s.0, insert_by-IsSorted x l s.1)
      | inr e ↦ rw e ((e, IsFirst-weaken x y l e s.0), s)
    ]

    pub sort_by-IsSorted : (xs : List A) → IsSorted (sort_by xs)
    unfolding sort_by
    sort_by-IsSorted [] = tt
    sort_by-IsSorted (x ∷ xs) = insert_by-IsSorted x (sort_by xs) (sort_by-IsSorted xs)

module _ {ℓ} {A : Type ℓ} (less : A → A → Bool) where
  All-of_insert_by :
      (P : A → Type 0) (x : A) (xs : List A) → All P (insert_by less x xs) → P x × All P xs
  unfolding insert_by
  All-of_insert_by P x [] h = (h.0, tt)
  All-of_insert_by P x (y ∷ ys) h = elim (Bool-cases (less y x)) [
    | inl e ↦
        let h' : P y × All P (insert_by less x ys) = rw e at h in
        let (px, pys) = All-of_insert_by P x ys h'.1 in (px, (h'.0, pys))
    | inr e ↦ let h' : P x × (P y × All P ys) = rw e at h in h'
  ]

  pub All-of_sort_by : (P : A → Type 0) (xs : List A) → All P (sort_by less xs) → All P xs
  unfolding sort_by
  All-of_sort_by P [] h = tt
  All-of_sort_by P (x ∷ xs) h =
      let (px, rest) = All-of_insert_by P x (sort_by less xs) h in (px, All-of_sort_by P xs rest)

  pub All-of_IsFirst : (x : A) (ys : List A) → IsFirst less x ys → All (λ y. less y x ≡ false) ys
  All-of_IsFirst x [] h = tt
  All-of_IsFirst x (y ∷ ys) h = (h.0, All-of_IsFirst x ys h.1)

  -- The first of a sorted list is one of its elements, and no element comes before it.
  pub sort_by-first :
      ((x y : A) → less x y ≡ true → less y x ≡ false)
      → ((x y z : A) → less x y ≡ false → less y z ≡ false → less x z ≡ false)
      → ((x : A) → less x x ≡ false)
      → (P : A → Type 0) (xs rest : List A) (x : A) → All P xs
      → sort_by less xs ≡ x ∷ rest
      → P x × All (λ y. less y x ≡ false) xs
  sort_by-first asym negtrans irrefl P xs rest x h e = (
    first_holds.0,
    All-of_sort_by (λ y. less y x ≡ false) xs (rw e (irrefl x, All-of_IsFirst x rest sorted.0)),
  )
    where
      first_holds : All P (x ∷ rest)
      first_holds = rw e at (All-sort_by less P xs h)

      sorted : IsSorted less (x ∷ rest)
      sorted = rw e at (sort_by-IsSorted less asym negtrans xs)

module _ {ℓ κ} {A : Type ℓ} {B : Type κ} (less : A → A → Bool) (less' : B → B → Bool)
    (f : A → B) where
  pub map-Reordered :
      ((x y : A) → less x y ≡ true → less' (f x) (f y) ≡ true)
      → {xs ys : List A} → Reordered less xs ys
      → Reordered less' (map f xs) (map f ys)
  map-Reordered h (Reordered.same xs) = Reordered.same (map f xs)
  map-Reordered h (Reordered.keep_first x r) = Reordered.keep_first (f x) (map-Reordered h r)
  map-Reordered h (Reordered.exchange x y xs (inl e)) =
      Reordered.exchange (f x) (f y) (map f xs) (inl (h x y e))
  map-Reordered h (Reordered.exchange x y xs (inr e)) =
      Reordered.exchange (f x) (f y) (map f xs) (inr (h y x e))
  map-Reordered h (Reordered.then_to r s) =
      Reordered.then_to (map-Reordered h r) (map-Reordered h s)

module _ {ℓ} {A : Type ℓ} (less : A → A → Bool) where
  length-insert_by : (x : A) (xs : List A) → length (insert_by less x xs) ≡ suc (length xs)
  unfolding insert_by
  length-insert_by x [] = refl
  length-insert_by x (y ∷ ys) = ground (arith, length-insert_by x ys)

  pub length-sort_by : (xs : List A) → length (sort_by less xs) ≡ length xs
  unfolding sort_by
  length-sort_by [] = refl
  length-sort_by (x ∷ xs) = omega (arith, length-insert_by x (sort_by less xs), length-sort_by xs)

  pub length-Reordered : {xs ys : List A} → Reordered less xs ys → length xs ≡ length ys
  length-Reordered (Reordered.same xs) = refl
  length-Reordered (Reordered.keep_first x r) = ap suc (length-Reordered r)
  length-Reordered (Reordered.exchange x y xs d) = refl
  length-Reordered (Reordered.then_to r s) = length-Reordered r ∙ length-Reordered s

  insert_by-first : (x : A) (xs : List A) → IsFirst less x xs → insert_by less x xs ≡ x ∷ xs
  unfolding insert_by
  insert_by-first x [] f = refl
  insert_by-first x (y ∷ ys) f = rw f.0 refl

  -- A sorted list is left as it is.
  pub sort_by-sorted : (xs : List A) → IsSorted less xs → sort_by less xs ≡ xs
  unfolding sort_by
  sort_by-sorted [] s = refl
  sort_by-sorted (x ∷ xs) s = rw (sort_by-sorted xs s.1) (insert_by-first x xs s.0)
