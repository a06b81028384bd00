-- ===== src/Base/Best.antt =====
-- A loop that keeps the best item so far, and changes it only for a better one.
use mathlib.Core.Path.{◌≡◌, refl, subst}
use mathlib.Core.Logic.{inl, inr}
use mathlib.Core.Bool.{Bool, true, false}
use mathlib.Core.Option.{Option, none, some, some_inj}
use mathlib.Core.List.{List, [], ◌∷◌}
use nexus_spark_lib.Base.Tests.{if◌then◌else◌, Bool-cases}
use nexus_spark_lib.Base.Lists.{All, Among}

module _ {A : Type 0} (beats : A → A → Bool) where
  abbrev pub challenge : A → Option A → Option A
  challenge x none = some x
  challenge x (some best) = if beats x best then some x else some best

  unfoldable pub strongest : List A → Option A → Option A
  strongest [] best = best
  strongest (x ∷ xs) best = strongest xs (challenge x best)

  pub strongest_total : (xs : List A) (x : A) → (r : A) × (strongest xs (some x) ≡ some r)
  unfolding strongest
  strongest_total [] x = (x, refl)
  strongest_total (y ∷ xs) x = elim (Bool-cases (beats y x)) [
    | inl e ↦ rw e (strongest_total xs y)
    | inr e ↦ rw e (strongest_total xs x)
  ]

  module _ (irrefl : (x : A) → beats x x ≡ false)
      (asym : (x y : A) → beats x y ≡ true → beats y x ≡ false)
      (negtrans : (x y z : A) → beats x y ≡ false → beats y z ≡ false → beats x z ≡ false) where
    -- The result is one of the items, and no item beats it.
    pub strongest_unbeaten :
        (xs : List A) (x r : A)
        → strongest xs (some x) ≡ some r
        → Among r (x ∷ xs) × (beats x r ≡ false) × All (λ y. beats y r ≡ false) xs
    unfolding strongest
    strongest_unbeaten [] x r e =
        subst (λ s. Among s (x ∷ []) × (beats x s ≡ false) × Unit {0}) (some_inj.0 e)
          (inl refl, irrefl x, tt)
    strongest_unbeaten (y ∷ xs) x r e = elim (Bool-cases (beats y x)) [
      | inl h ↦
          let (among, first, others) = strongest_unbeaten xs y r (rw h at e) in
          (inr among, negtrans x y r (asym y x h) first, (first, others))
      | inr h ↦
          let (among, first, others) = strongest_unbeaten xs x r (rw h at e) in
          (skip_second among, first, (negtrans y x r h first, others))
    ]
      where
        skip_second : Among r (x ∷ xs) → Among r (x ∷ y ∷ xs)
        skip_second (inl e) = inl e
        skip_second (inr m) = inr (inr m)
