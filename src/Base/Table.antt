-- ===== src/Base/Table.antt =====
-- SQL tables as lists of rows: SELECT, INSERT … ON CONFLICT, UPDATE and DELETE.
use Prim.Native.Nat.{suc, ℕ}
use mathlib.Core.Path.{◌≡◌, refl}
use mathlib.Core.Logic.{inl, inr}
use mathlib.Core.Bool.{Bool, true, false}
use mathlib.Core.Option.{Option, none, some}
use mathlib.Core.List.{List, [], ◌∷◌}
use native.Mathlib.Omega.{arith}
use nexus_spark_lib.Base.Tests.{Bool-cases, if◌then◌else◌}
use nexus_spark_lib.Base.Lists.{length, any}

module _ {ℓ} {R : Type ℓ} where
  -- SELECT … WHERE p: the first row that fits.
  unfoldable pub select : (R → Bool) → List R → Option R
  select p [] = none
  select p (x ∷ xs) = if p x then some x else select p xs

  -- INSERT r ON CONFLICT (the rows that fit p) DO UPDATE SET f
  unfoldable pub upsert : (R → Bool) → (R → R) → R → List R → List R
  upsert p f r [] = r ∷ []
  upsert p f r (x ∷ xs) = if p x then f x ∷ xs else x ∷ upsert p f r xs

  -- UPDATE SET f WHERE p
  unfoldable pub update_where : (R → Bool) → (R → R) → List R → List R
  update_where p f [] = []
  update_where p f (x ∷ xs) = (if p x then f x else x) ∷ update_where p f xs

  -- DELETE WHERE p
  unfoldable pub delete_where : (R → Bool) → List R → List R
  delete_where p [] = []
  delete_where p (x ∷ xs) = let rest = delete_where p xs in if p x then rest else x ∷ rest

  abbrev pub upserted : (R → R) → R → Option R → R
  upserted f r none = r
  upserted f r (some x) = f x

  pub select_fits : (p : R → Bool) (t : List R) {x : R} → select p t ≡ some x → p x ≡ true
  unfolding select
  select_fits p [] e = cc
  select_fits p (y ∷ t) {x} e = ground (arith, λ (h : select p t ≡ some x). select_fits p t h)

  -- What was inserted or updated is found under its own key.
  pub select-upsert_self :
      (p : R → Bool) (f : R → R) (r : R) (t : List R)
      → p r ≡ true
      → ((x : R) → p x ≡ true → p (f x) ≡ true)
      → select p (upsert p f r t) ≡ some (upserted f r (select p t))
  unfolding select upsert
  select-upsert_self p f r [] hr hf = rw hr
  select-upsert_self p f r (x ∷ t) hr hf = ground (arith, hf x, select-upsert_self p f r t hr hf)

  -- A query that fits neither the inserted nor the updated row sees no change.
  pub select-upsert_other :
      (p q : R → Bool) (f : R → R) (r : R) (t : List R)
      → q r ≡ false
      → ((x : R) → p x ≡ true → q x ≡ false)
      → ((x : R) → p x ≡ true → q (f x) ≡ false)
      → select q (upsert p f r t) ≡ select q t
  unfolding select upsert
  select-upsert_other p q f r [] hr hx hf = rw hr
  select-upsert_other p q f r (x ∷ t) hr hx hf =
      ground (arith, hx x, hf x, select-upsert_other p q f r t hr hx hf)

  -- A second upsert whose update gives back the row that it finds changes nothing.
  pub upsert_idem :
      (p : R → Bool) (f : R → R) (r : R) (t : List R)
      → p r ≡ true
      → ((x : R) → p x ≡ true → p (f x) ≡ true)
      → f r ≡ r
      → ((x : R) → f (f x) ≡ f x)
      → upsert p f r (upsert p f r t) ≡ upsert p f r t
  unfolding upsert
  upsert_idem p f r [] hr hf er ef = ground arith
  upsert_idem p f r (x ∷ t) hr hf er ef =
      ground (arith, hf x, ef x, upsert_idem p f r t hr hf er ef)

  pub any-delete_where : (p : R → Bool) (t : List R) → any p (delete_where p t) ≡ false
  unfolding any delete_where
  any-delete_where p [] = refl
  any-delete_where p (x ∷ t) = ground (arith, any-delete_where p t)

  pub select-delete_where : (p : R → Bool) (t : List R) → select p (delete_where p t) ≡ none
  unfolding select delete_where
  select-delete_where p [] = refl
  select-delete_where p (x ∷ t) = ground (arith, select-delete_where p t)

  pub select-delete_where_other :
      (p q : R → Bool) (t : List R)
      → ((x : R) → q x ≡ true → p x ≡ false)
      → select q (delete_where p t) ≡ select q t
  unfolding select delete_where
  select-delete_where_other p q [] h = refl
  select-delete_where_other p q (x ∷ t) h = ground (arith, h x, select-delete_where_other p q t h)

  -- After an update that takes a row out of the queried set, the query finds nothing.
  pub any-update_where :
      (p : R → Bool) (f : R → R) (t : List R)
      → ((x : R) → p x ≡ true → p (f x) ≡ false)
      → any p (update_where p f t) ≡ false
  unfolding any update_where
  any-update_where p f [] h = refl
  any-update_where p f (x ∷ t) h = ground (arith, h x, any-update_where p f t h)

  pub length-upsert :
      (p : R → Bool) (f : R → R) (r : R) (t : List R) → (m : ℕ) × (length (upsert p f r t) ≡ suc m)
  unfolding upsert
  length-upsert p f r [] = (0, refl)
  length-upsert p f r (x ∷ t) = elim (Bool-cases (p x)) [
    | inl h ↦ (length t, rw h)
    | inr h ↦ (length (upsert p f r t), rw h)
  ]

  pub delete_where-none : (p : R → Bool) (t : List R) → select p t ≡ none → delete_where p t ≡ t
  unfolding select delete_where
  delete_where-none p [] e = refl
  delete_where-none p (x ∷ t) e = ground (arith, delete_where-none p t)

  -- An upsert whose update leaves the row that it finds as it is changes nothing.
  pub upsert-same :
      (p : R → Bool) (f : R → R) (r x : R) (t : List R)
      → select p t ≡ some x
      → f x ≡ x
      → upsert p f r t ≡ t
  unfolding select upsert
  upsert-same p f r x [] e h = cc
  upsert-same p f r x (y ∷ t) e h = ground (arith, upsert-same p f r x t)

  -- What a table does not have, it does not have after a deletion.
  pub select-delete_where-none :
      (p q : R → Bool) (t : List R) → select q t ≡ none → select q (delete_where p t) ≡ none
  unfolding select delete_where
  select-delete_where-none p q [] e = refl
  select-delete_where-none p q (x ∷ t) e = ground (arith, select-delete_where-none p q t)
