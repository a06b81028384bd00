-- ===== src/Stage2/Outcomes/Relevant.antt =====
-- About `update_requires_reresolution` of transform/stage2_resolve/er_outcomes.py.
use nexus_spark_lib.Base.{
  Text, ℕ, ◌≤◌, ◌≡◌, refl, ap, ◌⊎◌, inl, inr, ◌↔◌, Bool, true, false, ◌&&◌, ◌||◌, Option, List, [],
  ◌∷◌, arith, codes, text_eq, upper, any, keep, leb, Dict, Among, or_default, Bool-cases,
}
use nexus_spark_lib.Stage3.Context.{JsonAttributes, malformed, array, other_json}
use nexus_spark_lib.Stage2.Signals.{ErIndex}
use nexus_spark_lib.Stage2.Outcomes.{
  names_match, matches_any_attribute, relevant_weighted_attributes, is_relevant, touches,
  update_requires_reresolution,
}

and_true : (a b : Bool) → (a && b) ≡ true → (a ≡ true) × (b ≡ true)
and_true true b e = (refl, e)
and_true false b e = absurd cc

or_true : (a : Bool) → (a || true) ≡ true
or_true true = refl
or_true false = refl

module _ {A : Type 0} (p : A → Bool) where
  any-Among : (xs : List A) → any p xs ≡ true → (x : A) × Among x xs × (p x ≡ true)
  unfolding any
  any-Among [] e = absurd cc
  any-Among (x ∷ xs) e = elim (Bool-cases (p x)) [
    | inl h ↦ (x, inl refl, h)
    | inr h ↦ (let (y, among, k) = any-Among xs (rw h at e) in (y, inr among, k))
  ]

  any-of_Among : (x : A) (xs : List A) → Among x xs → p x ≡ true → any p xs ≡ true
  unfolding any
  any-of_Among x [] among h = elim among [ ]
  any-of_Among x (y ∷ xs) (inl e) h = rw (← e, h) refl
  any-of_Among x (y ∷ xs) (inr among) h = ground (arith, any-of_Among x xs among h)

Among-relevant :
    (name : Text) (weights : Dict ℕ)
    → Among name (relevant_weighted_attributes weights)
    → (w : ℕ) × Among (name, w) weights × (2000 ≤ w)
unfolding relevant_weighted_attributes keep
Among-relevant name [] h = elim h [ ]
Among-relevant name ((n, w) ∷ weights) h = elim (Bool-cases (leb 2000 w)) [
  | inl e ↦
      (let h' : (name ≡ n) ⊎ Among name (relevant_weighted_attributes weights) = rw e at h in
        elim h' [
          | inl same ↦ (w, inl (ap (λ x. (x, w)) same), ground (arith, e))
          | inr later ↦ (let (v, among, k) = Among-relevant name weights later in (v, inr among, k))
        ])
  | inr e ↦
      (let h' : Among name (relevant_weighted_attributes weights) = rw e at h in
        let (v, among, k) = Among-relevant name weights h' in (v, inr among, k))
]

Among-of_relevant :
    (name : Text) (w : ℕ) (weights : Dict ℕ)
    → Among (name, w) weights
    → 2000 ≤ w
    → Among name (relevant_weighted_attributes weights)
unfolding relevant_weighted_attributes keep
Among-of_relevant name w [] among h = elim among [ ]
Among-of_relevant name w ((n, v) ∷ weights) (inl e) h =
    let same : w ≡ v = ap (λ (x : Text × ℕ). x.1) e in
    let heavy : leb 2000 v ≡ true = ground (arith, same, h) in
    rw heavy (inl (ap (λ (x : Text × ℕ). x.0) e))
Among-of_relevant name w ((n, v) ∷ weights) (inr among) h = elim (Bool-cases (leb 2000 v)) [
  | inl e ↦ rw e (inr (Among-of_relevant name w weights among h))
  | inr e ↦ rw e (Among-of_relevant name w weights among h)
]

module _ (er_index : ErIndex) (tenant_id cdm_entity_type : Text) where
  abbrev deterministic : List Text
  deterministic = er_index.deterministic_columns tenant_id cdm_entity_type

  abbrev weights : Dict ℕ
  weights = (er_index.thresholds tenant_id cdm_entity_type).weights

  -- A changed attribute that matches a deterministic column, or an attribute of a weight of at least
  -- 0.20.
  abbrev pub IsRelevant : Option Text → Type 0
  IsRelevant item =
      ((column : Text) × Among column deterministic
        × (names_match (or_default item []) column ≡ true))
      ⊎ ((name : Text) × (w : ℕ) × Among (name, w) weights
          × (2000 ≤ w)
          × (names_match (or_default item []) name ≡ true))

  IsRelevant-of_test :
      (item : Option Text)
      → is_relevant deterministic (relevant_weighted_attributes weights) item ≡ true
      → IsRelevant item
  unfolding matches_any_attribute
  IsRelevant-of_test item e =
      elim (Bool-cases (any (names_match (or_default item [])) deterministic)) [
        | inl h ↦ inl (any-Among (names_match (or_default item [])) deterministic h)
        | inr h ↦
            (let (name, among, k) =
                any-Among (names_match (or_default item [])) (relevant_weighted_attributes weights)
                  (rw h at e) in
              let (w, heavy, bound) = Among-relevant name weights among in
              inr (name, w, heavy, bound, k))
      ]

  test-of_IsRelevant :
      (item : Option Text)
      → IsRelevant item
      → is_relevant deterministic (relevant_weighted_attributes weights) item ≡ true
  unfolding matches_any_attribute
  test-of_IsRelevant item (inl (column, among, h)) =
      rw (any-of_Among (names_match (or_default item [])) column deterministic among h) refl
  test-of_IsRelevant item (inr (name, w, among, heavy, h)) =
      rw
        (any-of_Among (names_match (or_default item [])) name (relevant_weighted_attributes weights)
          (Among-of_relevant name w weights among heavy) h)
        (or_true (any (names_match (or_default item [])) deterministic))

  -- An UPDATE with a relevant attribute among the changed ones.
  abbrev pub Requires : Text → JsonAttributes → Type 0
  Requires source_op changed =
      (text_eq (upper source_op) (codes "UPDATE") ≡ true)
      × ((items : List (Option Text)) × (item : Option Text) × (changed ≡ array items)
          × Among item items
          × IsRelevant item)

  required :
      (source_op : Text) (changed : JsonAttributes)
      → update_requires_reresolution er_index tenant_id cdm_entity_type source_op changed ≡ true
      → Requires source_op changed
  unfolding update_requires_reresolution
  required source_op malformed e = ground arith
  required source_op other_json e = ground arith
  required source_op (array items) e =
      let (op, relevant) =
        and_true (text_eq (upper source_op) (codes "UPDATE"))
          (touches deterministic (relevant_weighted_attributes weights) (array items)) e in
      let (item, among, k) =
        any-Among (is_relevant deterministic (relevant_weighted_attributes weights)) items
          relevant in
      (op, (items, item, refl, among, IsRelevant-of_test item k))

  of_required :
      (source_op : Text) (changed : JsonAttributes)
      → Requires source_op changed
      → update_requires_reresolution er_index tenant_id cdm_entity_type source_op changed ≡ true
  unfolding update_requires_reresolution
  of_required source_op changed (op, (items, item, e, among, relevant)) =
      rw (op, e)
        (any-of_Among (is_relevant deterministic (relevant_weighted_attributes weights)) item items
          among (test-of_IsRelevant item relevant))

  -- A record is resolved again exactly if its operation is UPDATE and some changed attribute
  -- matches, up to case and a prefix that ends in a point, a deterministic column or an attribute
  -- of a weight of at least 0.20.
  pub update_requires_reresolution_lem :
      (source_op : Text) (changed : JsonAttributes)
      → (update_requires_reresolution er_index tenant_id cdm_entity_type source_op changed ≡ true)
        ↔ Requires source_op changed
  update_requires_reresolution_lem source_op changed =
      (required source_op changed, of_required source_op changed)
