-- ===== src/Stage2/Broadcast/Found.antt =====
-- About the entities of db/er_broadcast_loader.py, and how the signals find them.
use nexus_spark_lib.Base.{
  Text, ◌≡◌, refl, ap, ◌∙◌, ◌⊎◌, inl, inr, Bool, true, false, ◌||◌, Option, none, some, List, [],
  ◌∷◌, ◌++◌, arith, codes, any, keep, is_some, if◌then◌else◌, text_eq, text_eq_refl, in_texts,
  sort_by, Dict, dict_get, dict_get-set, Bool-cases,
}
use nexus_spark_lib.Stage3.Context.{Scalar, Field, str}
use nexus_spark_lib.Hashing.{Digest, er_deterministic_lookup_key}
use nexus_spark_lib.Stage2.Signals.{
  ErIndex, known_id, raw_value, legacy_lookup_key, match_value, collect_matches, run_signal_a,
  pick_signal_a_match,
}
use nexus_spark_lib.Stage2.Broadcast.{
  phone_field, put_value, ErResolveIndex, columns_of, put_columns, put_phone, bucket_at, phone_key,
  get_or, register_entity_fields, phone_blocking_candidates, signal_index,
}

or_swap : (a b c : Bool) → ((a || b) || c) ≡ (b || (a || c))
or_swap true true c = refl
or_swap true false c = refl
or_swap false true c = refl
or_swap false false c = refl

pick_named : (id : Text) → known_id (some id) ≡ some id → pick_signal_a_match (id ∷ []) ≡ some id
unfolding pick_signal_a_match keep sort_by
pick_named [] e = cc
pick_named (c ∷ id) e = refl

module _ (tenant_id cdm_entity_type id : Text) (fields : Dict Field) where
  abbrev puts : List Text → Dict Text → Dict Text
  puts = put_columns tenant_id cdm_entity_type id fields

  abbrev key : Text → Scalar → Text
  key column value = legacy_lookup_key tenant_id cdm_entity_type column (str value)

  -- A key that leads to the id keeps to it.
  put_columns_keep :
      (k : Text) (columns : List Text) (snapshot : Dict Text)
      → dict_get k snapshot ≡ some id
      → dict_get k (puts columns snapshot) ≡ some id
  unfolding put_columns
  put_columns_keep k [] snapshot h = h
  put_columns_keep k (column ∷ columns) snapshot h =
      put_columns_keep k columns _ (after_put (raw_value (dict_get column fields)))
    where
      after_put :
          (v : Option Scalar)
          → dict_get k (put_value tenant_id cdm_entity_type id column v snapshot) ≡ some id
      after_put none = h
      after_put (some value) = ground (arith, dict_get-set (key column value) k id snapshot)

  -- Every value of the columns leads to the id.
  abbrev Leads : Dict Text → List Text → Type 0
  Leads snapshot [] = Unit
  Leads snapshot (column ∷ columns) =
      ((value : Scalar)
        → raw_value (dict_get column fields) ≡ some value
        → dict_get (key column value) snapshot ≡ some id)
      × Leads snapshot columns

  put_columns-Leads :
      (columns : List Text) (snapshot : Dict Text) → Leads (puts columns snapshot) columns
  unfolding put_columns
  put_columns-Leads [] snapshot = tt
  put_columns-Leads (column ∷ columns) snapshot =
      ((λ value e. leads value e), put_columns-Leads columns _)
    where
      leads :
          (value : Scalar)
          → raw_value (dict_get column fields) ≡ some value
          → dict_get (key column value) (puts (column ∷ columns) snapshot) ≡ some id
      leads value e = rw e (
          put_columns_keep (key column value) columns _ (
            dict_get-set (key column value) (key column value) id snapshot
            ∙ rw (text_eq_refl (key column value)) refl))

  module _ (sha256 : Digest) (er_index : ErIndex)
      (unhashed : (column value : Text)
        → dict_get
            (er_deterministic_lookup_key tenant_id cdm_entity_type column (sha256 value))
            er_index.snapshot
          ≡ none)
      (named : known_id (some id) ≡ some id) where
    abbrev has_value : Text → Bool
    has_value column = is_some (raw_value (dict_get column fields))

    -- The matches are none, or the id alone.
    abbrev only : Bool → List Text
    only true = id ∷ []
    only false = []

    match_value-only :
        (seen : Bool) (column : Text) (v : Option Scalar)
        → ((value : Scalar)
            → v ≡ some value
            → dict_get (key column value) er_index.snapshot ≡ some id)
        → match_value sha256 er_index tenant_id cdm_entity_type column v (only seen)
          ≡ only (is_some v || seen)
    unfolding any
    match_value-only seen column none leads = refl
    match_value-only false column (some value) leads =
        rw (leads value refl, unhashed column (str value), named) refl
    match_value-only true column (some value) leads =
        rw (leads value refl, unhashed column (str value), named) (rw (text_eq_refl id) refl)

    collect_matches-only :
        (seen : Bool) (columns : List Text)
        → Leads er_index.snapshot columns
        → collect_matches sha256 er_index tenant_id cdm_entity_type fields columns (only seen)
          ≡ only (seen || any has_value columns)
    unfolding collect_matches any
    collect_matches-only false [] leads = refl
    collect_matches-only true [] leads = refl
    collect_matches-only seen (column ∷ columns) leads =
        ap
          (λ matches.
            collect_matches sha256 er_index tenant_id cdm_entity_type fields columns matches)
          (match_value-only seen column (raw_value (dict_get column fields)) leads.0)
        ∙ collect_matches-only (has_value column || seen) columns leads.1
        ∙ ap only (or_swap (has_value column) seen (any has_value columns))

    -- Signal A finds the id by any column that has a value.
    run_signal_a-Leads :
        Leads er_index.snapshot (er_index.deterministic_columns tenant_id cdm_entity_type)
        → any has_value (er_index.deterministic_columns tenant_id cdm_entity_type) ≡ true
        → run_signal_a sha256 er_index tenant_id cdm_entity_type fields ≡ some id
    unfolding run_signal_a
    run_signal_a-Leads leads some_value =
        let columns = er_index.deterministic_columns tenant_id cdm_entity_type in
        ap pick_signal_a_match (collect_matches-only false columns leads)
        ∙ ap (λ b. pick_signal_a_match (only b)) some_value
        ∙ pick_named id named

-- The bucket of a telephone number holds the id once it was put there, whatever is put later.
in_texts-append : (t : Text) (ts : List Text) → in_texts t (ts ++ t ∷ []) ≡ true
unfolding in_texts any
in_texts-append t [] = rw (text_eq_refl t) refl
in_texts-append t (u ∷ ts) = ground (arith, in_texts-append t ts)

in_texts-added :
    (id : Text) (bucket : List Text)
    → in_texts id (if in_texts id bucket then bucket else bucket ++ id ∷ []) ≡ true
in_texts-added id bucket = elim (Bool-cases (in_texts id bucket)) [
  | inl e ↦ rw (e, e) refl
  | inr e ↦ rw e (in_texts-append id bucket)
]

put_phone-keeps :
    (id k : Text) (o : Option Text) (phone_index : Dict (List Text))
    → in_texts id (bucket_at k phone_index) ≡ true
    → in_texts id (bucket_at k (put_phone id o phone_index)) ≡ true
put_phone-keeps id k none phone_index h = h
put_phone-keeps id k (some j) phone_index h =
    let bucket = bucket_at j phone_index in
    rw (dict_get-set j k (if in_texts id bucket then bucket else bucket ++ id ∷ []) phone_index)
      (elim (Bool-cases (text_eq j k)) [ inl e ↦ rw e (in_texts-added id bucket) | inr e ↦ rw e h ])

put_phone-puts :
    (id k : Text) (phone_index : Dict (List Text))
    → in_texts id (bucket_at k (put_phone id (some k) phone_index)) ≡ true
put_phone-puts id k phone_index =
    let bucket = bucket_at k phone_index in
    rw
      (
        dict_get-set k k (if in_texts id bucket then bucket else bucket ++ id ∷ []) phone_index,
        text_eq_refl k,
      )
      (in_texts-added id bucket)

put_phones-hold :
    (id k : Text) (first second : Option Text) (phone_index : Dict (List Text))
    → (first ≡ some k) ⊎ (second ≡ some k)
    → in_texts id (bucket_at k (put_phone id second (put_phone id first phone_index))) ≡ true
put_phones-hold id k first second phone_index (inl e) =
    rw e (put_phone-keeps id k second _ (put_phone-puts id k phone_index))
put_phones-hold id k first second phone_index (inr e) = rw e (put_phone-puts id k _)

module _ (tenant_id cdm_entity_type id : Text) (fields : Dict Field) (columns : List Text)
    (index : ErResolveIndex) where
  abbrev pub registered : ErResolveIndex
  registered = register_entity_fields tenant_id cdm_entity_type id fields columns index

  abbrev pub is_filled : Text → Bool
  is_filled column = is_some (raw_value (dict_get column fields))

  -- An entity that was registered in an index, with an id that is not empty and a value for some
  -- deterministic column, is found by signal A for the same fields, if the index holds no hashed
  -- key of the tenant and the type.
  pub run_signal_a-register_entity_fields :
      (sha256 : Digest)
      → ((column value : Text)
          → dict_get
              (er_deterministic_lookup_key tenant_id cdm_entity_type column (sha256 value))
              registered.snapshot
            ≡ none)
      → known_id (some id) ≡ some id
      → any is_filled (columns_of tenant_id cdm_entity_type registered) ≡ true
      → run_signal_a sha256 (signal_index registered) tenant_id cdm_entity_type fields ≡ some id
  unfolding register_entity_fields
  run_signal_a-register_entity_fields sha256 unhashed named filled =
      run_signal_a-Leads tenant_id cdm_entity_type id fields sha256 (signal_index registered)
        unhashed named
        (put_columns-Leads tenant_id cdm_entity_type id fields
          (columns_of tenant_id cdm_entity_type registered) _)
        filled

  -- An entity that was registered in an index is among the candidates of the blocking by telephone
  -- for the same fields, if their telephone number has a blocking key.
  pub phone_blocking_candidates-register_entity_fields :
      (k : Text)
      → phone_key tenant_id cdm_entity_type (raw_value (phone_field fields)) ≡ some k
      → in_texts id (phone_blocking_candidates tenant_id cdm_entity_type fields registered) ≡ true
  unfolding phone_blocking_candidates register_entity_fields
  phone_blocking_candidates-register_entity_fields k e = rw e (
      put_phones-hold id k (phone_key_of (dict_get (codes "phone") fields))
        (phone_key_of (dict_get (codes "phone_number") fields)) _
        (named_by (dict_get (codes "phone") fields) (dict_get (codes "phone_number") fields) e))
    where
      phone_key_of : Option Field → Option Text
      phone_key_of field = phone_key tenant_id cdm_entity_type (raw_value field)

      named_by :
          (a b : Option Field)
          → phone_key_of (get_or a b) ≡ some k
          → (phone_key_of a ≡ some k) ⊎ (phone_key_of b ≡ some k)
      named_by none b h = inr h
      named_by (some a) b h = inl h
