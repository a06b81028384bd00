-- ===== src/Stage2/Snapshot/Served.antt =====
-- About `load_er_index_snapshot` of db/er_index.py: which source records the snapshot serves.
use nexus_spark_lib.Base.{
  Text, ◌≡◌, refl, sym, ap, ◌∙◌, subst, inl, inr, true, false, none, some, List, [], ◌∷◌, arith,
  or_else, or_else-none, Bool, dict_set_default, any, text_eq, text_eq→eq, text_eq_iff,
  text_eq_refl, or_text, non_empty, select, Dict, dict_get, dict_get-set, dict_get-set_default_ne,
  Bool-cases, if◌then◌else◌,
}
use nexus_spark_lib.Hashing.{
  er_source_lookup_key, er_legacy_source_lookup_key, er_deterministic_lookup_key,
}
use nexus_spark_lib.Hashing.Keys.{NoNul, er_source_lookup_key_inj}
use nexus_spark_lib.Db.Rows.{ErRow, Database}
use nexus_spark_lib.Db.ErIndex.{SourceKey, is_source, row_entity, entity_of}
use nexus_spark_lib.Stage2.Snapshot.{
  IdColumn, ThresholdRow, HashRow, row_key, legacy_key, put_row, put_rows, hash_key, put_hashes,
  load_er_index_snapshot, deterministic_rows, system_of,
}

abbrev pub key_of : ErRow → SourceKey
key_of row = record {
  tenant_id = row.tenant_id;
  connector_id = row.connector_id;
  source_table = row.source_table;
  source_record_id = row.source_record_id;
}

abbrev pub source_key : SourceKey → Text
source_key k = er_source_lookup_key k.tenant_id k.connector_id k.source_table k.source_record_id

-- A key whose connector is named and whose parts before the record id hold no NUL.
abbrev pub IsPlain : SourceKey → Type 0
IsPlain k =
    NoNul k.tenant_id
    × NoNul k.connector_id
    × NoNul k.source_table
    × (non_empty k.connector_id ≡ true)

-- The keys of the rows are plain, and no two of them are equal.
abbrev pub IsKeyed : List ErRow → Type 0
IsKeyed [] = Unit
IsKeyed (r ∷ rows) = IsPlain (key_of r) × (any (is_source (key_of r)) rows ≡ false) × IsKeyed rows

or_text_named : (s t : Text) → non_empty s ≡ true → or_text s t ≡ s
or_text_named [] t h = cc
or_text_named (c ∷ s) t h = refl

is_source→key_of : (k : SourceKey) (r : ErRow) → is_source k r ≡ true → key_of r ≡ k
is_source→key_of k r h = let (p, q, s, u) = parts in rw (p, q, s, u) refl
  where
    parts :
        (r.tenant_id ≡ k.tenant_id)
        × (r.connector_id ≡ k.connector_id)
        × (r.source_table ≡ k.source_table)
        × (r.source_record_id ≡ k.source_record_id)
    parts = ground (
      arith,
      text_eq_iff r.tenant_id k.tenant_id,
      text_eq_iff r.connector_id k.connector_id,
      text_eq_iff r.source_table k.source_table,
      text_eq_iff r.source_record_id k.source_record_id,
    )

row_key-key_of : (r : ErRow) → IsPlain (key_of r) → row_key r ≡ source_key (key_of r)
row_key-key_of r hr = rw (or_text_named r.connector_id r.source_system hr.3) refl

-- A row has the lookup key of a source exactly if it is that source's row.
row_key_fits :
    (k : SourceKey) (r : ErRow)
    → IsPlain k
    → IsPlain (key_of r)
    → text_eq (row_key r) (source_key k) ≡ is_source k r
row_key_fits k r hk hr = elim (Bool-cases (is_source k r)) [
  | inl e ↦
      ap (λ s. text_eq s (source_key k))
        (row_key-key_of r hr ∙ ap source_key (is_source→key_of k r e))
      ∙ text_eq_refl (source_key k)
      ∙ sym e
  | inr e ↦ elim (Bool-cases (text_eq (row_key r) (source_key k))) [
    | inl s ↦ absurd (ne e (sym (row_key-key_of r hr) ∙ text_eq→eq _ _ s))
    | inr s ↦ s ∙ sym e
  ]
]
  where
    ne : is_source k r ≡ false → source_key (key_of r) ≡ source_key k → ⊥
    ne e same =
        let (p, q, s, u) =
          er_source_lookup_key_inj r.tenant_id r.connector_id r.source_table r.source_record_id
            k.tenant_id k.connector_id k.source_table k.source_record_id (hr.0, hr.1, hr.2)
            (hk.0, hk.1, hk.2) same in
        ground (
          arith,
          text_eq_iff r.tenant_id k.tenant_id,
          text_eq_iff r.connector_id k.connector_id,
          text_eq_iff r.source_table k.source_table,
          text_eq_iff r.source_record_id k.source_record_id,
        )

legacy_key_ne : (k : SourceKey) (r : ErRow) → text_eq (legacy_key r) (source_key k) ≡ false
unfolding text_eq er_source_lookup_key er_legacy_source_lookup_key
legacy_key_ne k r = refl

hash_key_ne : (k : SourceKey) (r : HashRow) → text_eq (hash_key r) (source_key k) ≡ false
unfolding text_eq er_source_lookup_key er_deterministic_lookup_key
hash_key_ne k r = refl

-- What the loops leave at the key of a source: the last value of its rows.
put_row-get :
    (k : SourceKey) (r : ErRow) (d : Dict Text)
    → IsPlain k
    → IsPlain (key_of r)
    → dict_get (source_key k) (put_row r d)
      ≡ (if is_source k r then some r.cdm_entity_id else dict_get (source_key k) d)
put_row-get k r d hk hr =
    after_legacy (non_empty (system_of r)) _
    ∙ dict_get-set (row_key r) (source_key k) r.cdm_entity_id d
    ∙ ap (λ b. if b then some r.cdm_entity_id else dict_get (source_key k) d)
        (row_key_fits k r hk hr)
  where
    after_legacy :
        (b : Bool) (placed : Dict Text)
        → dict_get
            (source_key k)
            (if b then dict_set_default (legacy_key r) r.cdm_entity_id placed else placed)
          ≡ dict_get (source_key k) placed
    after_legacy true placed =
        dict_get-set_default_ne (legacy_key r) (source_key k) r.cdm_entity_id placed
          (legacy_key_ne k r)
    after_legacy false placed = refl

put_hashes-get :
    (k : SourceKey) (rows : List HashRow) (d : Dict Text)
    → dict_get (source_key k) (put_hashes rows d) ≡ dict_get (source_key k) d
unfolding put_hashes
put_hashes-get k [] d = refl
put_hashes-get k (r ∷ rows) d =
    put_hashes-get k rows _
    ∙ dict_get-set_default_ne (hash_key r) (source_key k) r.cdm_entity_id d (hash_key_ne k r)

select-unmatched :
    (k : SourceKey) (rows : List ErRow)
    → any (is_source k) rows ≡ false
    → select (is_source k) rows ≡ none
unfolding any select
select-unmatched k [] h = refl
select-unmatched k (r ∷ rows) h = ground (arith, select-unmatched k rows)

put_rows-get :
    (k : SourceKey) (rows : List ErRow) (d : Dict Text)
    → IsPlain k
    → IsKeyed rows
    → dict_get (source_key k) (put_rows rows d)
      ≡ or_else (row_entity (select (is_source k) rows)) (dict_get (source_key k) d)
unfolding put_rows select
put_rows-get k [] d hk h = refl
put_rows-get k (r ∷ rows) d hk h =
    put_rows-get k rows (put_row r d) hk h.2
    ∙ ap (or_else (row_entity (select (is_source k) rows))) (put_row-get k r d hk h.0)
    ∙ here (is_source k r) refl
  where
    here :
        (b : Bool)
        → is_source k r ≡ b
        → or_else
            (row_entity (select (is_source k) rows))
            (if b then some r.cdm_entity_id else dict_get (source_key k) d)
          ≡ or_else
              (row_entity (if b then some r else select (is_source k) rows))
              (dict_get (source_key k) d)
    here true e =
        ap (λ o. or_else (row_entity o) (some r.cdm_entity_id))
          (select-unmatched k rows
            (subst (λ j. any (is_source j) rows ≡ false) (is_source→key_of k r e) h.1))
    here false e = refl

pub load_er_index_snapshot-entity_of :
    (id_columns : List IdColumn) (er_thresholds : List ThresholdRow) (db : Database)
    → IsKeyed db.index
    → (k : SourceKey) → IsPlain k
    → dict_get (source_key k) (load_er_index_snapshot id_columns er_thresholds db).snapshot
      ≡ entity_of k db
unfolding load_er_index_snapshot entity_of dict_get
load_er_index_snapshot-entity_of id_columns er_thresholds db h k hk =
    put_hashes-get k (deterministic_rows id_columns db.golden db.provenance) (put_rows db.index [])
    ∙ put_rows-get k db.index [] hk h
    ∙ or_else-none (row_entity (select (is_source k) db.index))
