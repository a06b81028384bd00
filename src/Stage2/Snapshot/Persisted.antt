-- ===== src/Stage2/Snapshot/Persisted.antt =====
-- About the batch after `persist_entity_resolution_outcome` of db/resolve_persist.py: `resolve` in
-- transform/stage2_resolve/__init__.py on a snapshot of the index.
use nexus_spark_lib.Base.{
  Bool, Text, ℕ, ◌≡◌, ◌⊎◌, ◌∙◌, ap, sym, Option, none, some, List, [], ◌∷◌, codes, text_eq, or_text,
  true, false, dict_get, subst,
}
use nexus_spark_lib.Hashing.{Digest}
use nexus_spark_lib.Db.Rows.{Database}
use nexus_spark_lib.Db.ErIndex.{SourceKey, entity_of}
use nexus_spark_lib.Stage2.Persist.{Outcome, index_entry, persist_entity_resolution_outcome}
use nexus_spark_lib.Stage2.Persist.Once.{persisted, index_persisted, persisted_placed}
use nexus_spark_lib.Stage2.Signals.{ErIndex, known_id, lookup_prior_cdm_entity_id}
use nexus_spark_lib.Stage2.Rows.{ResolveRow, lookup_keys, reresolves, resolve_row}
use nexus_spark_lib.Stage2.Rows.Placed.{KeepsId, is_relevel, level_of, resolve_row-KeepsId}
use nexus_spark_lib.Stage2.Snapshot.{IdColumn, ThresholdRow, load_er_index_snapshot, snapshot_index}
use nexus_spark_lib.Stage2.Snapshot.Served.{
  source_key, IsPlain, IsKeyed, load_er_index_snapshot-entity_of,
}
use nexus_spark_lib.Stage2.Snapshot.Writes.{upsert_rows-IsKeyed}

-- The source of a row.
abbrev pub source_of : ResolveRow → SourceKey
source_of r = record {
  tenant_id = r.tenant_id;
  connector_id = or_text r.connector_id r.source_system;
  source_table = r.source_table;
  source_record_id = r.source_record_id;
}

prior-head :
    (er_index : ErIndex) (key : Text) (keys : List Text) (id : Text)
    → dict_get key er_index.snapshot ≡ some id
    → known_id (some id) ≡ some id
    → lookup_prior_cdm_entity_id er_index (key ∷ keys) ≡ some id
unfolding lookup_prior_cdm_entity_id
prior-head er_index key keys [] found named = cc
prior-head er_index key keys (c ∷ id) found named =
    let rest = lookup_prior_cdm_entity_id er_index keys in
    ap (λ o. elim (known_id o) [ some known ↦ some known | none ↦ rest ]) found

prior-first :
    (er_index : ErIndex) (r : ResolveRow) (id : Text)
    → dict_get (source_key (source_of r)) er_index.snapshot ≡ some id
    → known_id (some id) ≡ some id
    → lookup_prior_cdm_entity_id er_index (lookup_keys r) ≡ some id
unfolding lookup_keys
prior-first er_index r id found named =
    prior-head er_index (source_key (source_of r)) _ id found named

module _ (id_columns : List IdColumn) (er_thresholds : List ThresholdRow) where
  abbrev pub index_of : Database → ErIndex
  index_of db = snapshot_index (load_er_index_snapshot id_columns er_thresholds db)

  prior-served :
      (db : Database) (r : ResolveRow) (id : Text)
      → IsKeyed db.index
      → IsPlain (source_of r)
      → entity_of (source_of r) db ≡ some id
      → known_id (some id) ≡ some id
      → lookup_prior_cdm_entity_id (index_of db) (lookup_keys r) ≡ some id
  unfolding snapshot_index
  prior-served db r id h hk found named =
      prior-first (index_of db) r id
        (load_er_index_snapshot-entity_of id_columns er_thresholds db h (source_of r) hk ∙ found)
        named

  module _ (db : Database) (o : Outcome) (emit : Bool) where
    abbrev pub next_index : ErIndex
    next_index = index_of (persist_entity_resolution_outcome o emit db).1

    persisted-IsKeyed : IsPlain o.key → IsKeyed db.index → IsKeyed (persisted o emit db).index
    unfolding index_entry
    persisted-IsKeyed plain h =
        subst IsKeyed (sym (index_persisted o emit db))
          (upsert_rows-IsKeyed db.now (index_entry o ∷ []) db.index (plain, tt) h)

    module _ (sha256 : Digest) (score_pair : Text → ℕ) (candidates : List Text)
        (run_signal_c : Option (Text → ℕ)) (r : ResolveRow) where
      -- After an outcome with an id that is not empty is persisted into an index whose rows have
      -- plain keys, no two of them equal, a row of the same source, whose key is plain too (its
      -- connector is named, and its tenant, connector and table hold no NUL), which is resolved
      -- against the snapshot loaded then, is not COLD, and is a RELEVEL or need not be resolved
      -- again, keeps the persisted id, with an exact confidence, not provisional, and as RELEVEL or
      -- UPSERT.
      pub resolve_row-persisted :
          IsKeyed db.index
          → o.key ≡ source_of r
          → IsPlain o.key
          → known_id (some o.cdm_entity_id) ≡ some o.cdm_entity_id
          → text_eq (level_of sha256 next_index score_pair candidates run_signal_c r) (codes "cold")
            ≡ false
          → (is_relevel sha256 next_index score_pair candidates run_signal_c r ≡ true)
            ⊎ (reresolves sha256 next_index score_pair candidates run_signal_c r ≡ false)
          → KeepsId sha256 next_index score_pair candidates run_signal_c r o.cdm_entity_id
              (resolve_row sha256 next_index score_pair candidates run_signal_c r)
      unfolding persisted
      resolve_row-persisted h same plain named warmer cause =
          resolve_row-KeepsId sha256 next_index score_pair candidates run_signal_c r o.cdm_entity_id
            (prior-served (persisted o emit db) r o.cdm_entity_id (persisted-IsKeyed plain h)
              (subst IsPlain same plain)
              (subst (λ k. entity_of k (persisted o emit db) ≡ some o.cdm_entity_id) same
                (persisted_placed o emit db).1)
              named)
            warmer cause
