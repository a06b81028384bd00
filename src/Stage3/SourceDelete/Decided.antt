-- ===== src/Stage3/SourceDelete/Decided.antt =====
-- About `handle_source_delete` of transform/stage3_synthesise.py.
use nexus_spark_lib.Base.{
  Text, ℕ, ◌+◌, ◌≡◌, refl, Bool, Option, none, some, List, [], ◌∷◌, ◌++◌, arith, count_of,
  if◌then◌else◌,
}
use nexus_spark_lib.Models.Survivorship.{ProvenanceRow}
use nexus_spark_lib.Hashing.{Digest}
use nexus_spark_lib.Stage3.Context.{
  ErIndexEntry, tombstoned_action, re_elected_action, DeleteResult, SynthesisContext,
}
use nexus_spark_lib.Stage3.SourceDelete.{
  Source, elected, removed_from, record_winner, re_elect_attributes, delete_survived,
  handle_source_delete,
}

count-append_one :
    (p : Text → Bool) (xs : List Text) (a : Text)
    → count_of p (xs ++ a ∷ []) ≡ count_of p xs + (if p a then 1 else 0)
unfolding count_of
count-append_one p [] a = omega arith
count-append_one p (x ∷ xs) a = omega (arith, count-append_one p xs a)

module _ {S : Type 0} (sha256 : Digest) (ctx : SynthesisContext S) (d : Source) where
  abbrev total : (Text → Bool) → (List Text × List Text) × S → ℕ
  total p ((re_elected, removed), s) = count_of p re_elected + count_of p removed

  total-record_winner :
      (p : Text → Bool) (attr_name : Text) (row : Option ProvenanceRow)
      (acc : (List Text × List Text) × S)
      → total p (record_winner sha256 ctx d attr_name row acc)
        ≡ total p acc + (if p attr_name then 1 else 0)
  total-record_winner p attr_name none ((re_elected, removed), s) =
      omega (arith, count-append_one p removed attr_name)
  total-record_winner p attr_name (some row) ((re_elected, removed), s) =
      omega (arith, count-append_one p re_elected attr_name)

  total-re_elect_attributes :
      (p : Text → Bool) (e : Text) (remaining : List ErIndexEntry) (names : List Text)
      (acc : (List Text × List Text) × S)
      → total p (re_elect_attributes sha256 ctx d e remaining names acc)
        ≡ total p acc + count_of p names
  unfolding re_elect_attributes count_of
  total-re_elect_attributes p e remaining [] (lists, s) = omega arith
  total-re_elect_attributes p e remaining (a ∷ names) (lists, s) =
      let s' = removed_from sha256 ctx d e a s in
      let row = elected sha256 ctx d e a remaining s' in
      omega (
        arith,
        total-re_elect_attributes p e remaining names
            (record_winner sha256 ctx d a row (lists, s')),
        total-record_winner p a row (lists, s'),
      )

  -- The outcome by what remains and what the deleted source had won: a tombstone exactly if no
  -- source remains; otherwise each won attribute is either elected anew or removed, once.
  abbrev pub IsDecided : List ErIndexEntry → List Text → DeleteResult → Type 0
  IsDecided [] winning result =
      (result.action ≡ tombstoned_action)
      × (result.re_elected_attributes ≡ [])
      × (result.removed_attributes ≡ [])
  IsDecided (source ∷ remaining) winning result =
      (result.action ≡ re_elected_action)
      × ((p : Text → Bool)
          → count_of p result.re_elected_attributes + count_of p result.removed_attributes
            ≡ count_of p winning)

  delete_survived_decides :
      (e : Text) (winning : List Text) (remaining : List ErIndexEntry) (s : S)
      → IsDecided remaining winning (delete_survived sha256 ctx d e winning remaining s).0
  unfolding delete_survived count_of
  delete_survived_decides e winning [] s = (refl, refl, refl)
  delete_survived_decides e winning (source ∷ remaining) s = (
    refl,
    λ p. omega (arith, total-re_elect_attributes p e (source ∷ remaining) winning (([], []), s)),
  )

  -- What the stores hold once the source has left the index.
  abbrev pub without_source : S → S
  without_source s = ctx.delete_source d.connector_id d.source_table d.source_record_id s

  -- The deletion of a source that the index knows: if no source of its record remains, the action
  -- is `tombstoned` and no attribute is listed; otherwise it is `re_elected`, and every attribute
  -- that the source had won is listed exactly once, as elected anew or as removed.
  pub handle_source_delete_indexed :
      (entry : ErIndexEntry) (s : S)
      → ctx.lookup_source s d.tenant_id d.connector_id d.source_table d.source_record_id
        ≡ some entry
      → IsDecided
          (ctx.get_all_for_entity (without_source s) entry.cdm_entity_id)
          (ctx.get_attributes_won_by s entry.cdm_entity_id d.connector_id d.source_record_id)
          (handle_source_delete sha256 ctx d s).0
  unfolding handle_source_delete
  handle_source_delete_indexed entry s e = rw e (
      delete_survived_decides entry.cdm_entity_id
        (ctx.get_attributes_won_by s entry.cdm_entity_id d.connector_id d.source_record_id)
        (ctx.get_all_for_entity (without_source s) entry.cdm_entity_id) (without_source s))
