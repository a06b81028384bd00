-- ===== src/Stage1/Rows/Images.antt =====
-- About the rows of transform/stage1_normalise.py and the images that they are made from.
use nexus_spark_lib.Base.{
  inr, inl, ◌+◌, Text, ℕ, suc, ◌≤◌, ◌≡◌, Option, none, some, List, [], ◌∷◌, arith, text_eq, or_text,
  Dict, dict_set, length, codes, sort_by, Reordered, length-sort_by, length-Reordered, Bool-cases,
}
use nexus_spark_lib.Hashing.{Digest}
use nexus_spark_lib.Stage1.Values.{Python}
use nexus_spark_lib.Stage1.Fields.{
  FieldMap, FxConvert, NormalisedEntry, Item, Selected, nothing_selected, normalised_entry,
  select_mapped, select_items, cdm_attr_of, key_before, normalise_payload,
}
use nexus_spark_lib.Stage1.Fields.Selection.{normalise_payload-Reordered}
use nexus_spark_lib.Stage1.Blocking.{BlockingRules}
use nexus_spark_lib.Stage1.Rows.{
  RawRecord, FieldMaps, resolve_field_map, payload_of, normalise_row, row_of,
}

length-dict_set :
    (k : Text) (e : NormalisedEntry) (d : Dict NormalisedEntry)
    → length (dict_set k e d) ≤ suc (length d)
unfolding dict_set
length-dict_set k e [] = omega arith
length-dict_set k e ((j, w) ∷ d) = ground (arith, length-dict_set k e d)

module _ (py : Python) (fx_rates : Option FxConvert) (source_ts : Option Text)
    (field_map : FieldMap) where
  length-select_mapped :
      (o : Option Text) (x : Item) (st : Selected)
      → length (select_mapped py fx_rates source_ts field_map o x st).fields
        ≤ suc (length st.fields)
  length-select_mapped none x st = omega arith
  length-select_mapped (some a) x st =
      ground
        (arith, length-dict_set a (normalised_entry py fx_rates source_ts field_map a x) st.fields)

  length-select_items :
      (xs : List Item) (st : Selected)
      → length (select_items py fx_rates source_ts field_map xs st).fields
        ≤ length st.fields + length xs
  unfolding select_items
  length-select_items [] st = omega arith
  length-select_items (x ∷ xs) st =
      let o = cdm_attr_of field_map x in
      omega (
        arith,
        length-select_items xs (select_mapped py fx_rates source_ts field_map o x st),
        length-select_mapped o x st,
      )

  pub length-normalise_payload :
      (payload : List Item)
      → length (normalise_payload py fx_rates source_ts field_map payload).fields ≤ length payload
  unfolding normalise_payload
  length-normalise_payload payload = omega (
    arith,
    length-select_items (sort_by key_before payload) nothing_selected,
    length-sort_by key_before payload,
  )

-- A record with two other images.
abbrev pub with_images : RawRecord → List Item → List Item → RawRecord
with_images r after before = record r { after_payload = some after; before_payload = some before }

module _ (py : Python) (sha256 : Digest) (mapping : FieldMaps) (fx_rates : Option FxConvert)
    (rules : BlockingRules) (cdm_entity_type : Text) where
  -- The payload that the operation selects, in the two orders.
  payload-Reordered :
      (r : RawRecord) {after after' before before' : List Item}
      → Reordered key_before after after'
      → Reordered key_before before before'
      → Reordered key_before
          (payload_of (with_images r after before))
          (payload_of (with_images r after' before'))
  unfolding payload_of
  payload-Reordered r ra rb =
      elim (Bool-cases (text_eq (or_text r.source_op (codes "INSERT")) (codes "DELETE"))) [
        | inl e ↦ rw e rb
        | inr e ↦ rw e ra
      ]

  -- The normalised row is the same for two orders of the images after and before, which differ by
  -- exchanges of neighbours with different keys: fields, extras, score, keys and changed
  -- attributes.
  pub normalise_row-Reordered :
      (r : RawRecord) {after after' before before' : List Item}
      → Reordered key_before after after'
      → Reordered key_before before before'
      → normalise_row py sha256 mapping fx_rates rules cdm_entity_type (with_images r after before)
        ≡ normalise_row py sha256 mapping fx_rates rules cdm_entity_type
            (with_images r after' before')
  unfolding normalise_row row_of
  normalise_row-Reordered r {after} {after'} {before} {before'} ra rb =
      let field_map =
        resolve_field_map mapping r.tenant_id r.connector_id r.source_system r.source_table in
      let rp = payload-Reordered r ra rb in
      row_cong (with_images r after before)
        (normalise_payload-Reordered py fx_rates r.source_ts field_map rp)
        (length-Reordered key_before rp)
        (normalise_payload-Reordered py fx_rates r.source_ts field_map rb)
    where
      row_cong :
          (r : RawRecord) {s s' b b' : Selected} {n n' : ℕ}
          → s ≡ s'
          → n ≡ n'
          → b ≡ b'
          → row_of py sha256 mapping fx_rates rules cdm_entity_type r s n b.fields
            ≡ row_of py sha256 mapping fx_rates rules cdm_entity_type r s' n' b'.fields
      row_cong r p q w = cc
