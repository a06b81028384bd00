-- ===== src/Db/Provenance/Settled.antt =====
-- About the statements of `apply_synthesis_result` of db/golden_records.py, one by one.
use nexus_spark_lib.Base.{
  none-ne-some, sym, map, Text, ◌≡◌, refl, ap, ◌∙◌, Bool, true, false, ◌&&◌, Option, none, some,
  List, [], ◌∷◌, arith, any, All, text_eq, text_eq_iff, text_eq_refl, select, upserted,
  delete_where, select-upsert_self, select-upsert_other, upsert-same, select-delete_where,
  select-delete_where_other, delete_where-none, select-delete_where-none, Bool-cases, inl, inr,
}
use mathlib.Core.Option.{some_inj}
use nexus_spark_lib.Models.Survivorship.{ProvenanceRow}
use nexus_spark_lib.Db.Rows.{GrpRow}
use nexus_spark_lib.Db.Provenance.{
  is_attribute, same_winner, inserted, overwritten, put, put_all, is_deleted, delete_all, with_time,
  coerce_observed_at, coerce_rows,
}

-- The table has the winner of a row and its value.
abbrev pub IsSettled : ProvenanceRow → List GrpRow → Type 0
IsSettled r rows = (x : GrpRow) × (select (is_attribute r) rows ≡ some x) × (same_winner r x ≡ true)

-- Two rows are of the same attribute.
abbrev pub same_attribute : ProvenanceRow → ProvenanceRow → Bool
same_attribute r q =
    text_eq q.cdm_entity_id r.cdm_entity_id && text_eq q.attribute_name r.attribute_name

abbrev pub AreDistinct : List ProvenanceRow → Type 0
AreDistinct [] = Unit
AreDistinct (r ∷ rs) = (any (same_attribute r) rs ≡ false) × AreDistinct rs

other_attribute :
    (r q : ProvenanceRow) (x : GrpRow)
    → same_attribute r q ≡ false
    → is_attribute q x ≡ true
    → is_attribute r x ≡ false
other_attribute r q x h e = ground (
  arith,
  text_eq_iff x.cdm_entity_id q.cdm_entity_id,
  text_eq_iff x.attribute_name q.attribute_name,
)

abbrev pub rows_of : List (ProvenanceRow × Text) → List ProvenanceRow
rows_of arguments = map (λ a. a.0) arguments

with_time-some :
    (r : ProvenanceRow) (t : Option Text) (rest : Option (List (ProvenanceRow × Text)))
    (arguments : List (ProvenanceRow × Text))
    → with_time r t rest ≡ some arguments
    → (a : Text) × (more : List (ProvenanceRow × Text)) × (rest ≡ some more)
      × (arguments ≡ (r, a) ∷ more)
with_time-some r none rest arguments e = absurd (none-ne-some e)
with_time-some r (some t) none arguments e = absurd (none-ne-some e)
with_time-some r (some t) (some more) arguments e = (t, more, refl, sym (some_inj.0 e))

-- The arguments are those of the rows, in their order.
pub rows-coerce_rows :
    (fromisoformat : Text → Option Text) (rs : List ProvenanceRow)
    (arguments : List (ProvenanceRow × Text))
    → coerce_rows fromisoformat rs ≡ some arguments
    → rows_of arguments ≡ rs
unfolding coerce_rows
rows-coerce_rows fromisoformat [] arguments e = ap rows_of (sym (some_inj.0 e))
rows-coerce_rows fromisoformat (r ∷ rs) arguments e =
    let (a, more, rest, is_arguments) =
      with_time-some r (coerce_observed_at fromisoformat r.observed_at)
        (coerce_rows fromisoformat rs) arguments e in
    ap rows_of is_arguments ∙ ap (λ xs. r ∷ xs) (rows-coerce_rows fromisoformat rs more rest)

module _ (tenant_id : Text) where
  same_winner-overwritten :
      (r : ProvenanceRow) (t : Text) (x : GrpRow)
      → same_winner r (overwritten tenant_id r t x) ≡ true
  same_winner-overwritten r t x = elim (Bool-cases (same_winner r x)) [
    | inl e ↦ rw e e
    | inr e ↦ rw e (rw (text_eq_refl r.observed_value_hash, text_eq_refl r.winning_record_id))
  ]

  is_attribute-overwritten :
      (q r : ProvenanceRow) (t : Text) (x : GrpRow)
      → is_attribute q (overwritten tenant_id r t x) ≡ is_attribute q x
  is_attribute-overwritten q r t x = elim (Bool-cases (same_winner r x)) [
    | inl e ↦ rw e refl
    | inr e ↦ rw e refl
  ]

  same_winner-upserted :
      (r : ProvenanceRow) (t : Text) (o : Option GrpRow)
      → same_winner r (upserted (overwritten tenant_id r t) (inserted tenant_id r t) o) ≡ true
  same_winner-upserted r t none =
      rw (text_eq_refl r.observed_value_hash, text_eq_refl r.winning_record_id)
  same_winner-upserted r t (some x) = same_winner-overwritten r t x

  put-IsSettled :
      (r : ProvenanceRow) (t : Text) (rows : List GrpRow) → IsSettled r (put tenant_id r t rows)
  put-IsSettled r t rows = (
    upserted (overwritten tenant_id r t) (inserted tenant_id r t) (select (is_attribute r) rows),
    select-upsert_self (is_attribute r) (overwritten tenant_id r t) _ rows
        (rw (text_eq_refl r.cdm_entity_id, text_eq_refl r.attribute_name))
        (λ x h. is_attribute-overwritten r r t x ∙ h),
    same_winner-upserted r t (select (is_attribute r) rows),
  )

  put-IsSettled_ne :
      (r q : ProvenanceRow) (t : Text) (rows : List GrpRow)
      → same_attribute r q ≡ false
      → IsSettled r rows
      → IsSettled r (put tenant_id q t rows)
  put-IsSettled_ne r q t rows ne (x, e, h) = (
    x,
    select-upsert_other (is_attribute q) (is_attribute r) (overwritten tenant_id q t) _ rows ne
          (λ y k. other_attribute r q y ne k)
          (λ y k. is_attribute-overwritten r q t y ∙ other_attribute r q y ne k)
        ∙ e,
    h,
  )

  put_all-IsSettled_ne :
      (r : ProvenanceRow) (args : List (ProvenanceRow × Text)) (rows : List GrpRow)
      → any (same_attribute r) (rows_of args) ≡ false
      → IsSettled r rows
      → IsSettled r (put_all tenant_id args rows)
  unfolding put_all any
  put_all-IsSettled_ne r [] rows ne h = h
  put_all-IsSettled_ne r ((q, t) ∷ args) rows ne h =
      put_all-IsSettled_ne r args _ (ground (arith, ne))
        (put-IsSettled_ne r q t rows (ground (arith, ne)) h)

  pub put_all-AllSettled :
      (args : List (ProvenanceRow × Text)) (rows : List GrpRow)
      → AreDistinct (rows_of args)
      → All (λ r. IsSettled r (put_all tenant_id args rows)) (rows_of args)
  unfolding put_all
  put_all-AllSettled [] rows d = tt
  put_all-AllSettled ((r, t) ∷ args) rows d =
      (put_all-IsSettled_ne r args _ d.0 (put-IsSettled r t rows), put_all-AllSettled args _ d.1)

  pub put_all-settled :
      (args : List (ProvenanceRow × Text)) (rows : List GrpRow)
      → All (λ r. IsSettled r rows) (rows_of args)
      → put_all tenant_id args rows ≡ rows
  unfolding put_all
  put_all-settled [] rows h = refl
  put_all-settled ((r, t) ∷ args) rows ((x, e, s), h) =
      ap (put_all tenant_id args)
        (upsert-same (is_attribute r) (overwritten tenant_id r t) _ x rows e (rw s refl))
      ∙ put_all-settled args rows h

-- Whether a deletion names the attribute of a row.
abbrev pub is_named : ProvenanceRow → Text × Text × Text → Bool
is_named r (entity_id, attr, source) =
    text_eq r.cdm_entity_id entity_id && text_eq r.attribute_name attr

module _ (source_system : GrpRow → Text) where
  delete-IsSettled :
      (r : ProvenanceRow) (d : Text × Text × Text) (rows : List GrpRow)
      → is_named r d ≡ false
      → IsSettled r rows
      → IsSettled r (delete_where (is_deleted source_system d) rows)
  delete-IsSettled r d rows ne (x, e, h) = (
    x,
    select-delete_where_other (is_deleted source_system d) (is_attribute r) rows
          (λ y k. unnamed y k)
        ∙ e,
    h,
  )
    where
      unnamed : (y : GrpRow) → is_attribute r y ≡ true → is_deleted source_system d y ≡ false
      unnamed y k = ground (
        arith,
        text_eq_iff y.cdm_entity_id r.cdm_entity_id,
        text_eq_iff y.attribute_name r.attribute_name,
      )

  delete_all-IsSettled :
      (r : ProvenanceRow) (ds : List (Text × Text × Text)) (rows : List GrpRow)
      → any (is_named r) ds ≡ false
      → IsSettled r rows
      → IsSettled r (delete_all source_system ds rows)
  unfolding delete_all any
  delete_all-IsSettled r [] rows ne h = h
  delete_all-IsSettled r (d ∷ ds) rows ne h =
      delete_all-IsSettled r ds _ (ground (arith, ne))
        (delete-IsSettled r d rows (ground (arith, ne)) h)

  abbrev IsGone : List GrpRow → Text × Text × Text → Type 0
  IsGone rows d = select (is_deleted source_system d) rows ≡ none

  delete_all-IsGone :
      (d : Text × Text × Text) (ds : List (Text × Text × Text)) (rows : List GrpRow)
      → IsGone rows d
      → IsGone (delete_all source_system ds rows) d
  unfolding delete_all
  delete_all-IsGone d [] rows h = h
  delete_all-IsGone d (c ∷ ds) rows h =
      delete_all-IsGone d ds _
        (select-delete_where-none (is_deleted source_system c) (is_deleted source_system d) rows h)

  pub delete_all-AllGone :
      (ds : List (Text × Text × Text)) (rows : List GrpRow)
      → All (IsGone (delete_all source_system ds rows)) ds
  unfolding delete_all
  delete_all-AllGone [] rows = tt
  delete_all-AllGone (d ∷ ds) rows = (
    delete_all-IsGone d ds _ (select-delete_where (is_deleted source_system d) rows),
    delete_all-AllGone ds _,
  )

  pub delete_all-gone :
      (ds : List (Text × Text × Text)) (rows : List GrpRow)
      → All (IsGone rows) ds
      → delete_all source_system ds rows ≡ rows
  unfolding delete_all
  delete_all-gone [] rows h = refl
  delete_all-gone (d ∷ ds) rows h =
      ap (delete_all source_system ds) (delete_where-none (is_deleted source_system d) rows h.0)
      ∙ delete_all-gone ds rows h.1

  pub AllSettled-delete_all :
      (rs : List ProvenanceRow) (ds : List (Text × Text × Text)) (rows : List GrpRow)
      → All (λ r. any (is_named r) ds ≡ false) rs
      → All (λ r. IsSettled r rows) rs
      → All (λ r. IsSettled r (delete_all source_system ds rows)) rs
  AllSettled-delete_all [] ds rows n h = tt
  AllSettled-delete_all (r ∷ rs) ds rows n h =
      (delete_all-IsSettled r ds rows n.0 h.0, AllSettled-delete_all rs ds rows n.1 h.1)

abbrev pub Unnamed : List (Text × Text × Text) → ProvenanceRow → Type 0
Unnamed deletions r = any (is_named r) deletions ≡ false
