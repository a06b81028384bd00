-- ===== src/Stage3/Synthesise/Frame.antt =====
-- About the writes of `_synthesise_record` of transform/stage3_synthesise.py to the provenance.
use nexus_spark_lib.Base.{
  Text, ◌≡◌, refl, sym, subst, ◌∙◌, inl, inr, Bool, true, false, Option, none, some, List, [], ◌∷◌,
  All, Among, Dict, dict_get, Bool-cases, text_eq,
}
use nexus_spark_lib.Models.Survivorship.{ProvenanceRow}
use nexus_spark_lib.Hashing.{Digest}
use nexus_spark_lib.Stage3.Context.{
  Scalar, NormalisedRecord, ProvenanceChange, SynthesisContext, IsProvenanceStore,
}
use nexus_spark_lib.Stage3.Synthesise.{
  wins, handle_cleared_attribute_on_update, value_outcome, incoming_value, synthesise_attribute,
  synthesise_attributes, write_changes, store_hash, compute_provenance_hash,
}

module _ {S : Type 0} (sha256 : Digest) (ctx : SynthesisContext S)
    (laws : IsProvenanceStore ctx) where
  -- The provenance of every entity at every attribute that is not named is the same.
  abbrev pub SameOutside : List Text → S → S → Type 0
  SameOutside names s s' =
      (e a : Text) → ¬ Among a names → dict_get a (ctx.get_all s' e) ≡ dict_get a (ctx.get_all s e)

  pub SameOutside-refl : (names : List Text) (s : S) → SameOutside names s s
  SameOutside-refl names s e a h = refl

  pub SameOutside-trans :
      (names : List Text) (s t u : S)
      → SameOutside names s t
      → SameOutside names t u
      → SameOutside names s u
  SameOutside-trans names s t u f g e a h = g e a h ∙ f e a h

  apart : (names : List Text) (a b : Text) → ¬ Among a names → Among b names → ¬ (a ≡ b)
  apart names a b h m e = h (subst (λ x. Among x names) (sym e) m)

  SameOutside-cleared :
      (names : List Text) (attr_name : Text) (r : NormalisedRecord) (o : Option ProvenanceRow)
      (s : S)
      → Among attr_name names
      → SameOutside names s (handle_cleared_attribute_on_update sha256 ctx attr_name r o s).1
  unfolding handle_cleared_attribute_on_update
  SameOutside-cleared names attr_name r none s m = SameOutside-refl names s
  SameOutside-cleared names attr_name r (some existing) s m = elim (Bool-cases (wins r existing)) [
    | inl w ↦ rw w (λ e a h.
        laws.get_delete e a r.cdm_entity_id attr_name r.connector_id r.source_record_id s
          (apart names a attr_name h m))
    | inr w ↦ rw w (SameOutside-refl names s)
  ]

  SameOutside-value :
      (names : List Text) (r : NormalisedRecord) (existing : Dict ProvenanceRow) (attr_name : Text)
      (v : Option Scalar) (s : S)
      → Among attr_name names
      → SameOutside names s (value_outcome sha256 ctx r existing attr_name v s).1
  unfolding value_outcome
  SameOutside-value names r existing attr_name none s m =
      SameOutside-cleared names attr_name r (dict_get attr_name existing) s m
  SameOutside-value names r existing attr_name (some v) s m = SameOutside-refl names s

  pub SameOutside-attributes :
      (names : List Text) (r : NormalisedRecord) (existing : Dict ProvenanceRow) (todo : List Text)
      (s : S)
      → All (λ a. Among a names) todo
      → SameOutside names s (synthesise_attributes sha256 ctx r existing todo s).1
  unfolding synthesise_attributes synthesise_attribute
  SameOutside-attributes names r existing [] s h = SameOutside-refl names s
  SameOutside-attributes names r existing (a ∷ todo) s h =
      let s' = (synthesise_attribute sha256 ctx r existing a s).1 in
      SameOutside-trans names s s' (synthesise_attributes sha256 ctx r existing todo s').1
        (SameOutside-value names r existing a (incoming_value r a) s h.0)
        (SameOutside-attributes names r existing todo s' h.1)

  pub SameOutside-write_changes :
      (names : List Text) (changes : List ProvenanceChange) (s : S)
      → All (λ c. Among c.row.attribute_name names) changes
      → SameOutside names s (write_changes sha256 ctx changes s).1
  unfolding write_changes
  SameOutside-write_changes names [] s h = SameOutside-refl names s
  SameOutside-write_changes names (c ∷ changes) s h =
      let s' = (ctx.upsert_returning_changed c.row s).1 in
      SameOutside-trans names s s' (write_changes sha256 ctx changes s').1
        (λ e a m. laws.get_upsert e a c.row s (apart names a c.row.attribute_name m h.0))
        (SameOutside-write_changes names changes s' h.1)

  pub SameOutside-store_hash :
      (names : List Text) (i : Text) (recompute : Bool) (updated : Dict ProvenanceRow) (s : S)
      → SameOutside names s (store_hash sha256 ctx i recompute updated s).1
  unfolding store_hash
  SameOutside-store_hash names i false updated s = SameOutside-refl names s
  SameOutside-store_hash names i true updated s =
      elim (Bool-cases (text_eq (compute_provenance_hash sha256 updated) (ctx.get_hash s i))) [
        | inl e ↦ rw e (SameOutside-refl names s)
        | inr e ↦ rw e (λ f a h. laws.get_hashed f a i (compute_provenance_hash sha256 updated) s)
      ]
