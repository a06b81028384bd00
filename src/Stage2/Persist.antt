-- ===== src/Stage2/Persist.antt =====
-- nexus_spark_lib/db/resolve_persist.py: what a resolved record leaves in the tables. The parsed
-- breakdown is a text; the event goes out exactly if the result is true.
pub mod Once
use nexus_spark_lib.Base.{
  Text, ℕ, Bool, true, false, ◌&&◌, Option, none, some, List, [], ◌∷◌, codes, if◌then◌else◌,
  text_eq, Dict, dict_get, is_some,
}
use nexus_spark_lib.Models.ErTypes.{method_deterministic, method_probabilistic, method_graph}
use nexus_spark_lib.Db.Rows.{Action, pure, ◌>>=◌, ◌>>◌}
use nexus_spark_lib.Db.ErIndex.{SourceKey, Entry, upsert_batch}
use nexus_spark_lib.Db.Redirects.{queue_for_review}
use nexus_spark_lib.Stage2.Crud.{activate}

-- _METHOD_DB
abbrev pub method_db : Dict Text
method_db =
    (codes "fast_path", method_deterministic)
    ∷ (codes "spark_deterministic", method_deterministic)
    ∷ (codes "spark_probabilistic", method_probabilistic)
    ∷ (codes "spark_graph", method_graph)
    ∷ (codes "review_band", method_probabilistic)
    ∷ (codes "warm_new", codes "spark_auto")
    ∷ (codes "new", codes "spark_auto")
    ∷ (codes "cold_skip", codes "spark_auto")
    ∷ []

abbrev method_or : Text → Option Text → Text
method_or [] none = codes "spark_auto"
method_or (c ∷ s) none = c ∷ s
method_or s (some m) = m

unfoldable pub resolution_method_for_db : Text → Text
resolution_method_for_db er_resolution_method =
    method_or er_resolution_method (dict_get er_resolution_method method_db)

pub record Outcome : Type 0 where
  pub key : SourceKey
  pub source_system : Text
  pub cdm_entity_id : Text
  pub cdm_entity_type : Text
  pub er_confidence : ℕ
  pub er_resolution_method : Text
  pub er_is_provisional : Bool
  pub er_review_peer_cdm_id : Text
  pub breakdown : Text

unfoldable pub index_entry : Outcome → Entry
unfolding resolution_method_for_db
index_entry o = record {
  key = o.key;
  source_system = o.source_system;
  cdm_entity_id = o.cdm_entity_id;
  cdm_entity_type = o.cdm_entity_type;
  confidence = o.er_confidence;
  method = resolution_method_for_db o.er_resolution_method;
  provisional = o.er_is_provisional;
}

-- A peer id that is absent or empty is the empty text.
abbrev present : Text → Bool
present [] = false
present (c ∷ s) = true

abbrev pub needs_review : Outcome → Bool
needs_review o =
    o.er_is_provisional
    && (text_eq o.er_resolution_method (codes "review_band") && present o.er_review_peer_cdm_id)

unfoldable pub review : Outcome → Bool → Action Bool
review o false = pure false
review o true =
    queue_for_review o.key.tenant_id o.cdm_entity_type o.cdm_entity_id o.er_review_peer_cdm_id
      o.er_confidence o.breakdown

unfoldable pub persist_entity_resolution_outcome : Outcome → Bool → Action Bool
unfolding review index_entry
persist_entity_resolution_outcome o emit_review_kafka = do
  activate o.key.tenant_id o.er_is_provisional o.cdm_entity_id o.cdm_entity_type (codes "resolve")
  upsert_batch (index_entry o ∷ [])
  inserted ← review o (needs_review o)
  pure (inserted && emit_review_kafka)
