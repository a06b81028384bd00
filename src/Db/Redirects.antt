-- ===== src/Db/Redirects.antt =====
-- nexus_spark_lib/db/redirects.py: golden_record_redirects and er_review_queue.
pub mod Targets
use nexus_spark_lib.Base.{
  Text, ℕ, suc, Bool, true, false, ◌&&◌, Option, none, some, List, [], ◌∷◌, ◌++◌, codes, any,
  text_eq, select, upsert, length, or_default, if◌then◌else◌,
}
use nexus_spark_lib.Db.Rows.{RedirectRow, ReviewRow, Database, Action, query}
use nexus_spark_lib.Db.Chain.{chase}

abbrev pub is_redirect_from : Text → RedirectRow → Bool
is_redirect_from cdm_entity_id row = text_eq row.from_cdm_entity_id cdm_entity_id

abbrev pub redirect_row : Text → Text → Text → ℕ → RedirectRow
redirect_row loser_id survivor_id tenant_id now = record {
  from_cdm_entity_id = loser_id;
  to_cdm_entity_id = survivor_id;
  tenant_id = tenant_id;
  created_at = now;
}

abbrev pub redirect_conflict : Text → ℕ → RedirectRow → RedirectRow
redirect_conflict survivor_id now row = record row {
  to_cdm_entity_id = survivor_id;
  created_at = now;
}

abbrev pub pending_pair : Text → Text → Text → Text → ℕ → Text → ℕ → ReviewRow
pending_pair tenant_id cdm_entity_type candidate_a_id candidate_b_id score breakdown now = record {
  tenant_id = tenant_id;
  cdm_entity_type = cdm_entity_type;
  candidate_a_id = candidate_a_id;
  candidate_b_id = candidate_b_id;
  combined_score = score;
  signal_breakdown = breakdown;
  status = codes "pending";
  created_at = now;
}

unfoldable pub insert_redirect : Text → Text → Text → Action (Unit {0})
insert_redirect loser_id survivor_id tenant_id db = (
  tt,
  record db {
    redirects =
        upsert (is_redirect_from loser_id) (redirect_conflict survivor_id db.now)
          (redirect_row loser_id survivor_id tenant_id db.now) db.redirects;
  },
)

abbrev pub row_target : Option RedirectRow → Option Text
row_target none = none
row_target (some row) = some row.to_cdm_entity_id

unfoldable pub redirect_of : List RedirectRow → Text → Option Text
redirect_of redirects current = row_target (select (is_redirect_from current) redirects)

unfoldable pub resolve_redirect : Text → Action Text
resolve_redirect cdm_entity_id = query λ db.
    or_default (chase (redirect_of db.redirects) (suc (length db.redirects)) [] cdm_entity_id)
      cdm_entity_id

abbrev pub is_pair : Text → Text → Text → Text → ReviewRow → Bool
is_pair tenant_id cdm_entity_type candidate_a_id candidate_b_id row =
    (text_eq row.tenant_id tenant_id && text_eq row.cdm_entity_type cdm_entity_type)
    && (text_eq row.candidate_a_id candidate_a_id && text_eq row.candidate_b_id candidate_b_id)

-- ON CONFLICT DO NOTHING RETURNING pair_id: a row comes back only for a new pair.
unfoldable pub queue_for_review : Text → Text → Text → Text → ℕ → Text → Action Bool
queue_for_review tenant_id cdm_entity_type candidate_a_id candidate_b_id score breakdown db =
    if any (is_pair tenant_id cdm_entity_type candidate_a_id candidate_b_id) db.reviews
    then (false, db)
    else (
      true,
      record db {
        reviews =
            db.reviews
            ++ pending_pair tenant_id cdm_entity_type candidate_a_id candidate_b_id score breakdown
                db.now
              ∷ [];
      },
    )
