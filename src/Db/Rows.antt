-- ===== src/Db/Rows.antt =====
-- The tables of nexus_system that nexus_spark_lib/db reads and writes, and actions on them. One
-- connection runs its statements in turn; NOW() is the instant of its transaction.
use nexus_spark_lib.Base.{Text, ℕ, Bool, List, Option}
use nexus_spark_lib.Models.ErTypes.{GoldenRecordState}

-- golden_records_index
pub record GoldenRow : Type 0 where
  pub cdm_entity_id : Text
  pub tenant_id : Text
  pub cdm_entity_type : Text
  pub state : GoldenRecordState
  pub successor_id : Option Text
  pub created_at : ℕ
  pub updated_at : ℕ
  pub state_changed_at : ℕ
  pub state_change_reason : Option Text

-- entity_resolution_index. A confidence is a number of ten-thousandths.
pub record ErRow : Type 0 where
  pub cdm_entity_id : Text
  pub tenant_id : Text
  pub connector_id : Text
  pub source_system : Text
  pub entity_type : Text
  pub source_table : Text
  pub source_record_id : Text
  pub cdm_entity_type : Text
  pub confidence : ℕ
  pub resolution_method : Text
  pub resolved_at : ℕ
  pub provisional : Bool

-- golden_record_provenance
pub record GrpRow : Type 0 where
  pub cdm_entity_id : Text
  pub tenant_id : Text
  pub attribute_name : Text
  pub winning_connector_id : Text
  pub winning_source_table : Text
  pub winning_record_id : Text
  pub observed_value_hash : Text
  pub observed_at : Text
  pub rule_applied : Text

-- golden_record_redirects
pub record RedirectRow : Type 0 where
  pub from_cdm_entity_id : Text
  pub to_cdm_entity_id : Text
  pub tenant_id : Text
  pub created_at : ℕ

-- er_review_queue
pub record ReviewRow : Type 0 where
  pub tenant_id : Text
  pub cdm_entity_type : Text
  pub candidate_a_id : Text
  pub candidate_b_id : Text
  pub combined_score : ℕ
  pub signal_breakdown : Text
  pub status : Text
  pub created_at : ℕ

pub record Database : Type 0 where
  pub golden : List GoldenRow
  pub index : List ErRow
  pub provenance : List GrpRow
  pub redirects : List RedirectRow
  pub reviews : List ReviewRow
  pub now : ℕ

-- What an `async def` over a connection does: its result, and the tables afterwards.
abbrev pub Action : Type 0 → Type 0
Action A = Database → A × Database

module _ {A : Type 0} where
  abbrev pub pure : A → Action A
  pure a db = (a, db)

  abbrev pub query : (Database → A) → Action A
  query f db = (f db, db)

module _ {A B : Type 0} where
  infixl 5 ◌>>=◌ ◌>>◌
  abbrev pub ◌>>=◌ : Action A → (A → Action B) → Action B
  m >>= f = λ db. f (m db).0 (m db).1

  abbrev pub ◌>>◌ : Action A → Action B → Action B
  m >> k = λ db. k (m db).1
