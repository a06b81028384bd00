-- ===== src/Stage2/Resolve.antt =====
-- nexus_spark_lib/transform/stage2_resolve/resolve_record.py: one record through the fast path and
-- signals A and B, and then the materialization gate. Signal C is called with three of its seven
-- arguments, so that with a graph driver the review band raises TypeError.
pub mod Bands
use nexus_spark_lib.Base.{
  Text, ℕ, ◌+◌, Bool, true, false, ◌&&◌, Option, none, some, List, [], ◌∷◌, codes, if◌then◌else◌,
  leb, ◌==◌, Dict, or_default,
}
use nexus_spark_lib.Stage3.Context.{Field}
use nexus_spark_lib.Hashing.{Digest}
use nexus_spark_lib.Stage2.Signals.{
  ErIndex, Thresholds, known_id, run_signal_a, run_signal_b, Verdict, auto_apply, review, no_match,
  auto_threshold, classify_signal_b,
}
use nexus_spark_lib.Stage2.Gate.{GateOutcome}

pub data ResolutionAction : Type 0 where
  action_auto_apply action_review action_new_entity action_unresolved : ResolutionAction

pub record Resolved : Type 0 where
  pub cdm_entity_id : Option Text
  pub resolution_method : Option Text
  pub confidence : ℕ
  pub action : ResolutionAction
  pub signal_b_score : Option ℕ

pub record ResolveOutcome : Type 0 where
  pub resolved : Resolved
  pub materialization : Option GateOutcome

abbrev pub exact : Text → Text → Resolved
exact method id = record {
  cdm_entity_id = some id;
  resolution_method = some method;
  confidence = 10000;
  action = action_auto_apply;
  signal_b_score = none;
}

abbrev pub fresh : ℕ → Resolved
fresh score = record {
  cdm_entity_id = none;
  resolution_method = none;
  confidence = 0;
  action = action_new_entity;
  signal_b_score = some score;
}

-- What a call gives: its value, or the TypeError that it raises.
pub data Attempt (A : Type 0) : Type 0 where
  returned : A → Attempt A
  type_error : Attempt A

infixl 5 ◌>>=◌
abbrev pub ◌>>=◌ : {A B : Type 0} → Attempt A → (A → Attempt B) → Attempt B
returned a >>= f = f a
type_error >>= f = type_error

-- run_signal_c(neo4j_driver, candidate, tenant_id) if neo4j_driver else 0.0
abbrev pub lift_in_review : Bool → Attempt ℕ
lift_in_review true = type_error
lift_in_review false = returned 0

-- The review band with this lift.
abbrev pub lifted : ℕ → Text → ℕ → ℕ → Resolved
lifted score candidate auto lift =
    if leb auto (score + lift)
    then record {
      cdm_entity_id = some candidate;
      resolution_method = some (if lift == 0 then codes "signal_b" else codes "signal_c");
      confidence = score + lift;
      action = action_auto_apply;
      signal_b_score = some score;
    }
    else record {
      cdm_entity_id = some candidate;
      resolution_method = some (codes "signal_b");
      confidence = score;
      action = action_review;
      signal_b_score = some score;
    }

unfoldable pub in_review : ℕ → Text → Bool → ℕ → Attempt Resolved
in_review score candidate has_driver auto =
    lift_in_review has_driver >>= λ lift. returned (lifted score candidate auto lift)

unfoldable pub by_verdict : Verdict → ℕ → Option Text → Bool → ℕ → Attempt Resolved
unfolding in_review
by_verdict auto_apply score (some (c ∷ candidate)) has_driver auto = returned record {
  cdm_entity_id = some (c ∷ candidate);
  resolution_method = some (codes "signal_b");
  confidence = score;
  action = action_auto_apply;
  signal_b_score = some score;
}
by_verdict review score (some (c ∷ candidate)) has_driver auto =
    in_review score (c ∷ candidate) has_driver auto
by_verdict verdict score candidate has_driver auto = returned (fresh score)

module _ (sha256 : Digest) (er_index : ErIndex) (tenant_id cdm_entity_type : Text)
    (fields : Dict Field) (score_pair : Text → ℕ) (candidates : List Text) (has_driver : Bool) where
  abbrev pub cfg : Thresholds
  cfg = er_index.thresholds tenant_id cdm_entity_type

  unfoldable pub by_score : ℕ × Option Text → Attempt Resolved
  unfolding by_verdict classify_signal_b
  by_score (score, candidate) =
      by_verdict (classify_signal_b score candidate cfg) score candidate has_driver
        (auto_threshold cfg)

  abbrev after_signal_a : Option Text → Attempt Resolved
  after_signal_a none = by_score (run_signal_b score_pair candidates)
  after_signal_a (some id) = returned (exact (codes "signal_a") id)

  abbrev after_fast_path : Option Text → Attempt Resolved
  after_fast_path none =
      after_signal_a (known_id (run_signal_a sha256 er_index tenant_id cdm_entity_type fields))
  after_fast_path (some id) = returned (exact (codes "fast_path") id)

  -- The result of the fast path's lookup, and the signals if it found no id.
  unfoldable pub resolve_signals : Option Text → Attempt Resolved
  unfolding by_score run_signal_a run_signal_b
  resolve_signals fast_path_id = after_fast_path (known_id fast_path_id)

  abbrev gated : (Text → GateOutcome) → Option Text → Bool → Option GateOutcome
  gated gate (some id) true = some (gate id)
  gated gate id apply = none

  unfoldable pub resolve_record : Option Text → Bool → (Text → GateOutcome) → Attempt ResolveOutcome
  unfolding resolve_signals
  resolve_record fast_path_id apply_gate gate = resolve_signals fast_path_id >>= λ r.
      returned record { resolved = r; materialization = gated gate r.cdm_entity_id apply_gate }
