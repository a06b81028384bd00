-- ===== src/Broadcast.antt =====
-- nexus_spark_lib/broadcast/manager.py: `BroadcastManager`. An instant is a number of seconds. Each
-- refresh is given what its loader in db/survivorship_rules.py returns, `none` where the loader or
-- the connection raises, and the instant at which it is done. The lock makes the operations a
-- sequence; Spark's broadcasts and the gauges are left out.
pub mod Fresh
mod Examples
use nexus_spark_lib.Base.{
  Text, ℕ, ◌-◌, Bool, true, Option, none, some, List, [], ◌∷◌, ltb, if◌then◌else◌,
}
use nexus_spark_lib.Models.Materialization.{MaterializationRuntimeConfig}
use nexus_spark_lib.Models.Survivorship.{SurvivorshipRuleSet}

pub record Manager : Type 0 where
  pub policy_bc : Option MaterializationRuntimeConfig
  pub survivorship_bc : Option SurvivorshipRuleSet
  pub policy_loaded_at : Option ℕ
  pub survivorship_loaded_at : Option ℕ

-- __init__
abbrev pub new_manager : Manager
new_manager = record {
  policy_bc = none;
  survivorship_bc = none;
  policy_loaded_at = none;
  survivorship_loaded_at = none;
}

-- What an operation leaves: BroadcastRefreshError keeps the state that was reached.
pub data Refresh : Type 0 where
  done : Manager → Refresh
  refresh_error : Manager → Refresh

infixl 5 ◌>>=◌
abbrev pub ◌>>=◌ : Refresh → (Manager → Refresh) → Refresh
done m >>= f = f m
refresh_error m >>= f = refresh_error m

-- A load: its result and the instant at which it is done.
pub record Load (A : Type 0) : Type 0 where
  pub loaded : Option A
  pub at : ℕ

abbrev put_policy : Option MaterializationRuntimeConfig → ℕ → Manager → Refresh
put_policy none at m = refresh_error m
put_policy (some config) at m =
    done (record m { policy_bc = some config; policy_loaded_at = some at })

unfoldable pub refresh_policy : Load MaterializationRuntimeConfig → Manager → Refresh
refresh_policy load m = put_policy load.loaded load.at m

abbrev put_survivorship : Option SurvivorshipRuleSet → ℕ → Manager → Refresh
put_survivorship none at m = refresh_error m
put_survivorship (some rules) at m =
    done (record m { survivorship_bc = some rules; survivorship_loaded_at = some at })

unfoldable pub refresh_survivorship : Load SurvivorshipRuleSet → Manager → Refresh
refresh_survivorship load m = put_survivorship load.loaded load.at m

unfoldable pub initialise :
    Load MaterializationRuntimeConfig → Load SurvivorshipRuleSet → Manager → Refresh
unfolding refresh_policy refresh_survivorship
initialise policy survivorship m = do
  after_policy ← refresh_policy policy m
  refresh_survivorship survivorship after_policy

-- loaded_at is None or (now - loaded_at) > ttl; an instant after `now` is not stale.
abbrev pub is_stale : ℕ → ℕ → Option ℕ → Bool
is_stale now ttl none = true
is_stale now ttl (some loaded_at) = ltb ttl (now - loaded_at)

unfoldable pub refresh_if_stale :
    ℕ → ℕ → ℕ → Load MaterializationRuntimeConfig → Load SurvivorshipRuleSet → Manager → Refresh
unfolding refresh_policy refresh_survivorship
refresh_if_stale now policy_ttl surv_ttl policy survivorship m = do
  after_policy ←
      (if is_stale now policy_ttl m.policy_loaded_at then refresh_policy policy m else done m)
  if is_stale now surv_ttl after_policy.survivorship_loaded_at
      then refresh_survivorship survivorship after_policy
      else done after_policy

unfoldable pub invalidate_policy : Load MaterializationRuntimeConfig → Manager → Refresh
unfolding refresh_policy
invalidate_policy policy m = refresh_policy policy m

-- BroadcastExpiredError is `none`.
abbrev pub get_materialization_policy : Manager → Option MaterializationRuntimeConfig
get_materialization_policy m = m.policy_bc

abbrev pub get_survivorship : Manager → Option SurvivorshipRuleSet
get_survivorship m = m.survivorship_bc
