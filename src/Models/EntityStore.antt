-- ===== src/Models/EntityStore.antt =====
-- nexus_spark_lib/models/entity_store_presence.py, and the reader of the table with its cache,
-- nexus_spark_lib/db/entity_store_presence.py. The row that a query finds is a parameter.
pub mod Caching
use nexus_spark_lib.Base.{
  Text, Bool, true, false, ◌||◌, ◌&&◌, Option, none, some, List, [], ◌∷◌, if◌then◌else◌, text_eq,
}

pub data EntityStoreState : Type 0 where
  cold warm hot : EntityStoreState

pub record EntityStorePresence : Type 0 where
  pub tenant_id : Text
  pub cdm_entity_id : Text
  pub es_present : Bool
  pub neo4j_present : Bool
  pub ts_present : Bool

unfoldable pub presence_state : EntityStorePresence → EntityStoreState
presence_state row = if row.es_present || (row.neo4j_present || row.ts_present) then hot else warm

unfoldable pub classify_entity_store_presence : Option EntityStorePresence → EntityStoreState
unfolding presence_state
classify_entity_store_presence none = cold
classify_entity_store_presence (some row) = presence_state row

-- The reader's cache: an absent row is remembered too.
abbrev pub Cache : Type 0
Cache = List ((Text × Text) × Option EntityStorePresence)

abbrev pub key_eq : Text × Text → Text × Text → Bool
key_eq a b = text_eq a.0 b.0 && text_eq a.1 b.1

unfoldable pub cached : Text × Text → Cache → Option (Option EntityStorePresence)
cached key [] = none
cached key ((k, row) ∷ cache) = if key_eq k key then some row else cached key cache

unfoldable pub invalidate : Text × Text → Cache → Cache
invalidate key [] = []
invalidate key ((k, row) ∷ cache) =
    let rest = invalidate key cache in if key_eq k key then rest else (k, row) ∷ rest

module _ (fetch_one : Text × Text → Option EntityStorePresence) where
  abbrev remember :
      Bool
      → Text × Text
      → Option (Option EntityStorePresence)
      → Cache
      → Option EntityStorePresence × Cache
  remember true key (some row) cache = (row, cache)
  remember true key none cache = (fetch_one key, (key, fetch_one key) ∷ cache)
  remember false key found cache = (fetch_one key, cache)

  unfoldable pub get : Bool → Text × Text → Cache → Option EntityStorePresence × Cache
  unfolding cached
  get use_cache key cache = remember use_cache key (cached key cache) cache
