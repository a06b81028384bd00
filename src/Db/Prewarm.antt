-- ===== src/Db/Prewarm.antt =====
-- nexus_spark_lib/er/lookup_client.py: `ERLookupClient.prewarm`, which copies index rows to Redis. The
-- cache is the dictionary of its keys; their expiry is left out. The index is the list of the columns
-- that the queries read; `none` is NULL. A ValueError is `none`, and nothing is written before it.
pub mod Warmed
use nexus_spark_lib.Base.{
  Text, ℕ, zero, suc, ◌+◌, Bool, true, false, not, ◌&&◌, ◌||◌, Option, none, some, List, [], ◌∷◌,
  ◌++◌, codes, any, keep, length, if◌then◌else◌, text_eq, non_empty, or_default, Dict,
  dict_set_default, ◌==◌,
}

pub record CacheRow : Type 0 where
  pub tenant_id : Text
  pub connector_id : Text
  pub source_record_id : Option Text
  pub cdm_entity_id : Option Text
  pub is_active : Option Bool

-- WHERE tenant_id = … AND connector_id::text = … AND COALESCE(is_active, true)
abbrev pub is_served : Text → Text → CacheRow → Bool
is_served tenant_id connector_id row =
    text_eq row.tenant_id tenant_id
    && (text_eq row.connector_id connector_id && or_default row.is_active true)

-- GROUP BY takes NULLs for one group; count(DISTINCT …) does not count them.
abbrev pub same_group : Option Text → Option Text → Bool
same_group none none = true
same_group (some a) (some b) = text_eq a b
same_group _ _ = false

abbrev pub are_distinct : Option Text → Option Text → Bool
are_distinct (some a) (some b) = not (text_eq a b)
are_distinct _ _ = false

abbrev pub clashes : CacheRow → CacheRow → Bool
clashes a b =
    same_group a.source_record_id b.source_record_id && are_distinct a.cdm_entity_id b.cdm_entity_id

unfoldable pub is_ambiguous : List CacheRow → Bool
unfolding any
is_ambiguous rows = any (λ a. any (clashes a) rows) rows

-- The pairs of the second query.
abbrev pub add_item : Option Text → Option Text → List (Text × Text) → List (Text × Text)
add_item (some source_record_id) (some entity_id) items = (source_record_id, entity_id) ∷ items
add_item _ _ items = items

unfoldable pub items_of : List CacheRow → List (Text × Text)
items_of [] = []
items_of (row ∷ rows) = add_item row.source_record_id row.cdm_entity_id (items_of rows)

abbrev pub prefix : Text → Text → Text
prefix tenant_id connector_id =
    codes "er:" ++ (tenant_id ++ (codes ":" ++ (connector_id ++ codes ":")))

abbrev pub cache_key : Text → Text → Text → Text
cache_key tenant_id connector_id source_record_id =
    prefix tenant_id connector_id ++ source_record_id

-- fetchmany: the first n items, and those that are left.
unfoldable pub first_items : ℕ → List (Text × Text) → List (Text × Text)
first_items zero items = []
first_items (suc n) [] = []
first_items (suc n) (item ∷ items) = item ∷ first_items n items

unfoldable pub rest_items : ℕ → List (Text × Text) → List (Text × Text)
rest_items zero items = items
rest_items (suc n) [] = []
rest_items (suc n) (item ∷ items) = rest_items n items

module _ (tenant_id connector_id : Text) where
  -- pipeline.set(…, nx=True) for each item
  unfoldable pub set_items : List (Text × Text) → Dict Text → Dict Text
  unfolding dict_set_default
  set_items [] cache = cache
  set_items ((source_record_id, entity_id) ∷ items) cache =
      set_items items
        (dict_set_default (cache_key tenant_id connector_id source_record_id) entity_id cache)

  -- The loop over the batches, on fuel.
  unfoldable pub fetch_batches : ℕ → ℕ → List (Text × Text) → ℕ → Dict Text → Option (ℕ × Dict Text)
  unfolding set_items first_items rest_items
  fetch_batches zero batch_size items count cache = none
  fetch_batches (suc fuel) batch_size [] count cache = some (count, cache)
  fetch_batches (suc fuel) batch_size (item ∷ items) count cache =
      let batch = first_items batch_size (item ∷ items) in
      fetch_batches fuel batch_size (rest_items batch_size (item ∷ items)) (count + length batch)
        (set_items batch cache)

  -- The fuel: one round for each item, and one more.
  unfoldable pub prewarm : ℕ → List CacheRow → Dict Text → Option (ℕ × Dict Text)
  unfolding is_ambiguous items_of fetch_batches
  prewarm batch_size rows cache =
      let served = keep (is_served tenant_id connector_id) rows in
      let items = items_of served in
      if not (non_empty tenant_id) || (not (non_empty connector_id) || batch_size == 0)
      then none
      else if is_ambiguous served
      then none
      else fetch_batches (suc (length items)) batch_size items 0 cache
