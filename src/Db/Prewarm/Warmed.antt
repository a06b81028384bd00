-- ===== src/Db/Prewarm/Warmed.antt =====
-- About `ERLookupClient.prewarm` of er/lookup_client.py.
use nexus_spark_lib.Base.{
  Text, ℕ, zero, suc, ◌+◌, ◌≤◌, ◌≡◌, refl, ap, ◌∙◌, sym, ◌⊎◌, inl, inr, Bool, true, false, ◌&&◌,
  ◌==◌, Option, none, some, List, [], ◌∷◌, ◌++◌, arith, any, keep, length, if◌then◌else◌, text_eq,
  text_eq_iff, text_eq_refl, non_empty, or_default, or_else, or_else-none, or_else_assoc,
  none-ne-some, Dict, dict_get, dict_set_default, Among,
}
use nexus_spark_lib.Db.Prewarm.{
  CacheRow, same_group, are_distinct, add_item, is_served, clashes, is_ambiguous, items_of, prefix,
  cache_key, first_items, rest_items, set_items, fetch_batches, prewarm,
}

first-rest :
    (n : ℕ) (items : List (Text × Text)) → first_items n items ++ rest_items n items ≡ items
unfolding first_items rest_items
first-rest zero items = refl
first-rest (suc n) [] = refl
first-rest (suc n) (item ∷ items) = ap (λ t. item ∷ t) (first-rest n items)

length-rest :
    (n : ℕ) (items : List (Text × Text))
    → length (first_items n items) + length (rest_items n items) ≡ length items
unfolding first_items rest_items
length-rest zero items = omega arith
length-rest (suc n) [] = omega arith
length-rest (suc n) (item ∷ items) = omega (arith, length-rest n items)

length-first :
    (n : ℕ) (item : Text × Text) (items : List (Text × Text))
    → 1 ≤ length (first_items (suc n) (item ∷ items))
unfolding first_items
length-first n item items = omega arith

text_eq-prefix : (p a b : Text) → text_eq (p ++ a) (p ++ b) ≡ text_eq a b
unfolding text_eq
text_eq-prefix [] a b = refl
text_eq-prefix (c ∷ p) a b = ground (arith, text_eq-prefix p a b)

dict_get-set_default :
    (k j v : Text) (d : Dict Text)
    → dict_get j (dict_set_default k v d)
      ≡ or_else (dict_get j d) (if text_eq k j then some v else none)
unfolding dict_get dict_set_default
dict_get-set_default k j v [] = refl
dict_get-set_default k j v ((i, w) ∷ d) =
    ground (arith, text_eq_iff i k, text_eq_iff i j, text_eq_iff k j, dict_get-set_default k j v d)

module _ (t c : Text) where
  set_items-append :
      (xs ys : List (Text × Text)) (cache : Dict Text)
      → set_items t c (xs ++ ys) cache ≡ set_items t c ys (set_items t c xs cache)
  unfolding set_items
  set_items-append [] ys cache = refl
  set_items-append ((i, e) ∷ xs) ys cache = set_items-append xs ys _

  -- The batches put all items, whatever their size.
  fetch_batches-all :
      (fuel n : ℕ) (items : List (Text × Text)) (count : ℕ) (cache : Dict Text)
      → suc (length items) ≤ fuel
      → fetch_batches t c fuel (suc n) items count cache
        ≡ some (count + length items, set_items t c items cache)
  unfolding fetch_batches
  fetch_batches-all zero n items count cache h = absurd (omega (arith, h))
  fetch_batches-all (suc fuel) n [] count cache h = ap (λ k. some (k, cache)) (omega arith)
  fetch_batches-all (suc fuel) n ((i, e) ∷ items) count cache h =
      let first = first_items n items in
      let rest = rest_items n items in
      let started = dict_set_default (cache_key t c i) e cache in
      fetch_batches-all fuel n rest (count + suc (length first)) (set_items t c first started)
        (omega (arith, h, length-rest n items))
      ∙ ap (λ k. some (k, set_items t c rest (set_items t c first started)))
          (omega (arith, length-rest n items))
      ∙ ap (λ d. some (count + suc (length items), d))
          (sym (set_items-append first rest started)
            ∙ ap (λ xs. set_items t c xs started) (first-rest n items))

  -- A key has its value from before, or else the first one that is put.
  set_items-get :
      (id : Text) (items : Dict Text) (cache : Dict Text)
      → dict_get (cache_key t c id) (set_items t c items cache)
        ≡ or_else (dict_get (cache_key t c id) cache) (dict_get id items)
  unfolding set_items dict_get
  set_items-get id [] cache = sym (or_else-none _)
  set_items-get id ((i, e) ∷ items) cache =
      let before = dict_get (cache_key t c id) cache in
      set_items-get id items _
      ∙ ap (λ o. or_else o (dict_get id items))
          (dict_get-set_default (cache_key t c i) (cache_key t c id) e cache)
      ∙ or_else_assoc before _ (dict_get id items)
      ∙ ap (λ b. or_else before (or_else (if b then some e else none) (dict_get id items)))
          (text_eq-prefix (prefix t c) i id)
      ∙ ap (or_else before) (chosen (text_eq i id))
    where
      chosen :
          (b : Bool)
          → or_else (if b then some e else none) (dict_get id items)
            ≡ (if b then some e else dict_get id items)
      chosen true = refl
      chosen false = refl

any-none :
    {A : Type 0} (p : A → Bool) (x : A) (xs : List A) → any p xs ≡ false → Among x xs → p x ≡ false
unfolding any
any-none p x [] h m = absurd m
any-none p x (y ∷ xs) h (inl e) = rw e (ground (arith, h))
any-none p x (y ∷ xs) h (inr m) = any-none p x xs (ground (arith, h)) m

add_item-get :
    (i e : Text) (id entity : Option Text) (items : Dict Text)
    → same_group (some i) id && are_distinct (some e) entity ≡ false
    → ((id ≡ some i) × (entity ≡ some e)) ⊎ (dict_get i items ≡ some e)
    → dict_get i (add_item id entity items) ≡ some e
unfolding dict_get
add_item-get i e none entity items h (inl (p, q)) = absurd (none-ne-some p)
add_item-get i e none entity items h (inr r) = r
add_item-get i e (some j) none items h (inl (p, q)) = absurd (none-ne-some q)
add_item-get i e (some j) none items h (inr r) = r
add_item-get i e (some j) (some f) items h (inl (p, q)) =
    rw (ap (λ o. or_default o i) p, ap (λ o. or_default o e) q) (rw (text_eq_refl i) refl)
add_item-get i e (some j) (some f) items h (inr r) =
    ground (arith, h, r, text_eq_iff j i, text_eq_iff i j, text_eq_iff e f)

items_of-get :
    (i e : Text) (row : CacheRow) (rows : List CacheRow)
    → row.source_record_id ≡ some i
    → row.cdm_entity_id ≡ some e
    → any (clashes row) rows ≡ false
    → Among row rows
    → dict_get i (items_of rows) ≡ some e
unfolding items_of any
items_of-get i e row [] p q h m = absurd m
items_of-get i e row (r ∷ rows) p q h m =
    add_item-get i e r.source_record_id r.cdm_entity_id (items_of rows) apart (elim m [
      | inl s ↦ inl (
        ap (λ x. CacheRow.source_record_id x) (sym s) ∙ p,
        ap (λ x. CacheRow.cdm_entity_id x) (sym s) ∙ q,
      )
      | inr k ↦ inr (items_of-get i e row rows p q (ground (arith, h)) k)
    ])
  where
    apart : same_group (some i) r.source_record_id && are_distinct (some e) r.cdm_entity_id ≡ false
    apart = rw (p, q) at (any-none (clashes row) r (r ∷ rows) h (inl refl))

module _ (t c : Text) (n : ℕ) (rows : List CacheRow) (cache : Dict Text) where
  abbrev pub served : List CacheRow
  served = keep (is_served t c) rows

  -- The cache leads from the id of every row to what it had for it before, or to the row's entity.
  abbrev pub IsWarmed : Dict Text → Type 0
  IsWarmed after =
      (row : CacheRow) (i e : Text)
      → Among row served
      → row.source_record_id ≡ some i
      → row.cdm_entity_id ≡ some e
      → dict_get (cache_key t c i) after ≡ some (or_default (dict_get (cache_key t c i) cache) e)

  set_items-IsWarmed :
      is_ambiguous served ≡ false → IsWarmed (set_items t c (items_of served) cache)
  unfolding is_ambiguous
  set_items-IsWarmed h row i e m p q =
      set_items-get t c i (items_of served) cache
      ∙ ap (or_else (dict_get (cache_key t c i) cache)) (
          items_of-get i e row served p q (any-none (λ a. any (clashes a) served) row served h m) m)
      ∙ or_value (dict_get (cache_key t c i) cache)
    where
      or_value : (o : Option Text) → or_else o (some e) ≡ some (or_default o e)
      or_value none = refl
      or_value (some v) = refl

  not_zero : (suc n == 0) ≡ false
  not_zero = ground arith

  -- For a tenant, a connector and a batch size that are not empty and not zero, and active rows of
  -- the connector that never give one source id two entities: the loop over the batches ends, and
  -- its count is the number of these rows that have both ids, whatever the batch size. Afterwards
  -- the cache leads from the source id of each of them to what it held for it before, if it held
  -- anything, and to the row's entity otherwise.
  pub prewarm-IsWarmed :
      non_empty t ≡ true
      → non_empty c ≡ true
      → is_ambiguous served ≡ false
      → (after : Dict Text) × (prewarm t c (suc n) rows cache
          ≡ some (length (items_of served), after))
        × IsWarmed after
  unfolding prewarm
  prewarm-IsWarmed ht hc h = (
    set_items t c (items_of served) cache,
    rw (ht, hc, not_zero, h)
        (fetch_batches-all t c (suc (length (items_of served))) n (items_of served) 0 cache
            (omega arith)
          ∙ ap (λ k. some (k, set_items t c (items_of served) cache)) (omega arith)),
    set_items-IsWarmed h,
  )
