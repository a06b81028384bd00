-- ===== src/Models/EntityStore/Caching.antt =====
-- About the cache of `EntityStorePresenceReader` in db/entity_store_presence.py.
use nexus_spark_lib.Base.{
  Text, ◌≡◌, refl, ◌∙◌, inl, inr, true, false, Option, none, [], ◌∷◌, arith, if◌then◌else◌,
  text_eq_refl, text_eq_iff, Bool-cases, Option-cases,
}
use nexus_spark_lib.Models.EntityStore.{EntityStorePresence, Cache, key_eq, cached, invalidate, get}

key_eq_refl : (key : Text × Text) → key_eq key key ≡ true
key_eq_refl key = ground (arith, text_eq_refl key.0, text_eq_refl key.1)

key_eq_split : (k key other : Text × Text) → key_eq k key ≡ true → key_eq k other ≡ key_eq key other
key_eq_split k key other e = ground (
  arith,
  text_eq_iff k.0 key.0,
  text_eq_iff k.1 key.1,
  text_eq_iff k.0 other.0,
  text_eq_iff k.1 other.1,
  text_eq_iff key.0 other.0,
  text_eq_iff key.1 other.1,
)

key_eq_join :
    (k key other : Text × Text)
    → key_eq k other ≡ true
    → key_eq key other ≡ true
    → key_eq k key ≡ true
key_eq_join k key other e f = ground (
  arith,
  text_eq_iff k.0 key.0,
  text_eq_iff k.1 key.1,
  text_eq_iff k.0 other.0,
  text_eq_iff k.1 other.1,
  text_eq_iff key.0 other.0,
  text_eq_iff key.1 other.1,
)

cached-invalidate :
    (key other : Text × Text) (cache : Cache)
    → cached other (invalidate key cache) ≡ (if key_eq key other then none else cached other cache)
unfolding cached invalidate
cached-invalidate key other [] = ground arith
cached-invalidate key other ((k, row) ∷ cache) = elim (Bool-cases (key_eq k key)) [
  | inl e ↦
      (let later = cached-invalidate key other cache in
        let same = key_eq_split k key other e in rw e (rw same (ground (arith, later))))
  | inr e ↦
      (let later = cached-invalidate key other cache in
        let joined = key_eq_join k key other in rw e (ground (arith, later, joined, e)))
]

module _ (fetch_one fetch_later : Text × Text → Option EntityStorePresence) (key : Text × Text)
    (cache : Cache) where
  get_fresh : (get fetch_one true key (invalidate key cache)).0 ≡ fetch_one key
  unfolding get
  get_fresh = rw (cached-invalidate key key cache, key_eq_refl key) refl

  get_again :
      (get fetch_later true key (get fetch_one true key cache).1).0
      ≡ (get fetch_one true key cache).0
  unfolding get cached
  get_again = elim (Option-cases (cached key cache)) [
    | inr (row, e) ↦ rw (e, e) refl
    | inl e ↦ rw (e, key_eq_refl key) refl
  ]

  -- After an invalidation of its key a cached read gives what the table holds; a read repeated
  -- through the cache gives the same row, absent or not, whatever the table holds by then; and an
  -- invalidation leaves what is cached for other keys.
  pub get-cached :
      ((get fetch_one true key (invalidate key cache)).0 ≡ fetch_one key)
      × ((get fetch_later true key (get fetch_one true key cache).1).0
          ≡ (get fetch_one true key cache).0)
      × ((other : Text × Text)
          → key_eq key other ≡ false
          → cached other (invalidate key cache) ≡ cached other cache)
  get-cached =
      (get_fresh, get_again, λ other e. cached-invalidate key other cache ∙ ground (arith, e))
