-- ===== src/Hashing/Order.antt =====
-- About `provenance_hash_from_winning_records` of _internal/hash_utils.py and the order of its items.
use nexus_spark_lib.Base.{
  Text, ◌≡◌, refl, ap, ◌∙◌, ◌⊎◌, inl, inr, Bool, true, false, some, List, [], ◌∷◌, map, arith,
  if◌then◌else◌, text_eq, text_eq_iff, text_ltb, text_ltb_asym, text_ltb_trans, text_ltb_irrefl,
  sort_by, Reordered, sort_by-Reordered, Dict, dict_get, codes,
}
use nexus_spark_lib.Hashing.{
  Digest, Items, item_before, hashed_part, winner_part, join, provenance_hash,
  provenance_hash_from_winning_records,
}

item_before_asym : (a b : Text × Text) → item_before a b ≡ true → item_before b a ≡ false
item_before_asym a b e = ground (
  arith,
  text_ltb_asym a.0 b.0,
  text_ltb_asym b.0 a.0,
  text_ltb_asym a.1 b.1,
  text_eq_iff a.0 b.0,
  text_eq_iff b.0 a.0,
  text_ltb_irrefl a.0,
  text_ltb_irrefl b.0,
)

item_before_trans :
    (a b c : Text × Text) → item_before a b ≡ true → item_before b c ≡ true → item_before a c ≡ true
item_before_trans a b c e f = ground (
  arith,
  text_ltb_trans a.0 b.0 c.0,
  text_ltb_trans a.1 b.1 c.1,
  text_eq_iff a.0 b.0,
  text_eq_iff b.0 c.0,
  text_eq_iff a.0 c.0,
)

-- Items in the order of their keys; items with equal keys are not told apart.
abbrev pub by_key {ℓ} : {V : Type ℓ} → Text × V → Text × V → Bool
by_key a b = text_ltb a.0 b.0

dict_get-exchange :
    (k : Text) (x y : Text × Text) (d : Dict Text)
    → (by_key x y ≡ true) ⊎ (by_key y x ≡ true)
    → dict_get k (x ∷ y ∷ d) ≡ dict_get k (y ∷ x ∷ d)
unfolding dict_get
dict_get-exchange k x y d (inl e) =
    ground (arith, text_eq_iff x.0 k, text_eq_iff y.0 k, text_ltb_irrefl k)
dict_get-exchange k x y d (inr e) =
    ground (arith, text_eq_iff x.0 k, text_eq_iff y.0 k, text_ltb_irrefl k)

dict_get-Reordered :
    (k : Text) {d d' : Dict Text} → Reordered by_key d d' → dict_get k d ≡ dict_get k d'
unfolding dict_get
dict_get-Reordered k (Reordered.same d) = refl
dict_get-Reordered k (Reordered.keep_first (j, v) r) =
    ap (λ o. if text_eq j k then some v else o) (dict_get-Reordered k r)
dict_get-Reordered k (Reordered.exchange x y d e) = dict_get-exchange k x y d e
dict_get-Reordered k (Reordered.then_to r s) = dict_get-Reordered k r ∙ dict_get-Reordered k s

map-winner_part :
    (hashes hashes' : Items) (items : List (Text × Text))
    → ((k : Text) → dict_get k hashes ≡ dict_get k hashes')
    → map (winner_part hashes) items ≡ map (winner_part hashes') items
unfolding winner_part
map-winner_part hashes hashes' [] same = refl
map-winner_part hashes hashes' ((attribute_name, id) ∷ items) same =
    ap (λ o. hashed_part attribute_name id o ∷ map (winner_part hashes) items) (same attribute_name)
    ∙ ap (λ parts. hashed_part attribute_name id (dict_get attribute_name hashes') ∷ parts)
        (map-winner_part hashes hashes' items same)

item_before-by_key : (a b : Text × Text) → by_key a b ≡ true → item_before a b ≡ true
item_before-by_key a b e = ground (arith, e)

-- The same winners and hashes in another order have the same provenance hash.
pub provenance_hash_from_winning_records-Reordered :
    (sha256 : Digest) {winners winners' hashes hashes' : Items}
    → Reordered item_before winners winners'
    → Reordered by_key hashes hashes'
    → provenance_hash_from_winning_records sha256 winners hashes
      ≡ provenance_hash_from_winning_records sha256 winners' hashes'
unfolding provenance_hash_from_winning_records
provenance_hash_from_winning_records-Reordered sha256 {winners} {winners'} {hashes} {hashes'} r s =
    ap (λ items. provenance_hash sha256 (join (codes "|") (map (winner_part hashes) items)))
      (sort_by-Reordered item_before item_before_asym item_before_trans r)
    ∙ ap (λ parts. provenance_hash sha256 (join (codes "|") parts))
        (map-winner_part hashes hashes' (sort_by item_before winners')
          (λ k. dict_get-Reordered k s))
