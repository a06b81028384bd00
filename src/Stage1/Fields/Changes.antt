-- ===== src/Stage1/Fields/Changes.antt =====
-- About `_compute_changed_canonical_attributes` of transform/stage1_normalise.py.
use nexus_spark_lib.Base.{
  Text, ◌≡◌, refl, Bool, false, not, ◌||◌, none, List, [], ◌∷◌, ◌++◌, arith, any, count_of,
  if◌then◌else◌, text_eq, text_eq_iff, text_ltb, sort_by, Dict, dict_get, keys, unique,
  count-unique, count-keep, count-sort_by,
}
use nexus_spark_lib.Stage1.Values.{Python, value_eq}
use nexus_spark_lib.Stage1.Fields.{
  NormalisedEntry, entry_value, compute_changed_canonical_attributes,
}

any-append :
    (t : Text) (xs ys : List Text)
    → any (text_eq t) (xs ++ ys) ≡ any (text_eq t) xs || any (text_eq t) ys
unfolding any
any-append t [] ys = refl
any-append t (x ∷ xs) ys = ground (arith, any-append t xs ys)

dict_get-absent :
    (t : Text) (d : Dict NormalisedEntry) → any (text_eq t) (keys d) ≡ false → dict_get t d ≡ none
unfolding any dict_get
dict_get-absent t [] h = refl
dict_get-absent t ((k, e) ∷ d) h =
    ground (arith, text_eq_iff t k, text_eq_iff k t, dict_get-absent t d)

-- Whether a value changed between two images.
abbrev pub differs : Python → Dict NormalisedEntry → Dict NormalisedEntry → Text → Bool
differs py before_fields after_fields t =
    not
      (value_eq py (entry_value (dict_get t before_fields)) (entry_value (dict_get t after_fields)))

-- An attribute is listed as changed once if its values before and after differ, a missing one being
-- None, and not at all otherwise.
pub compute_changed_canonical_attributes_lem :
    (py : Python) (before_fields after_fields : Dict NormalisedEntry) (t : Text)
    → count_of (text_eq t) (compute_changed_canonical_attributes py before_fields after_fields)
      ≡ (if differs py before_fields after_fields t then 1 else 0)
unfolding compute_changed_canonical_attributes
compute_changed_canonical_attributes_lem py b a t = ground (
  arith,
  count-keep t (differs py b a) (sort_by text_ltb (unique (keys b ++ keys a))),
  count-sort_by text_ltb (text_eq t) (unique (keys b ++ keys a)),
  count-unique t (keys b ++ keys a),
  any-append t (keys b) (keys a),
  dict_get-absent t b,
  dict_get-absent t a,
)
