-- ===== src/Stage1/Values.antt =====
-- The value helpers of transform/stage1_normalise.py: null-like values, Odoo relations, timestamps
-- and coercion. What Python makes of numbers, dates and JSON is the interface `Python`.
use nexus_spark_lib.Base.{
  Text, ℕ, Bool, true, false, ◌&&◌, ◌||◌, Option, none, some, List, [], ◌∷◌, codes, if◌then◌else◌,
  text_eq, strip, lower, starts_with, ends_with, in_texts, after_last,
}
use nexus_spark_lib.Stage3.Context.{Scalar, text, number, flag, str}

-- A datetime: without a time zone, read as UTC, or with one; its instant in seconds.
pub data Datetime : Type 0 where
  naive aware : ℕ → Datetime

-- The standard library's part: float(Decimal(s)), int(v), a == b on the texts of two numbers,
-- strptime, isoformat in UTC, and json.loads or else ast.literal_eval on the text of a list. `none`
-- is the exception.
pub record Python : Type 0 where
  pub float_of : Text → Option Text
  pub int_of : Scalar → Option Text
  pub number_eq : Text → Text → Bool
  pub strptime : Text → Text → Option Datetime
  pub isoformat : ℕ → Text
  pub parse_list : Text → Option (List (Option Scalar))

abbrev pub null_like : List Text
null_like =
    codes ""
    ∷ codes "null"
    ∷ codes "none"
    ∷ codes "n/a"
    ∷ codes "na"
    ∷ codes "nan"
    ∷ codes "-"
    ∷ codes "[]"
    ∷ []

unfoldable pub strip_null_like : Option Scalar → Option Scalar
unfolding strip lower in_texts
strip_null_like none = none
strip_null_like (some (text t)) =
    if in_texts (lower (strip t)) null_like then none else some (text (strip t))
strip_null_like (some (number n)) = some (number n)
strip_null_like (some (flag b)) = some (flag b)

-- parsed[0] if parsed else None
abbrev first_item : List (Option Scalar) → Option Scalar
first_item [] = none
first_item (item ∷ items) = item

-- Python's `==` on values; True is 1 and False is 0.
abbrev as_number : Bool → Text
as_number true = codes "1"
as_number false = codes "0"

-- `_blocking_attribute_basename`
unfoldable pub basename : Text → Text
unfolding after_last strip lower
basename attribute_name = lower (strip (after_last b'.' attribute_name))

abbrev pub timestamp_formats : List Text
timestamp_formats =
    codes "%Y-%m-%dT%H:%M:%S%z"
    ∷ codes "%Y-%m-%dT%H:%M:%S"
    ∷ codes "%Y-%m-%d %H:%M:%S"
    ∷ codes "%Y-%m-%d"
    ∷ []

module _ (py : Python) where
  abbrev scalar_eq : Scalar → Scalar → Bool
  scalar_eq (text s) (text t) = text_eq s t
  scalar_eq (text s) b = false
  scalar_eq (number m) (text t) = false
  scalar_eq (number m) (number n) = py.number_eq m n
  scalar_eq (number m) (flag b) = py.number_eq m (as_number b)
  scalar_eq (flag a) (text t) = false
  scalar_eq (flag a) (number n) = py.number_eq (as_number a) n
  scalar_eq (flag a) (flag b) = text_eq (as_number a) (as_number b)

  abbrev pub value_eq : Option Scalar → Option Scalar → Bool
  value_eq none none = true
  value_eq none (some b) = false
  value_eq (some a) none = false
  value_eq (some a) (some b) = scalar_eq a b

  abbrev relation_of_list : Text → Option (List (Option Scalar)) → Option Scalar
  relation_of_list original none = some (text original)
  relation_of_list original (some items) = first_item items

  unfoldable pub odoo_relation_id : Option Scalar → Option Scalar
  unfolding strip starts_with ends_with
  odoo_relation_id (some (text t)) =
      let stripped = strip t in
      if text_eq stripped (codes "[]")
      then none
      else if starts_with (codes "[") stripped && ends_with (codes "]") stripped
      then relation_of_list t (py.parse_list stripped)
      else some (text t)
  odoo_relation_id value = value

  -- raw_value in (0, 0.0)
  abbrev is_zero : Option Scalar → Bool
  is_zero none = false
  is_zero (some value) = scalar_eq value (number (codes "0"))

  -- str(raw_value).strip() == "0.0"
  abbrev reads_zero : Option Scalar → Bool
  reads_zero none = false
  reads_zero (some value) = text_eq (strip (str value)) (codes "0.0")

  unfoldable pub normalise_mapped_source_value : Text → Text → Option Scalar → Option Scalar
  unfolding odoo_relation_id basename in_texts strip lower
  normalise_mapped_source_value attribute_kind cdm_attribute raw_value =
      if in_texts (lower (strip attribute_kind))
        (codes "foreign_key" ∷ codes "edge_key" ∷ codes "many2one" ∷ [])
      then odoo_relation_id raw_value
      else if in_texts (basename cdm_attribute)
            (codes "description" ∷ codes "product_description" ∷ [])
          && (is_zero raw_value || reads_zero raw_value)
      then none
      else raw_value

  -- The loop over the formats: the first that fits.
  unfoldable pub parse_timestamp : Text → List Text → Option Datetime
  parse_timestamp s [] = none
  parse_timestamp s (format ∷ formats) =
      let rest = parse_timestamp s formats in
      elim (py.strptime s format) [ some dt ↦ some dt | none ↦ rest ]

  -- A naive datetime gets the zone UTC, an aware one is moved to it.
  abbrev in_utc : Scalar → Option Datetime → Scalar
  in_utc raw_value none = raw_value
  in_utc raw_value (some (naive instant)) = text (py.isoformat instant)
  in_utc raw_value (some (aware instant)) = text (py.isoformat instant)

  unfoldable pub canonicalise_timestamp : Scalar → Scalar
  unfolding parse_timestamp strip
  canonicalise_timestamp raw_value =
      in_utc raw_value (parse_timestamp (strip (str raw_value)) timestamp_formats)

  abbrev or_raw : Scalar → Option Text → Scalar
  or_raw raw_value none = raw_value
  or_raw raw_value (some n) = number n

  abbrev as_boolean : Scalar → Scalar
  as_boolean (flag b) = flag b
  as_boolean value = flag (
      in_texts (lower (strip (str value)))
        (codes "true" ∷ codes "1" ∷ codes "yes" ∷ codes "y" ∷ codes "t" ∷ []))

  -- The part of `coerce_value` after the first test for None; the type is in lower case.
  unfoldable pub coerce_scalar : Text → Scalar → Option Scalar
  unfolding canonicalise_timestamp strip_null_like in_texts strip lower
  coerce_scalar cdm_type raw_value =
      if in_texts cdm_type (codes "date" ∷ codes "datetime" ∷ codes "timestamp" ∷ [])
      then some (canonicalise_timestamp raw_value)
      else if text_eq cdm_type (codes "boolean")
      then some (as_boolean raw_value)
      else if in_texts cdm_type (codes "decimal" ∷ codes "float" ∷ codes "number" ∷ [])
      then some (or_raw raw_value (py.float_of (str raw_value)))
      else if text_eq cdm_type (codes "integer")
      then some (or_raw raw_value (py.int_of raw_value))
      else strip_null_like (some raw_value)

  abbrev coerce_present : Text → Option Scalar → Option Scalar
  coerce_present cdm_type none = none
  coerce_present cdm_type (some value) = coerce_scalar cdm_type value

  unfoldable pub coerce_value : Text → Option Scalar → Option Scalar
  unfolding coerce_scalar strip_null_like lower
  coerce_value declared_type raw_value =
      coerce_present (lower declared_type) (strip_null_like raw_value)
