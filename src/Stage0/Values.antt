-- ===== src/Stage0/Values.antt =====
-- About the values that the policy reads in transform/stage0_materialization.py.
use nexus_spark_lib.Base.{
  any, upper, lower, strip, in_texts, subst, or_default, or_text, All, ◌++◌, ◌⊎◌, false, ◌∙◌, ap,
  sym, inr, none-ne-some, inl, Text, ◌≡◌, refl, true, Option, none, some, List, [], ◌∷◌, codes,
  arith, if◌then◌else◌, text_eq, text_eq_iff, Dict, dict_get, Bool-cases, ◌&&◌, not,
}
use nexus_spark_lib.Stage3.Context.{Scalar, text, str}
use nexus_spark_lib.Stage1.Fields.{Item}
use nexus_spark_lib.Stage1.Rows.{RawRecord}
use nexus_spark_lib.Stage0.{
  gate_null_like, with_default, is_null_like, present_values, raw_payload, field_values,
}

-- The first value of a key in a payload that is neither missing nor null-like.
abbrev value_in : Text → List Item → Option Scalar
value_in k [] = none
value_in k ((j, none) ∷ items) = value_in k items
value_in k ((j, some v) ∷ items) =
    if text_eq j k && not (is_null_like v) then some v else value_in k items

dict_get-present_values :
    (k : Text) (items : List Item) → dict_get k (present_values items) ≡ value_in k items
unfolding present_values dict_get
dict_get-present_values k [] = refl
dict_get-present_values k ((j, none) ∷ items) = dict_get-present_values k items
dict_get-present_values k ((j, some v) ∷ items) = ground (arith, dict_get-present_values k items)

-- `source_ts` stands in only where the record has no such field.
abbrev or_source_ts : Text → Option Text → Option Scalar → Option Scalar
or_source_ts k ts (some v) = some v
or_source_ts k none none = none
or_source_ts k (some ts) none = if text_eq (codes "source_ts") k then some (text ts) else none

abbrev ts_key : Text
ts_key = codes "source_ts"

same_lookup :
    (k : Text) (d : Dict Scalar) → text_eq ts_key k ≡ true → dict_get ts_key d ≡ dict_get k d
same_lookup k d h = ap (λ t. dict_get t d) ((text_eq_iff ts_key k).0 h)

-- What is found for a key, given what is found for it and for "source_ts" without the default.
get-with_default :
    (k : Text) (d : Dict Scalar) (ts : Option Text) (at_ts at_k : Option Scalar)
    → dict_get ts_key d ≡ at_ts
    → dict_get k d ≡ at_k
    → dict_get k (with_default ts at_ts d) ≡ or_source_ts k ts at_k
unfolding dict_get
get-with_default k d none at_ts none e f = f
get-with_default k d none at_ts (some v) e f = f
get-with_default k d (some ts) none none e f = ground (arith, text_eq_iff ts_key k)
get-with_default k d (some ts) none (some w) e f = elim (Bool-cases (text_eq ts_key k)) [
  | inl h ↦ absurd (none-ne-some (sym e ∙ same_lookup k d h ∙ f))
  | inr h ↦ rw h f
]
get-with_default k d (some ts) (some v) none e f = elim (Bool-cases (text_eq ts_key k)) [
  | inl h ↦ absurd (none-ne-some (sym f ∙ sym (same_lookup k d h) ∙ e))
  | inr h ↦ rw h f
]
get-with_default k d (some ts) (some v) (some w) e f = f

-- The texts that stand for no value, in any case of letters and between any spaces.
abbrev pub NullText : Text → Type 0
NullText t =
    (t ≡ codes "") ⊎ (t ≡ codes "null") ⊎ (t ≡ codes "none") ⊎ (t ≡ codes "n/a") ⊎ (t ≡ codes "na")

abbrev pub NullLike : Scalar → Type 0
NullLike v = NullText (lower (strip (str v)))

texts_true : (t : Text) → in_texts t gate_null_like ≡ true → NullText t
unfolding in_texts any
texts_true t e = ground (
  arith,
  text_eq_iff t (codes ""),
  text_eq_iff t (codes "null"),
  text_eq_iff t (codes "none"),
  text_eq_iff t (codes "n/a"),
  text_eq_iff t (codes "na"),
)

texts_false : (t : Text) → in_texts t gate_null_like ≡ false → ¬ NullText t
unfolding in_texts any
texts_false t e n = ground (
  arith,
  text_eq_iff t (codes ""),
  text_eq_iff t (codes "null"),
  text_eq_iff t (codes "none"),
  text_eq_iff t (codes "n/a"),
  text_eq_iff t (codes "na"),
)

-- A column that gives the key no value.
abbrev pub IsDropped : Text → Item → Type 0
IsDropped k (j, none) = Unit
IsDropped k (j, some v) = j ≡ k → NullLike v

-- What an image holds of a key: a value that is not null-like, after columns that give none, or
-- nothing.
abbrev pub IsHeld : Text → List Item → Option Scalar → Type 0
IsHeld k image none = All (IsDropped k) image
IsHeld k image (some v) =
    (before : List Item) × (rest : List Item) × (image ≡ before ++ ((k, some v) ∷ rest))
    × All (IsDropped k) before
    × ¬ NullLike v

IsHeld-skip :
    (k : Text) (i : Item) (items : List Item) (o : Option Scalar)
    → IsDropped k i
    → IsHeld k items o
    → IsHeld k (i ∷ items) o
IsHeld-skip k i items none d h = (d, h)
IsHeld-skip k i items (some v) d (before, rest, e, dropped, valid) =
    (i ∷ before, rest, ap (λ xs. i ∷ xs) e, (d, dropped), valid)

IsHeld-value :
    (k j : Text) (v : Scalar) (items : List Item)
    → IsHeld k items (value_in k items)
    → IsHeld k
        ((j, some v) ∷ items)
        (if text_eq j k && not (is_null_like v) then some v else value_in k items)
unfolding is_null_like
IsHeld-value k j v items h = elim (Bool-cases (text_eq j k)) [
  | inr e ↦ rw e (
      IsHeld-skip k (j, some v) items (value_in k items)
        (λ p. absurd (ground (arith, e, text_eq_iff j k))) h)
  | inl e ↦ (elim (Bool-cases (in_texts (lower (strip (str v))) gate_null_like)) [
    | inl n ↦
        rw (e, n)
          (IsHeld-skip k (j, some v) items (value_in k items)
            (λ p. texts_true (lower (strip (str v))) n) h)
    | inr n ↦
        rw (e, n)
          (
            [],
            items,
            ap (λ t. (t, some v) ∷ items) ((text_eq_iff j k).0 e),
            tt,
            texts_false (lower (strip (str v))) n,
          )
  ])
]

value_in-IsHeld : (k : Text) (items : List Item) → IsHeld k items (value_in k items)
value_in-IsHeld k [] = tt
value_in-IsHeld k ((j, none) ∷ items) =
    IsHeld-skip k (j, none) items (value_in k items) tt (value_in-IsHeld k items)
value_in-IsHeld k ((j, some v) ∷ items) = IsHeld-value k j v items (value_in-IsHeld k items)

-- The image that an operation is judged by: that before a deletion, that after any other.
abbrev pub IsJudged : RawRecord → List Item → Type 0
IsJudged r image =
    ((upper r.source_op ≡ codes "DELETE") × (image ≡ or_default r.before_payload []))
    ⊎ (¬ (upper r.source_op ≡ codes "DELETE") × (image ≡ or_default r.after_payload []))

-- What the policy reads of a field: the value that the image holds, or the record's time for
-- source_ts, or nothing.
abbrev pub IsRead : Text → List Item → Option Text → Option Scalar → Type 0
IsRead k image ts none = IsHeld k image none × ((ts ≡ none) ⊎ ¬ (k ≡ codes "source_ts"))
IsRead k image ts (some v) =
    IsHeld k image (some v)
    ⊎ (IsHeld k image none × (k ≡ codes "source_ts") × ((t : Text) × (ts ≡ some t) × (v ≡ text t)))

IsRead-or_source_ts :
    (k : Text) (image : List Item) (ts : Option Text) (o : Option Scalar)
    → IsHeld k image o
    → IsRead k image ts (or_source_ts k ts o)
IsRead-or_source_ts k image ts (some v) h = inl h
IsRead-or_source_ts k image none none h = (h, inl refl)
IsRead-or_source_ts k image (some t) none h = elim (Bool-cases (text_eq ts_key k)) [
  | inl e ↦ rw e (inr (h, sym ((text_eq_iff ts_key k).0 e), (t, refl, refl)))
  | inr e ↦ rw e (h, inr (λ p. ground (arith, e, p, text_eq_iff ts_key k)))
]

-- A missing operation is an INSERT, so it is no deletion.
delete_test :
    (op : Text)
    → ((upper op ≡ codes "DELETE")
        × (text_eq (upper (or_text op (codes "INSERT"))) (codes "DELETE") ≡ true))
      ⊎ (¬ (upper op ≡ codes "DELETE")
          × (text_eq (upper (or_text op (codes "INSERT"))) (codes "DELETE") ≡ false))
unfolding upper text_eq
delete_test [] = inr (λ e. cc, refl)
delete_test (c ∷ op) = elim (Bool-cases (text_eq (upper (c ∷ op)) (codes "DELETE"))) [
  | inl e ↦ inl ((text_eq_iff (upper (c ∷ op)) (codes "DELETE")).0 e, e)
  | inr e ↦ inr (λ p. ground (arith, e, p, text_eq_iff (upper (c ∷ op)) (codes "DELETE")), e)
]

raw_payload-IsJudged : (r : RawRecord) → IsJudged r (raw_payload r)
unfolding raw_payload
raw_payload-IsJudged r = elim (delete_test r.source_op) [
  | inl (e, test) ↦ inl (e, rw test refl)
  | inr (e, test) ↦ inr (e, rw test refl)
]

-- The policy reads of a field, from the image before for a DELETE in any case of letters and from
-- the image after for any other operation, the first value that is not null-like, by a list of five
-- texts; only where the image has none of source_ts, the record's time, if there is one.
pub dict_get-field_values :
    (r : RawRecord) (k : Text)
    → (image : List Item) × IsJudged r image
      × IsRead k image r.source_ts (dict_get k (field_values r))
unfolding field_values
dict_get-field_values r k =
    let values = present_values (raw_payload r) in
    let read =
      get-with_default k values r.source_ts (dict_get ts_key values) (value_in k (raw_payload r))
        refl (dict_get-present_values k (raw_payload r)) in
    (
      raw_payload r,
      raw_payload-IsJudged r,
      subst (IsRead k (raw_payload r) r.source_ts) (sym read) (
          IsRead-or_source_ts k (raw_payload r) r.source_ts (value_in k (raw_payload r))
            (value_in-IsHeld k (raw_payload r))),
    )
