-- ===== src/Stage1/Blocking/Parts.antt =====
-- About the parts of a fallback blocking key of transform/stage1_normalise.py.
use nexus_spark_lib.Base.{
  subst, inr, inl, Text, ℕ, zero, suc, ◌+◌, ◌≤◌, ◌<◌, ◌≡◌, refl, false, Option, none, some, List,
  [], ◌∷◌, ◌++◌, arith, subst, any, count_of, text_eq, text_eq_iff, in_texts, leb, length, sort_by,
  keys, length-append, All, All-append, Bool-cases, Dict, dict_get, strip, lower,
}
use mathlib.Core.Option.{some_inj}
use nexus_spark_lib.Stage3.Context.{Scalar, str}
use nexus_spark_lib.Hashing.{take}
use nexus_spark_lib.Stage1.Fields.{NormalisedEntry, entry_value}
use nexus_spark_lib.Stage1.Blocking.{
  part_of_text, normalise_blocking_part, add_part, part_at, fallback_parts, candidate_parts,
  fallback_before, is_fallback_blocking_candidate,
}

length-take : (n : ℕ) (s : Text) → length (take n s) ≤ n
unfolding take
length-take zero s = omega arith
length-take (suc n) [] = omega arith
length-take (suc n) (c ∷ s) = omega (arith, length-take n s)

-- A part has 1 to 32 characters.
abbrev pub IsPart : Text → Type 0
IsPart part = (0 < length part) × (length part ≤ 32)

count-append :
    (t : Text) (xs ys : List Text)
    → count_of (text_eq t) (xs ++ ys) ≡ count_of (text_eq t) xs + count_of (text_eq t) ys
unfolding count_of
count-append t [] ys = omega arith
count-append t (x ∷ xs) ys = omega (arith, count-append t xs ys)

count-absent :
    (t : Text) (xs : List Text) → any (text_eq t) xs ≡ false → count_of (text_eq t) xs ≡ 0
unfolding any count_of
count-absent t [] h = refl
count-absent t (x ∷ xs) h = ground (arith, count-absent t xs)

-- At most three parts, each of 1 to 32 characters, no two of them equal.
pub record AreParts (parts : List Text) : Type 0 where
  pub at_most : length parts ≤ 3
  pub each : All IsPart parts
  pub distinct : (t : Text) → count_of (text_eq t) parts ≤ 1

normalise_blocking_part-IsPart :
    (v : Option Scalar) (part : Text) → normalise_blocking_part v ≡ some part → IsPart part
unfolding normalise_blocking_part
normalise_blocking_part-IsPart none part e = cc
normalise_blocking_part-IsPart (some v) part e = of_lower (lower (strip (str v))) e
  where
    of_lower : (t : Text) → part_of_text t ≡ some part → IsPart part
    of_lower [] e = cc
    of_lower (c ∷ t) e =
        subst IsPart (some_inj.0 e) (unfold take in omega arith, length-take 32 (c ∷ t))

part_at-IsPart :
    (fields : Dict NormalisedEntry) (name part : Text)
    → part_at fields name ≡ some part
    → IsPart part
part_at-IsPart fields name part e =
    elim (Bool-cases (is_fallback_blocking_candidate name (dict_get name fields))) [
      | inl h ↦ normalise_blocking_part-IsPart (entry_value (dict_get name fields)) part (rw h at e)
      | inr h ↦ let e' : none ≡ some part = rw h at e in cc
    ]

append-AreParts :
    (part : Text) (parts : List Text)
    → IsPart part
    → any (text_eq part) parts ≡ false
    → length parts < 3
    → AreParts parts
    → AreParts (parts ++ part ∷ [])
append-AreParts part parts p absent room h = record {
  at_most = omega (arith, length-append parts (part ∷ []));
  each = All-append IsPart parts (part ∷ []) h.each (p, tt);
  distinct = λ t. distinct_at t;
}
  where
    distinct_at : (t : Text) → count_of (text_eq t) (parts ++ part ∷ []) ≤ 1
    distinct_at t =
        unfold count_of in
        ground (
          arith,
          count-append t parts (part ∷ []),
          text_eq_iff t part,
          count-absent part parts,
          h.distinct t,
        )

add_part-AreParts :
    (o : Option Text) (parts : List Text)
    → ((part : Text) → o ≡ some part → IsPart part)
    → length parts < 3
    → AreParts parts
    → AreParts (add_part o parts)
unfolding in_texts
add_part-AreParts none parts p room h = h
add_part-AreParts (some part) parts p room h = elim (Bool-cases (any (text_eq part) parts)) [
  | inl e ↦ rw e h
  | inr e ↦ rw e (append-AreParts part parts (p part refl) e room h)
]

fallback_parts-AreParts :
    (fields : Dict NormalisedEntry) (names parts : List Text)
    → length parts < 3
    → AreParts parts
    → AreParts (fallback_parts fields names parts)
unfolding fallback_parts
fallback_parts-AreParts fields [] parts room h = h
fallback_parts-AreParts fields (name ∷ names) parts room h =
    let step = add_part-AreParts (part_at fields name) parts (part_at-IsPart fields name) room h in
    elim (Bool-cases (leb 3 (length (add_part (part_at fields name) parts)))) [
      | inl e ↦ rw e step
      | inr e ↦ rw e (fallback_parts-AreParts fields names _ (ground (arith, e)) step)
    ]

pub candidate_parts-AreParts : (fields : Dict NormalisedEntry) → AreParts (candidate_parts fields)
unfolding candidate_parts count_of
candidate_parts-AreParts fields =
    fallback_parts-AreParts fields (sort_by fallback_before (keys fields)) [] (omega arith)
      record { at_most = omega arith; each = tt; distinct = λ t. omega arith }
