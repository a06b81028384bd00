-- ===== src/Base/Sets.antt =====
-- A Python set of texts, as a list that holds each text once.
use mathlib.Core.Path.{◌≡◌, refl}
use mathlib.Core.Bool.{Bool}
use mathlib.Core.List.{List, [], ◌∷◌}
use native.Mathlib.Omega.{arith}
use nexus_spark_lib.Base.Tests.{if◌then◌else◌}
use nexus_spark_lib.Base.Lists.{any, keep, count_of}
use nexus_spark_lib.Base.Strings.{Text, text_eq, text_eq_iff}

-- set(texts)
unfoldable pub unique : List Text → List Text
unique [] = []
unique (t ∷ ts) = let rest = unique ts in if any (text_eq t) ts then rest else t ∷ rest

pub count-unique :
    (t : Text) (ts : List Text)
    → count_of (text_eq t) (unique ts) ≡ (if any (text_eq t) ts then 1 else 0)
unfolding unique any count_of
count-unique t [] = refl
count-unique t (u ∷ ts) = ground (arith, text_eq_iff t u, count-unique t ts)

pub count-keep :
    (t : Text) (q : Text → Bool) (ts : List Text)
    → count_of (text_eq t) (keep q ts) ≡ (if q t then count_of (text_eq t) ts else 0)
unfolding keep count_of
count-keep t q [] = ground arith
count-keep t q (u ∷ ts) = ground (arith, text_eq_iff t u, count-keep t q ts)
