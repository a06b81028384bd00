-- ===== src/Models/Predicate/Kleene.antt =====
-- About the three-valued connectives of `_eval_predicate` of models/materialization.py.
use nexus_spark_lib.Base.{
  Bool, true, false, ◌≡◌, refl, ap, ◌∙◌, none, some, List, [], ◌∷◌, if◌then◌else◌, any, all,
}
use nexus_spark_lib.Models.Predicate.{Truth, is_true, is_false, or_results, and_results}

-- Kleene's strong connectives on two values.
abbrev pub or_of : Truth → Truth → Truth
or_of (some true) b = some true
or_of (some false) b = b
or_of none (some true) = some true
or_of none b = none

abbrev pub and_of : Truth → Truth → Truth
and_of (some false) b = some false
and_of (some true) b = b
and_of none (some false) = some false
and_of none b = none

abbrev pub fold_of : (Truth → Truth → Truth) → Truth → List Truth → Truth
fold_of f unit [] = unit
fold_of f unit (t ∷ ts) = f t (fold_of f unit ts)

or_of-none :
    (some_true all_false : Bool)
    → (if some_true then some true else none)
      ≡ or_of none (if some_true then some true else if all_false then some false else none)
or_of-none true all_false = refl
or_of-none false true = refl
or_of-none false false = refl

and_of-none :
    (some_false all_true : Bool)
    → (if some_false then some false else none)
      ≡ and_of none (if some_false then some false else if all_true then some true else none)
and_of-none true all_true = refl
and_of-none false true = refl
and_of-none false false = refl

or_results-cons : (t : Truth) (ts : List Truth) → or_results (t ∷ ts) ≡ or_of t (or_results ts)
unfolding or_results any all
or_results-cons none ts = or_of-none (any is_true ts) (all is_false ts)
or_results-cons (some true) ts = refl
or_results-cons (some false) ts = refl

and_results-cons : (t : Truth) (ts : List Truth) → and_results (t ∷ ts) ≡ and_of t (and_results ts)
unfolding and_results any all
and_results-cons none ts = and_of-none (any is_false ts) (all is_true ts)
and_results-cons (some true) ts = refl
and_results-cons (some false) ts = refl

-- The results of an OR and of an AND, by the searches for True and False, are the folds of Kleene's
-- three-valued connectives.
pub results-fold_of :
    (ts : List Truth)
    → (or_results ts ≡ fold_of or_of (some false) ts)
      × (and_results ts ≡ fold_of and_of (some true) ts)
unfolding or_results and_results any all
results-fold_of [] = (refl, refl)
results-fold_of (t ∷ ts) =
    let (disjunction, conjunction) = results-fold_of ts in
    (
      or_results-cons t ts ∙ ap (or_of t) disjunction,
      and_results-cons t ts ∙ ap (and_of t) conjunction,
    )
