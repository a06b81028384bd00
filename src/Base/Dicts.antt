-- ===== src/Base/Dicts.antt =====
-- Python's `dict` with text keys: items in the order of insertion.
use mathlib.Core.Path.{◌≡◌, refl}
use mathlib.Core.Bool.{false}
use mathlib.Core.Option.{Option, none, some}
use mathlib.Core.List.{List, [], ◌∷◌, map}
use native.Mathlib.Omega.{arith}
use nexus_spark_lib.Base.Tests.{if◌then◌else◌}
use nexus_spark_lib.Base.Strings.{Text, text_eq, text_eq_iff}

abbrev pub Dict {ℓ} : Type ℓ → Type ℓ
Dict V = List (Text × V)

module _ {ℓ} {V : Type ℓ} where
  -- d.get(k)
  unfoldable pub dict_get : Text → Dict V → Option V
  dict_get k [] = none
  dict_get k ((j, v) ∷ d) = if text_eq j k then some v else dict_get k d

  -- d[k] = v
  unfoldable pub dict_set : Text → V → Dict V → Dict V
  dict_set k v [] = (k, v) ∷ []
  dict_set k v ((j, w) ∷ d) = if text_eq j k then (j, v) ∷ d else (j, w) ∷ dict_set k v d

  -- d.setdefault(k, v)
  unfoldable pub dict_set_default : Text → V → Dict V → Dict V
  dict_set_default k v [] = (k, v) ∷ []
  dict_set_default k v ((j, w) ∷ d) =
      if text_eq j k then (j, w) ∷ d else (j, w) ∷ dict_set_default k v d

  -- d.pop(k, None)
  unfoldable pub dict_pop : Text → Dict V → Dict V
  dict_pop k [] = []
  dict_pop k ((j, w) ∷ d) = let rest = dict_pop k d in if text_eq j k then rest else (j, w) ∷ rest

  abbrev pub keys : Dict V → List Text
  keys d = map (λ item. item.0) d

  pub dict_get-set :
      (k j : Text) (v : V) (d : Dict V)
      → dict_get j (dict_set k v d) ≡ (if text_eq k j then some v else dict_get j d)
  unfolding dict_get dict_set
  dict_get-set k j v [] = refl
  dict_get-set k j v ((i, w) ∷ d) =
      ground (arith, text_eq_iff i k, text_eq_iff i j, text_eq_iff k j, dict_get-set k j v d)

  pub dict_get-pop :
      (k j : Text) (d : Dict V)
      → dict_get j (dict_pop k d) ≡ (if text_eq k j then none else dict_get j d)
  unfolding dict_get dict_pop
  dict_get-pop k j [] = ground arith
  dict_get-pop k j ((i, w) ∷ d) =
      ground (arith, text_eq_iff i k, text_eq_iff i j, text_eq_iff k j, dict_get-pop k j d)

  -- A default under another key is not seen.
  pub dict_get-set_default_ne :
      (k j : Text) (v : V) (d : Dict V)
      → text_eq k j ≡ false
      → dict_get j (dict_set_default k v d) ≡ dict_get j d
  unfolding dict_get dict_set_default
  dict_get-set_default_ne k j v [] ne = rw ne refl
  dict_get-set_default_ne k j v ((i, w) ∷ d) ne =
      ground (arith, text_eq_iff i k, text_eq_iff i j, dict_get-set_default_ne k j v d ne)
