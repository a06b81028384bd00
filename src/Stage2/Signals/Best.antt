-- ===== src/Stage2/Signals/Best.antt =====
-- About `run_signal_b` of transform/stage2_resolve/signals/signal_b_probabilistic.py.
use nexus_spark_lib.Base.{
  Text, ℕ, ◌≤◌, ◌<◌, ◌≡◌, refl, sym, subst, ◌⊎◌, inl, inr, Option, none, some, List, [], ◌∷◌, arith,
  ltb, Bool-cases, All, Among,
}
use nexus_spark_lib.Stage2.Signals.{better, best_of, run_signal_b}

better_cases :
    (score : ℕ) (c : Text) (before : ℕ × Option Text)
    → (before.0 < score) × (better score c before ≡ (score, some c))
      ⊎ (score ≤ before.0) × (better score c before ≡ before)
better_cases score c (best, id) = elim (Bool-cases (ltb best score)) [
  | inl e ↦ inl (ground (arith, e), rw e refl)
  | inr e ↦ inr (ground (arith, e), rw e refl)
]

module _ (score_pair : Text → ℕ) where
  -- The best of a list beyond what was best before it: a candidate with a greater score, at least
  -- that of every other; or what it was, if no candidate's score is greater.
  abbrev pub IsBest : List Text → ℕ × Option Text → ℕ × Option Text → Type 0
  IsBest candidates before best =
      (before.0 ≤ best.0)
      × All (λ c. score_pair c ≤ best.0) candidates
      × ((best ≡ before)
          ⊎ ((c : Text) × Among c candidates
              × (best ≡ (score_pair c, some c))
              × (before.0 < best.0)))

  taken_next :
      (candidates : List Text) (c : Text) (score : ℕ) (id : Option Text) (best : ℕ × Option Text)
      → score < score_pair c
      → IsBest candidates (score_pair c, some c) best
      → IsBest (c ∷ candidates) (score, id) best
  taken_next candidates c score id best e (lower, bound, inl same) =
      (omega arith, (lower, bound), inr (c, inl refl, same, omega arith))
  taken_next candidates c score id best e (lower, bound, inr (d, among, is_d, above)) =
      (omega arith, (lower, bound), inr (d, inr among, is_d, omega arith))

  kept_next :
      (candidates : List Text) (c : Text) (score : ℕ) (id : Option Text) (best : ℕ × Option Text)
      → score_pair c ≤ score
      → IsBest candidates (score, id) best
      → IsBest (c ∷ candidates) (score, id) best
  kept_next candidates c score id best e (lower, bound, inl same) =
      (lower, (omega arith, bound), inl same)
  kept_next candidates c score id best e (lower, bound, inr (d, among, is_d, above)) =
      (lower, (omega arith, bound), inr (d, inr among, is_d, above))

  IsBest-step :
      (candidates : List Text) (c : Text) (score : ℕ) (id : Option Text) (next : ℕ × Option Text)
      → ((before : ℕ × Option Text)
          → IsBest candidates before (best_of score_pair candidates before))
      → (score < score_pair c) × (next ≡ (score_pair c, some c))
        ⊎ (score_pair c ≤ score) × (next ≡ (score, id))
      → IsBest (c ∷ candidates) (score, id) (best_of score_pair candidates next)
  IsBest-step candidates c score id next later (inl (less, e)) =
      subst (λ x. IsBest (c ∷ candidates) (score, id) (best_of score_pair candidates x)) (sym e)
        (taken_next candidates c score id (best_of score_pair candidates (score_pair c, some c))
          less (later (score_pair c, some c)))
  IsBest-step candidates c score id next later (inr (least, e)) =
      subst (λ x. IsBest (c ∷ candidates) (score, id) (best_of score_pair candidates x)) (sym e)
        (kept_next candidates c score id (best_of score_pair candidates (score, id)) least
          (later (score, id)))

  best_of-IsBest :
      (candidates : List Text) (before : ℕ × Option Text)
      → IsBest candidates before (best_of score_pair candidates before)
  unfolding best_of
  best_of-IsBest [] before = (omega arith, tt, inl refl)
  best_of-IsBest (c ∷ candidates) (score, id) =
      IsBest-step candidates c score id (better (score_pair c) c (score, id))
        (best_of-IsBest candidates) (better_cases (score_pair c) c (score, id))

  -- Signal B's score is at least that of every candidate; it is a candidate's own score, above 0,
  -- with that candidate's id, or 0 with no id.
  pub run_signal_b-IsBest :
      (candidates : List Text) → IsBest candidates (0, none) (run_signal_b score_pair candidates)
  unfolding run_signal_b
  run_signal_b-IsBest candidates = best_of-IsBest candidates (0, none)
