-- ===== src/Models/Predicate/Fuel.antt =====
-- About the fuel of `_eval_predicate` of models/materialization.py: the parts of an expression are
-- shorter than the expression.
use nexus_spark_lib.Base.{
  Text, ℕ, zero, suc, ◌+◌, ◌-◌, ◌<◌, ◌≤◌, ◌≡◌, refl, subst, inl, inr, Bool, true, false, ◌||◌,
  Option, some, List, [], ◌∷◌, ◌++◌, arith, codes, length, length-append, length-strip, strip, All,
  Bool-cases, starts_with, upper, text_eq,
}
use nexus_spark_lib.Models.Predicate.{
  Scan, start, Move, go_on, step_over, split_here, move_at, moved, scan, split_top_level, drop,
  but_last, Truth, not_result, and_results, or_results, eval_parts, eval_leaf, eval_and, eval_or,
  eval_stripped, eval_fuelled, combined, with_result, is_wrapped,
}

-- The characters of the parts, and one more for each part.
abbrev total : List Text → ℕ
total [] = 0
total (p ∷ parts) = suc (length p) + total parts

module _ (kw : Text) (is_and : Bool) where
  total-moved :
      (scan_rest : ℕ → Bool → Scan → Text → List Text) (m : Move) (part : Text) (c : ℕ) (n : ℕ)
      → ((k : ℕ) (b : Bool) (st : Scan) (part' : Text)
          → total (scan_rest k b st part') ≤ suc (length part' + n))
      → total (moved kw is_and scan_rest m part c) ≤ suc (length part + suc n)
  unfolding moved
  total-moved scan_rest (go_on st) part c n h =
      omega (arith, h 0 true st (part ++ c ∷ []), length-append part (c ∷ []))
  total-moved scan_rest (step_over st) part c n h =
      omega (arith, h (length kw - 2) true st (part ++ c ∷ []), length-append part (c ∷ []))
  total-moved scan_rest (split_here st) part c n h =
      omega (arith, h (length kw - 1) false st [], length-strip part)

  total-scan :
      (skip : ℕ) (keep : Bool) (st : Scan) (part expr : Text)
      → total (scan kw is_and skip keep st part expr) ≤ suc (length part + length expr)
  unfolding scan
  total-scan zero keep st part [] = omega (arith, length-strip part)
  total-scan (suc skip) keep st part [] = omega (arith, length-strip part)
  total-scan (suc skip) true st part (c ∷ s) =
      omega (arith, total-scan skip true st (part ++ c ∷ []) s, length-append part (c ∷ []))
  total-scan (suc skip) false st part (c ∷ s) = omega (arith, total-scan skip false st part s)
  total-scan zero keep st part (c ∷ s) =
      total-moved (λ n b st' part'. scan kw is_and n b st' part' s) (move_at kw is_and st (c ∷ s))
        part c (length s) (λ k b st' part'. total-scan k b st' part' s)

All-total : (parts : List Text) (n : ℕ) → total parts ≤ n → All (λ p. length p < n) parts
All-total [] n h = tt
All-total (p ∷ parts) n h = (omega arith, All-total parts n (omega arith))

total-split_top_level : (e keyword : Text) → total (split_top_level e keyword) ≤ suc (length e)
unfolding split_top_level
total-split_top_level e keyword = omega (
  arith,
  total-scan (codes " " ++ (keyword ++ codes " ")) (text_eq keyword (codes "AND")) 0 true start []
      e,
)

-- Two or more parts of an expression are shorter than it.
short_parts :
    (e keyword p q : Text) (parts : List Text)
    → split_top_level e keyword ≡ p ∷ q ∷ parts
    → All (λ r. length r < length e) (p ∷ q ∷ parts)
short_parts e keyword p q parts h =
    (omega (arith, bound), All-total (q ∷ parts) (length e) (omega (arith, bound)))
  where
    bound : total (p ∷ q ∷ parts) ≤ suc (length e)
    bound = subst (λ xs. total xs ≤ suc (length e)) h (total-split_top_level e keyword)

length-drop : (n : ℕ) (s : Text) → length (drop n s) ≤ length s
unfolding drop
length-drop zero s = omega arith
length-drop (suc n) [] = omega arith
length-drop (suc n) (c ∷ s) = omega (arith, length-drop n s)

length-but_last : (s : Text) → length (but_last s) ≤ length s
unfolding but_last
length-but_last [] = omega arith
length-but_last (c ∷ []) = omega arith
length-but_last (c ∷ d ∷ s) = omega (arith, length-but_last (d ∷ s))

inner-not : (e : Text) → starts_with (codes "NOT ") (upper e) ≡ true → length (drop 4 e) < length e
unfolding starts_with upper drop
inner-not [] h = absurd cc
inner-not (c ∷ s) h = omega (arith, length-drop 3 s)

inner-is_wrapped : (e : Text) → is_wrapped e ≡ true → length (but_last (drop 1 e)) < length e
unfolding starts_with is_wrapped drop
inner-is_wrapped [] h = absurd cc
inner-is_wrapped (c ∷ s) h = omega (arith, length-but_last s)

Settles-with_result :
    (f : Truth → Truth) (o : Option Truth)
    → ((t : Truth) × (o ≡ some t))
    → (t : Truth) × (with_result o f ≡ some t)
Settles-with_result f o (t, e) = (f t, rw e refl)

abbrev Settles : Option Truth → Type 0
Settles o = (t : Truth) × (o ≡ some t)

module _ (test : Text → Truth) (eval_part : Text → Option Truth) where
  Settles-parts :
      (parts : List Text)
      → All (λ p. Settles (eval_part p)) parts
      → (ts : List Truth) × (eval_parts test eval_part parts ≡ some ts)
  unfolding eval_parts
  Settles-parts [] h = ([], refl)
  Settles-parts (p ∷ parts) ((t, e), h) =
      let (ts, f) = Settles-parts parts h in (t ∷ ts, rw (e, f) refl)

  Settles-combined :
      (f : List Truth → Truth) (parts : List Text)
      → All (λ p. Settles (eval_part p)) parts
      → Settles (combined test eval_part f (eval_parts test eval_part parts))
  Settles-combined f parts h = let (ts, e) = Settles-parts parts h in (f ts, rw e refl)

  module _ (e : Text) (smaller : (p : Text) → length p < length e → Settles (eval_part p)) where
    All-Settles :
        (parts : List Text)
        → All (λ p. length p < length e) parts
        → All (λ p. Settles (eval_part p)) parts
    All-Settles [] h = tt
    All-Settles (p ∷ parts) h = (smaller p h.0, All-Settles parts h.1)

    Settles-leaf : Settles (eval_leaf test eval_part e)
    unfolding eval_leaf
    Settles-leaf = elim (Bool-cases (starts_with (codes "NOT ") (upper e))) [
      | inl n ↦ rw n (
          Settles-with_result not_result (eval_part (drop 4 e))
            (smaller (drop 4 e) (inner-not e n)))
      | inr n ↦ (elim (Bool-cases (is_wrapped e)) [
        | inl w ↦ rw (n, w) (smaller (but_last (drop 1 e)) (inner-is_wrapped e w))
        | inr w ↦ rw (n, w) (test e, refl)
      ])
    ]

    Settles-and :
        (parts : List Text)
        → split_top_level e (codes "AND") ≡ parts
        → Settles (eval_and test eval_part e parts)
    unfolding eval_and
    Settles-and [] h = Settles-leaf
    Settles-and (p ∷ []) h = Settles-leaf
    Settles-and (p ∷ q ∷ parts) h =
        Settles-combined and_results (p ∷ q ∷ parts)
          (All-Settles (p ∷ q ∷ parts) (short_parts e (codes "AND") p q parts h))

    Settles-or :
        (parts : List Text)
        → split_top_level e (codes "OR") ≡ parts
        → Settles (eval_or test eval_part e parts)
    unfolding eval_or
    Settles-or [] h = Settles-and (split_top_level e (codes "AND")) refl
    Settles-or (p ∷ []) h = Settles-and (split_top_level e (codes "AND")) refl
    Settles-or (p ∷ q ∷ parts) h =
        Settles-combined or_results (p ∷ q ∷ parts)
          (All-Settles (p ∷ q ∷ parts) (short_parts e (codes "OR") p q parts h))

    Settles-stripped : Settles (eval_stripped test eval_part e)
    unfolding eval_stripped
    Settles-stripped = elim (Bool-cases (text_eq e [] || text_eq e (codes "*"))) [
      | inl a ↦ rw a (some true, refl)
      | inr a ↦ (elim (Bool-cases (text_eq (upper e) (codes "TRUE"))) [
        | inl b ↦ rw (a, b) (some true, refl)
        | inr b ↦ (elim (Bool-cases (text_eq (upper e) (codes "FALSE"))) [
          | inl c ↦ rw (a, b, c) (some false, refl)
          | inr c ↦ rw (a, b, c) (Settles-or (split_top_level e (codes "OR")) refl)
        ])
      ])
    ]

module _ (test : Text → Truth) where
  -- With more fuel than the predicate has characters, its evaluation gives a result, whatever the
  -- tests at the leaves say.
  pub eval_fuelled_total :
      (fuel : ℕ) (predicate : Text)
      → length predicate < fuel
      → (t : Truth) × (eval_fuelled test fuel predicate ≡ some t)
  unfolding eval_fuelled
  eval_fuelled_total zero predicate h = absurd (omega arith)
  eval_fuelled_total (suc fuel) predicate h =
      Settles-stripped test (eval_fuelled test fuel) (strip predicate)
        (λ p smaller. eval_fuelled_total fuel p (omega (arith, length-strip predicate)))
