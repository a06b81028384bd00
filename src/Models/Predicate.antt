-- ===== src/Models/Predicate.antt =====
-- The predicates of nexus_spark_lib/models/materialization.py: `_split_top_level`,
-- `_matching_close_paren` and the Boolean structure of `_eval_predicate`. The tests at the leaves
-- (AGE, COHORT, IN, BETWEEN, MATCHES and comparisons, each a regular expression) are a parameter.
pub mod Fuel
pub mod Kleene
use nexus_spark_lib.Base.{
  Text, ℕ, zero, suc, ◌+◌, ◌-◌, Bool, true, false, not, ◌&&◌, ◌||◌, Option, none, some, List, [],
  ◌∷◌, ◌++◌, codes, if◌then◌else◌, ◌==◌, text_eq, upper, strip, starts_with, length, all, any,
}

-- What the scan knows: the depth is 0 where as many parentheses were closed as opened.
pub record Scan : Type 0 where
  pub in_quote : Bool
  pub opened : ℕ
  pub closed : ℕ
  pub between_pending : Bool

abbrev pub start : Scan
start = record { in_quote = false; opened = 0; closed = 0; between_pending = false }

-- What one character asks for: to go on, to step over the AND of a BETWEEN, or to split.
pub data Move : Type 0 where
  go_on : Scan → Move
  step_over : Scan → Move
  split_here : Scan → Move

unfoldable pub move_at : Text → Bool → Scan → Text → Move
unfolding starts_with upper
move_at kw is_and st [] = go_on st
move_at kw is_and st (c ∷ s) =
    if c == b'\''
    then go_on (record st { in_quote = not st.in_quote })
    else if st.in_quote
    then go_on st
    else if c == b'('
    then go_on (record st { opened = suc st.opened })
    else if c == b')'
    then go_on (record st { closed = suc st.closed })
    else if (st.opened == st.closed) && starts_with (codes " BETWEEN ") (upper (c ∷ s))
    then go_on (record st { between_pending = true })
    else if (st.opened == st.closed) && starts_with kw (upper (c ∷ s))
    then (if is_and && st.between_pending
        then step_over (record st { between_pending = false })
        else split_here st)
    else go_on st

module _ (kw : Text) (is_and : Bool) where
  -- What a move does at the character `c`; `scan_rest` is the loop on the rest of the text.
  unfoldable pub moved : (ℕ → Bool → Scan → Text → List Text) → Move → Text → ℕ → List Text
  moved scan_rest (go_on st) part c = scan_rest 0 true st (part ++ c ∷ [])
  moved scan_rest (step_over st) part c = scan_rest (length kw - 2) true st (part ++ c ∷ [])
  moved scan_rest (split_here st) part c = strip part ∷ scan_rest (length kw - 1) false st []

  -- The loop: `skip` characters are passed without a look, and belong to the part if `keep` holds.
  unfoldable pub scan : ℕ → Bool → Scan → Text → Text → List Text
  unfolding moved move_at
  scan skip keep st part [] = strip part ∷ []
  scan (suc skip) true st part (c ∷ s) = scan skip true st (part ++ c ∷ []) s
  scan (suc skip) false st part (c ∷ s) = scan skip false st part s
  scan zero keep st part (c ∷ s) =
      moved (λ n b st' part'. scan n b st' part' s) (move_at kw is_and st (c ∷ s)) part c

-- `_split_top_level`: the keyword between two spaces.
unfoldable pub split_top_level : Text → Text → List Text
unfolding scan
split_top_level expr keyword =
    scan (codes " " ++ (keyword ++ codes " ")) (text_eq keyword (codes "AND")) 0 true start [] expr

-- `_matching_close_paren`: the index of the parenthesis that closes the first one.
unfoldable pub close_from : ℕ → ℕ → Text → Option ℕ
close_from i depth [] = none
close_from i depth (c ∷ s) =
    let deeper = close_from (suc i) (suc depth) s in
    let out = close_from (suc i) (depth - 1) s in
    let along = close_from (suc i) depth s in
    if c == b'('
    then deeper
    else if c == b')'
    then (if depth - 1 == 0 then some i else out)
    else along

abbrev index_is : Option ℕ → ℕ → Bool
index_is none n = false
index_is (some i) n = i == n

-- The parentheses wrap the whole expression.
unfoldable pub is_wrapped : Text → Bool
unfolding close_from starts_with
is_wrapped e = starts_with (codes "(") e && index_is (close_from 0 0 e) (length e - 1)

-- s[n:] and s[:-1]
unfoldable pub drop : ℕ → Text → Text
drop zero s = s
drop (suc n) [] = []
drop (suc n) (c ∷ s) = drop n s

unfoldable pub but_last : Text → Text
but_last [] = []
but_last (c ∷ []) = []
but_last (c ∷ d ∷ s) = c ∷ but_last (d ∷ s)

-- True, False or None.
abbrev pub Truth : Type 0
Truth = Option Bool

abbrev pub is_true : Truth → Bool
is_true (some true) = true
is_true _ = false

abbrev pub is_false : Truth → Bool
is_false (some false) = true
is_false _ = false

unfoldable pub or_results : List Truth → Truth
or_results results =
    if any is_true results then some true else if all is_false results then some false else none

unfoldable pub and_results : List Truth → Truth
and_results results =
    if any is_false results then some false else if all is_true results then some true else none

abbrev pub not_result : Truth → Truth
not_result none = none
not_result (some b) = some (not b)

-- Results of recursive calls; `none` means that the fuel ran out.
abbrev pub with_result : Option Truth → (Truth → Truth) → Option Truth
with_result none f = none
with_result (some t) f = some (f t)

abbrev pub prepend : Option Truth → Option (List Truth) → Option (List Truth)
prepend (some t) (some ts) = some (t ∷ ts)
prepend _ _ = none

module _ (test : Text → Truth) (eval_part : Text → Option Truth) where
  unfoldable pub eval_parts : List Text → Option (List Truth)
  eval_parts [] = some []
  eval_parts (p ∷ parts) = prepend (eval_part p) (eval_parts parts)

  abbrev pub combined : (List Truth → Truth) → Option (List Truth) → Option Truth
  combined f none = none
  combined f (some ts) = some (f ts)

  unfoldable pub eval_leaf : Text → Option Truth
  unfolding drop but_last is_wrapped
  eval_leaf e =
      if starts_with (codes "NOT ") (upper e)
      then with_result (eval_part (drop 4 e)) not_result
      else if is_wrapped e
      then eval_part (but_last (drop 1 e))
      else some (test e)

  unfoldable pub eval_and : Text → List Text → Option Truth
  unfolding eval_parts eval_leaf and_results
  eval_and e (p ∷ q ∷ parts) = combined and_results (eval_parts (p ∷ q ∷ parts))
  eval_and e parts = eval_leaf e

  unfoldable pub eval_or : Text → List Text → Option Truth
  unfolding eval_parts eval_and or_results split_top_level
  eval_or e (p ∷ q ∷ parts) = combined or_results (eval_parts (p ∷ q ∷ parts))
  eval_or e parts = eval_and e (split_top_level e (codes "AND"))

  unfoldable pub eval_stripped : Text → Option Truth
  unfolding eval_or split_top_level
  eval_stripped e =
      if text_eq e [] || text_eq e (codes "*")
      then some (some true)
      else if text_eq (upper e) (codes "TRUE")
      then some (some true)
      else if text_eq (upper e) (codes "FALSE")
      then some (some false)
      else eval_or e (split_top_level e (codes "OR"))

module _ (test : Text → Truth) where
  unfoldable pub eval_fuelled : ℕ → Text → Option Truth
  unfolding eval_stripped
  eval_fuelled zero predicate = none
  eval_fuelled (suc fuel) predicate = eval_stripped test (eval_fuelled fuel) (strip predicate)

  abbrev settled : Option Truth → Truth
  settled none = none
  settled (some t) = t

  -- The fuel: one step more than there are characters.
  unfoldable pub eval_predicate : Text → Truth
  unfolding eval_fuelled
  eval_predicate predicate = settled (eval_fuelled (suc (length predicate)) predicate)
