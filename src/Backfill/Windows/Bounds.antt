-- ===== src/Backfill/Windows/Bounds.antt =====
-- About `plan_window` of backfill_windows.py.
use nexus_spark_lib.Base.{
  Text, ℕ, ◌<◌, ◌≤◌, ◌≡◌, refl, sym, subst, ◌∙◌, ◌⊎◌, inl, inr, Bool-cases, Bool, true, false,
  Option, none, some, List, [], ◌∷◌, arith, Dict, dict_get, lower, codes, or_default,
}
use nexus_spark_lib.Backfill.Windows.{
  Error, month_shift, minus_days, shifted, is_done, window_to, ◌>>=◌, Result, ok, err, Calendar,
  IsCalendar, Delta, days, months, Window, later_by, earlier_by, window_of, unit_delta, sized_delta,
  pieces_delta, parse_delta, int_of, rstrip_s, split_words, plan_window, first_cursor, boundary_of,
  cursor_key, is_backward, Config,
}

abbrev pub size_of : Delta → ℕ
size_of (days n) = n
size_of (months n) = n

unit_delta_positive :
    (n : ℕ) (word : Text) (delta : Delta) → 0 < n → unit_delta n word ≡ ok delta → 0 < size_of delta
unfolding unit_delta
unit_delta_positive n word delta h e = ground arith

sized_delta_positive :
    (n : Option ℕ) (word : Text) (delta : Delta) → sized_delta n word ≡ ok delta → 0 < size_of delta
unfolding sized_delta
sized_delta_positive none word delta e = ground arith
sized_delta_positive (some n) word delta e = ground (arith, unit_delta_positive n word delta)

pieces_delta_positive :
    (words : List Text) (delta : Delta) → pieces_delta words ≡ ok delta → 0 < size_of delta
unfolding pieces_delta
pieces_delta_positive (size ∷ word ∷ []) delta e =
    sized_delta_positive (int_of size) (rstrip_s word) delta e
pieces_delta_positive [] delta e = ground arith
pieces_delta_positive (size ∷ []) delta e = ground arith
pieces_delta_positive (size ∷ word ∷ more ∷ words) delta e = ground arith

-- A length that parses is at least one day or one month.
pub parse_delta_positive :
    (length : Text) (delta : Delta) → parse_delta length ≡ ok delta → 0 < size_of delta
unfolding parse_delta
parse_delta_positive length delta e = pieces_delta_positive (split_words [] (lower length)) delta e

pub Result-cases :
    {A : Type 0} (o : Result A) → ((a : A) × (o ≡ ok a)) ⊎ ((x : Error) × (o ≡ err x))
Result-cases (ok a) = inl (a, refl)
Result-cases (err x) = inr (x, refl)

pub window_inj : (v w : Window) → ok (some v) ≡ ok (some w) → v ≡ w
window_inj v w e = cc

pub none-ne_window : (w : Window) → ok none ≡ ok (some w) → ⊥
none-ne_window w e = cc

pub err-ne_window : (x : Error) (w : Window) → err x ≡ ok (some w) → ⊥
err-ne_window x w e = cc

module _ (calendar : Calendar) (laws : IsCalendar calendar) where
  -- A shift by a positive length moves a date.
  abbrev IsMoved : Bool → ℕ → ℕ → Type 0
  IsMoved true cursor far = far < cursor
  IsMoved false cursor far = cursor < far

  month_shift_ok : (o : Option ℕ) (r : ℕ) → month_shift calendar o ≡ ok r → o ≡ some r
  month_shift_ok none r e = absurd cc
  month_shift_ok (some d) r e = cc

  shifted-IsMoved :
      (backward : Bool) (delta : Delta) (d r : ℕ)
      → 0 < size_of delta
      → shifted calendar backward delta d ≡ ok r
      → IsMoved backward d r
  unfolding shifted earlier_by later_by minus_days
  shifted-IsMoved true (days n) d r h e = ground arith
  shifted-IsMoved true (months n) d r h e =
      laws.sub_earlier n d r h (month_shift_ok (calendar.sub_months n d) r e)
  shifted-IsMoved false (days n) d r h e = ground arith
  shifted-IsMoved false (months n) d r h e =
      laws.add_later n d r h (month_shift_ok (calendar.add_months n d) r e)

  -- A window runs between the boundary and the cursor, has days in it, and the next cursor is
  -- its far end.
  abbrev pub IsBounded : Bool → ℕ → ℕ → Window → Type 0
  IsBounded true cursor boundary w =
      (w.end ≡ cursor) × (w.start < w.end) × (boundary ≤ w.start) × (w.next_cursor ≡ w.start)
  IsBounded false cursor boundary w =
      (w.start ≡ cursor) × (w.start < w.end) × (w.end ≤ boundary) × (w.next_cursor ≡ w.end)

  window_to-IsBounded :
      (backward : Bool) (cursor boundary far : ℕ) (key : Text) (persisted : Option ℕ)
      → is_done backward cursor boundary ≡ false
      → IsMoved backward cursor far
      → IsBounded backward cursor boundary (window_to backward cursor boundary key persisted far)
  unfolding window_to
  window_to-IsBounded true cursor boundary far key persisted h k = ground arith
  window_to-IsBounded false cursor boundary far key persisted h k = ground arith

  -- A window of the plan is that of a shifted cursor; it is bounded, and the key and the persisted
  -- cursor are in it.
  abbrev pub IsWindow : Bool → ℕ → ℕ → Text → Option ℕ → Window → Type 0
  IsWindow backward cursor boundary key persisted w =
      IsBounded backward cursor boundary w × (w.cursor_key ≡ key) × (w.expected_cursor ≡ persisted)

  keys-window_to :
      (backward : Bool) (cursor boundary far : ℕ) (key : Text) (persisted : Option ℕ)
      → ((window_to backward cursor boundary key persisted far).cursor_key ≡ key)
        × ((window_to backward cursor boundary key persisted far).expected_cursor ≡ persisted)
  unfolding window_to
  keys-window_to true cursor boundary far key persisted = (refl, refl)
  keys-window_to false cursor boundary far key persisted = (refl, refl)

  window_to-IsWindow :
      (backward : Bool) (delta : Delta) (cursor boundary far : ℕ) (key : Text)
      (persisted : Option ℕ)
      → 0 < size_of delta
      → is_done backward cursor boundary ≡ false
      → shifted calendar backward delta cursor ≡ ok far
      → IsWindow backward cursor boundary key persisted
          (window_to backward cursor boundary key persisted far)
  window_to-IsWindow backward delta cursor boundary far key persisted h k e =
      let keys = keys-window_to backward cursor boundary far key persisted in
      (
        window_to-IsBounded backward cursor boundary far key persisted k
            (shifted-IsMoved backward delta cursor far h e),
        keys.0,
        keys.1,
      )

  -- A plan is finished, is the window of a shifted cursor, or fails with the shift.
  pub window_of_cases :
      (backward : Bool) (delta : Delta) (cursor boundary : ℕ) (key : Text) (persisted : Option ℕ)
      → 0 < size_of delta
      → (window_of calendar backward delta cursor boundary key persisted ≡ ok none)
        ⊎ ((w : Window) × (window_of calendar backward delta cursor boundary key persisted
              ≡ ok (some w))
            × IsWindow backward cursor boundary key persisted w)
        ⊎ ((x : Error) × (window_of calendar backward delta cursor boundary key persisted ≡ err x)
            × (is_done backward cursor boundary ≡ false)
            × (shifted calendar backward delta cursor ≡ err x))
  unfolding window_of
  window_of_cases backward delta cursor boundary key persisted h =
      elim (Bool-cases (is_done backward cursor boundary)) [
        | inl e ↦ inl (rw e refl)
        | inr e ↦ (elim (Result-cases (shifted calendar backward delta cursor)) [
          | inl (far, f) ↦ inr (
              inl (
                window_to backward cursor boundary key persisted far,
                rw (e, f) refl,
                window_to-IsWindow backward delta cursor boundary far key persisted h e f,
              ))
          | inr (x, f) ↦ inr (inr (x, rw (e, f) refl, e, f))
        ])
      ]

  pub window_of-IsBounded :
      (backward : Bool) (delta : Delta) (cursor boundary : ℕ) (key : Text) (persisted : Option ℕ)
      (w : Window)
      → 0 < size_of delta
      → window_of calendar backward delta cursor boundary key persisted ≡ ok (some w)
      → IsBounded backward cursor boundary w
  window_of-IsBounded backward delta cursor boundary key persisted w h e =
      elim (window_of_cases backward delta cursor boundary key persisted h) [
        | inl f ↦ absurd (none-ne_window w (sym f ∙ e))
        | inr (inl (v, f, g)) ↦
            subst (IsBounded backward cursor boundary) (window_inj v w (sym f ∙ e)) g.0
        | inr (inr (x, f, _, _)) ↦ absurd (err-ne_window x w (sym f ∙ e))
      ]

  IsBounded-of_parsed :
      (length : Text) (parsed : Result Delta) (backward : Bool) (cursor boundary : ℕ) (key : Text)
      (persisted : Option ℕ) (w : Window)
      → parse_delta length ≡ parsed
      → (parsed >>= λ delta. window_of calendar backward delta cursor boundary key persisted)
        ≡ ok (some w)
      → IsBounded backward cursor boundary w
  IsBounded-of_parsed length (ok delta) backward cursor boundary key persisted w e f =
      window_of-IsBounded backward delta cursor boundary key persisted w
        (parse_delta_positive length delta e) f
  IsBounded-of_parsed length (err x) backward cursor boundary key persisted w e f = absurd cc

  plan_window_eq :
      (connector_id : Text) (cfg : Config) (variables : Dict ℕ) (today cursor boundary : ℕ)
      → first_cursor cfg (dict_get (cursor_key connector_id cfg.table_name) variables) today
        ≡ ok cursor
      → boundary_of cfg today ≡ ok boundary
      → plan_window calendar connector_id cfg variables today ≡ (
          parse_delta (or_default cfg.time_window_length (codes "1 month")) >>= λ delta.
          window_of calendar
            (is_backward cfg)
            delta
            cursor
            boundary
            (cursor_key connector_id cfg.table_name)
            (dict_get (cursor_key connector_id cfg.table_name) variables))
  unfolding plan_window
  plan_window_eq connector_id cfg variables today cursor boundary e f = rw (e, f) refl

  -- A window that is planned from a cursor towards a boundary has at least one day, lies between
  -- the two, begins (backward: ends) at the cursor, and its other end is the next cursor, with a
  -- calendar whose shifts by months move a date.
  pub plan_window-IsBounded :
      (connector_id : Text) (cfg : Config) (variables : Dict ℕ) (today cursor boundary : ℕ)
      (w : Window)
      → first_cursor cfg (dict_get (cursor_key connector_id cfg.table_name) variables) today
        ≡ ok cursor
      → boundary_of cfg today ≡ ok boundary
      → plan_window calendar connector_id cfg variables today ≡ ok (some w)
      → IsBounded (is_backward cfg) cursor boundary w
  plan_window-IsBounded connector_id cfg variables today cursor boundary w e f g =
      IsBounded-of_parsed (or_default cfg.time_window_length (codes "1 month"))
        (parse_delta (or_default cfg.time_window_length (codes "1 month"))) (is_backward cfg) cursor
        boundary (cursor_key connector_id cfg.table_name)
        (dict_get (cursor_key connector_id cfg.table_name) variables) w refl
        (sym (plan_window_eq connector_id cfg variables today cursor boundary e f) ∙ g)
