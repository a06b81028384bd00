-- ===== src/Backfill/Windows/Checkpoint.antt =====
-- About `complete_window` of backfill_windows.py, and runs of planning and completion.
use nexus_spark_lib.Base.{
  sym, Text, ℕ, zero, suc, ◌-◌, ◌<◌, ◌≤◌, ◌≡◌, refl, sym, ◌∙◌, ◌⊎◌, inl, inr, Bool, true, false,
  Option, none, some, arith, codes, Bool-cases, Dict, dict_get, dict_set, dict_get-set,
  text_eq_refl, text_eq_iff, or_default,
}
use nexus_spark_lib.Backfill.Windows.{
  checkpoint_changed, Error, shifted, is_done, text_eq, ◌>>=◌, Result, ok, err, Calendar,
  IsCalendar, Delta, Window, Config, window_of, date_eq, complete_window, parse_delta, plan_window,
  cursor_key, first_cursor, boundary_of, is_backward,
}
use nexus_spark_lib.Backfill.Windows.Bounds.{
  window_of_cases, IsWindow, IsBounded, parse_delta_positive,
}

ok-ne_err : (r : ℕ) (x : Error) → ok r ≡ err x → ⊥
ok-ne_err r x e = cc

date_eq_refl : (d : Option ℕ) → date_eq d d ≡ true
date_eq_refl none = refl
date_eq_refl (some n) = ground arith

-- What a completion may do: nothing if the checkpoint is already at the far end, a move to it from
-- the cursor that was planned at, and a refusal of any other checkpoint.
abbrev pub IsCheckpoint : Window → Dict ℕ → Result (Dict ℕ) → Type 0
IsCheckpoint w variables (ok variables') =
    (((dict_get w.cursor_key variables ≡ some w.next_cursor) × (variables' ≡ variables))
      ⊎ ((dict_get w.cursor_key variables ≡ w.expected_cursor)
          × (dict_get w.cursor_key variables' ≡ some w.next_cursor)))
    × ((j : Text) → (dict_get j variables' ≡ dict_get j variables) ⊎ (j ≡ w.cursor_key))
IsCheckpoint w variables (err e) =
    (e ≡ checkpoint_changed)
    × ¬ (dict_get w.cursor_key variables ≡ some w.next_cursor)
    × ¬ (dict_get w.cursor_key variables ≡ w.expected_cursor)

date_eq-eq : (c d : Option ℕ) → date_eq c d ≡ true → c ≡ d
date_eq-eq none none e = refl
date_eq-eq none (some n) e = ground arith
date_eq-eq (some m) none e = ground arith
date_eq-eq (some m) (some n) e = ground arith

date_eq-ne : (c d : Option ℕ) → date_eq c d ≡ false → ¬ (c ≡ d)
date_eq-ne c d e p = let same = date_eq_refl c in cc

set_elsewhere :
    (w : Window) (variables : Dict ℕ) (j : Text)
    → (dict_get j (dict_set w.cursor_key w.next_cursor variables) ≡ dict_get j variables)
      ⊎ (j ≡ w.cursor_key)
set_elsewhere w variables j = elim (Bool-cases (text_eq w.cursor_key j)) [
  | inl e ↦ inr (sym ((text_eq_iff w.cursor_key j).0 e))
  | inr e ↦ inl (dict_get-set w.cursor_key j w.next_cursor variables ∙ ground (arith, e))
]

-- A completion succeeds only if the checkpoint is already the window's next cursor, and then
-- nothing changes, or is the cursor that the window was planned at, and then it becomes the next
-- cursor and every other variable stays as it is. With any other checkpoint it is refused as
-- changed, and it is refused in no other case.
pub complete_window_checked :
    (w : Window) (variables : Dict ℕ) → IsCheckpoint w variables (complete_window w variables)
unfolding complete_window
complete_window_checked w variables =
    let current = dict_get w.cursor_key variables in
    elim (Bool-cases (date_eq current (some w.next_cursor))) [
      | inl e ↦ rw e (inl (date_eq-eq current (some w.next_cursor) e, refl), λ j. inl refl)
      | inr e ↦ (elim (Bool-cases (date_eq current w.expected_cursor)) [
        | inl f ↦
            rw (e, f)
              (
                inr (
                  date_eq-eq current w.expected_cursor f,
                  dict_get-set w.cursor_key w.cursor_key w.next_cursor variables
                      ∙ ground (arith, text_eq_refl w.cursor_key),
                ),
                set_elsewhere w variables,
              )
        | inr f ↦
            rw (e, f)
              (
                refl,
                date_eq-ne current (some w.next_cursor) e,
                date_eq-ne current w.expected_cursor f,
              )
      ])
    ]

module _ (calendar : Calendar) where
  -- One run: the window that is planned is published, and its checkpoint completed.
  unfoldable pub run_window : Option Window → Dict ℕ → Result (Dict ℕ)
  run_window none variables = ok variables
  run_window (some w) variables = complete_window w variables

  abbrev pub run_once : Text → Config → ℕ → Dict ℕ → Result (Dict ℕ)
  run_once connector_id cfg today variables =
      plan_window calendar connector_id cfg variables today >>= λ planned.
      run_window planned variables

  unfoldable pub runs : ℕ → Text → Config → ℕ → Dict ℕ → Result (Dict ℕ)
  unfolding run_window
  runs zero connector_id cfg today variables = ok variables
  runs (suc n) connector_id cfg today variables =
      run_once connector_id cfg today variables >>= λ next. runs n connector_id cfg today next

module _ (calendar : Calendar) (laws : IsCalendar calendar) where
  -- The days between the cursor and the boundary of its direction.
  abbrev pub distance : Bool → ℕ → ℕ → ℕ
  distance true cursor boundary = cursor - boundary
  distance false cursor boundary = boundary - cursor

  plan_window_at :
      (connector_id : Text) (cfg : Config) (variables : Dict ℕ) (today cursor boundary : ℕ)
      (delta : Delta)
      → dict_get (cursor_key connector_id cfg.table_name) variables ≡ some cursor
      → boundary_of cfg today ≡ ok boundary
      → parse_delta (or_default cfg.time_window_length (codes "1 month")) ≡ ok delta
      → plan_window calendar connector_id cfg variables today
        ≡ window_of calendar
            (is_backward cfg)
            delta
            cursor
            boundary
            (cursor_key connector_id cfg.table_name)
            (some cursor)
  unfolding plan_window first_cursor
  plan_window_at connector_id cfg variables today cursor boundary delta e f g = rw (e, f, g) refl

  distance_falls :
      (backward : Bool) (cursor boundary : ℕ) (w : Window)
      → IsBounded calendar laws backward cursor boundary w
      → distance backward w.next_cursor boundary < distance backward cursor boundary
  distance_falls true cursor boundary w (a, b, c, d) = omega arith
  distance_falls false cursor boundary w (a, b, c, d) = omega arith

  next-ne :
      (backward : Bool) (cursor boundary : ℕ) (w : Window)
      → IsBounded calendar laws backward cursor boundary w
      → date_eq (some cursor) (some w.next_cursor) ≡ false
  next-ne true cursor boundary w (a, b, c, d) = ground arith
  next-ne false cursor boundary w (a, b, c, d) = ground arith

  complete_window_at :
      (backward : Bool) (cursor boundary : ℕ) (key : Text) (w : Window) (variables : Dict ℕ)
      → dict_get key variables ≡ some cursor
      → IsWindow calendar laws backward cursor boundary key (some cursor) w
      → complete_window w variables ≡ ok (dict_set key w.next_cursor variables)
  unfolding complete_window
  complete_window_at backward cursor boundary key w variables e (bounded, at_key, expected) =
      rw
        (
          at_key,
          expected,
          e,
          next-ne backward cursor boundary w bounded,
          date_eq_refl (some cursor),
        )
        refl

  runs_idle :
      (n : ℕ) (connector_id : Text) (cfg : Config) (today : ℕ) (variables : Dict ℕ)
      → plan_window calendar connector_id cfg variables today ≡ ok none
      → runs calendar n connector_id cfg today variables ≡ ok variables
  unfolding runs run_window
  runs_idle zero connector_id cfg today variables e = refl
  runs_idle (suc n) connector_id cfg today variables e =
      rw e (runs_idle n connector_id cfg today variables e)

  abbrev Finishes : Text → Config → ℕ → ℕ → Dict ℕ → Type 0
  Finishes connector_id cfg today n variables =
      (last : Dict ℕ) × (runs calendar n connector_id cfg today variables ≡ ok last)
      × (plan_window calendar connector_id cfg last today ≡ ok none)

  Finishes-after :
      (n : ℕ) (connector_id : Text) (cfg : Config) (today : ℕ) (w : Window)
      (variables next : Dict ℕ)
      → plan_window calendar connector_id cfg variables today ≡ ok (some w)
      → complete_window w variables ≡ ok next
      → Finishes connector_id cfg today n next
      → Finishes connector_id cfg today (suc n) variables
  unfolding runs run_window
  Finishes-after n connector_id cfg today w variables next e f (last, g, h) = (last, rw (e, f) g, h)

  first_run :
      (connector_id : Text) (cfg : Config) (today boundary : ℕ) (delta : Delta)
      → boundary_of cfg today ≡ ok boundary
      → parse_delta (or_default cfg.time_window_length (codes "1 month")) ≡ ok delta
      → ((d : ℕ)
          → is_done (is_backward cfg) d boundary ≡ false
          → (r : ℕ) × (shifted calendar (is_backward cfg) delta d ≡ ok r))
      → (cursor : ℕ) (variables : Dict ℕ)
      → dict_get (cursor_key connector_id cfg.table_name) variables ≡ some cursor
      → (plan_window calendar connector_id cfg variables today ≡ ok none)
        ⊎ ((w : Window) × (plan_window calendar connector_id cfg variables today ≡ ok (some w))
            × (complete_window w variables
                ≡ ok (dict_set (cursor_key connector_id cfg.table_name) w.next_cursor variables))
            × (distance (is_backward cfg) w.next_cursor boundary
                < distance (is_backward cfg) cursor boundary))
  first_run connector_id cfg today boundary delta e f in_range cursor variables g =
      let key = cursor_key connector_id cfg.table_name in
      let planned = plan_window_at connector_id cfg variables today cursor boundary delta g e f in
      elim (window_of_cases calendar laws (is_backward cfg) delta cursor boundary key (some cursor)
        (parse_delta_positive (or_default cfg.time_window_length (codes "1 month")) delta f)) [
          | inl no_window ↦ inl (planned ∙ no_window)
          | inr (inl (w, is_w, window)) ↦ inr (
            w,
            planned ∙ is_w,
            complete_window_at (is_backward cfg) cursor boundary key w variables g window,
            distance_falls (is_backward cfg) cursor boundary w window.0,
          )
          | inr (inr (x, _, undone, out_of_range)) ↦
              (let (r, shift) = in_range cursor undone in
                absurd (ok-ne_err r x (sym shift ∙ out_of_range)))
        ]

  -- From a persisted cursor, with a boundary and a window length that are valid, shifts that stay
  -- in the range of dates from every date short of the boundary, and a calendar whose shifts by
  -- months move a date: as many runs as there are days between cursor and boundary, or more,
  -- succeed, and then no window is left to plan.
  pub runs_finish :
      (connector_id : Text) (cfg : Config) (today boundary : ℕ) (delta : Delta)
      → boundary_of cfg today ≡ ok boundary
      → parse_delta (or_default cfg.time_window_length (codes "1 month")) ≡ ok delta
      → ((d : ℕ)
          → is_done (is_backward cfg) d boundary ≡ false
          → (r : ℕ) × (shifted calendar (is_backward cfg) delta d ≡ ok r))
      → (n cursor : ℕ) (variables : Dict ℕ)
      → dict_get (cursor_key connector_id cfg.table_name) variables ≡ some cursor
      → distance (is_backward cfg) cursor boundary ≤ n
      → (last : Dict ℕ) × (runs calendar n connector_id cfg today variables ≡ ok last)
        × (plan_window calendar connector_id cfg last today ≡ ok none)
  runs_finish connector_id cfg today boundary delta e f in_range zero cursor variables g h =
      elim (first_run connector_id cfg today boundary delta e f in_range cursor variables g) [
        | inl done ↦ (variables, runs_idle zero connector_id cfg today variables done, done)
        | inr (w, planned, completed, falls) ↦ absurd (omega arith)
      ]
  runs_finish connector_id cfg today boundary delta e f in_range (suc n) cursor variables g h =
      elim (first_run connector_id cfg today boundary delta e f in_range cursor variables g) [
        | inl done ↦ (variables, runs_idle (suc n) connector_id cfg today variables done, done)
        | inr (w, planned, completed, falls) ↦
            (let key = cursor_key connector_id cfg.table_name in
              Finishes-after n connector_id cfg today w variables
                (dict_set key w.next_cursor variables) planned completed
                (runs_finish connector_id cfg today boundary delta e f in_range n w.next_cursor
                  (dict_set key w.next_cursor variables)
                  (dict_get-set key key w.next_cursor variables ∙ ground (arith, text_eq_refl key))
                  (omega arith)))
      ]
