-- ===== src/Backfill/Windows/Interleaved.antt =====
-- About completions of planned windows in any order: `plan_window` and `complete_window` of
-- backfill_windows.py, with runs that overlap.
use nexus_spark_lib.Base.{
  Text, ℕ, ◌≤◌, ◌≡◌, refl, sym, subst, ◌∙◌, inl, inr, Bool, true, false, Option, none, some, List,
  [], ◌∷◌, All, arith, codes, Dict, dict_get, or_default,
}
use nexus_spark_lib.Backfill.Windows.{
  ◌>>=◌, Result, ok, err, Calendar, IsCalendar, Delta, Window, Config, window_of, complete_window,
  parse_delta, plan_window, cursor_key, first_cursor, boundary_of, is_backward,
}
use nexus_spark_lib.Backfill.Windows.Bounds.{
  window_inj, none-ne_window, err-ne_window, window_of_cases, IsWindow, IsBounded,
  parse_delta_positive,
}
use nexus_spark_lib.Backfill.Windows.Checkpoint.{IsCheckpoint, complete_window_checked}

-- A completion that is refused leaves the variables as they were.
abbrev pub after : Result (Dict ℕ) → Dict ℕ → Dict ℕ
after (ok next) variables = next
after (err e) variables = variables

-- Completions one after another, whenever their windows were planned.
unfoldable pub complete_all : List Window → Dict ℕ → Dict ℕ
complete_all [] variables = variables
complete_all (w ∷ windows) variables =
    complete_all windows (after (complete_window w variables) variables)

-- A backfill in this direction has come at least as far as from `c` to `d`.
abbrev pub Ahead : Bool → ℕ → ℕ → Type 0
Ahead true c d = d ≤ c
Ahead false c d = c ≤ d

Ahead-refl : (backward : Bool) (c : ℕ) → Ahead backward c c
Ahead-refl true c = omega arith
Ahead-refl false c = omega arith

Ahead-trans :
    (backward : Bool) (c d e : ℕ) → Ahead backward c d → Ahead backward d e → Ahead backward c e
Ahead-trans true c d e h k = omega arith
Ahead-trans false c d e h k = omega arith

some_eq : (m n : ℕ) → some m ≡ some n → m ≡ n
some_eq m n e = cc

ok_eq : (m n : ℕ) → ok m ≡ ok n → m ≡ n
ok_eq m n e = cc

-- A window for this key whose next cursor is ahead of the cursor that it was planned at.
abbrev IsAhead : Bool → Text → Window → Type 0
IsAhead backward key w =
    (w.cursor_key ≡ key) × ((c : ℕ) → w.expected_cursor ≡ some c → Ahead backward c w.next_cursor)

-- One completion does not move the checkpoint back.
complete_window-Ahead :
    (backward : Bool) (key : Text) (w : Window) (variables : Dict ℕ) (cursor : ℕ)
    → IsAhead backward key w
    → dict_get key variables ≡ some cursor
    → (next : ℕ) × (dict_get key (after (complete_window w variables) variables) ≡ some next)
      × Ahead backward cursor next
complete_window-Ahead backward key w variables cursor (at_key, ahead) e =
    of_result (complete_window w variables) (complete_window_checked w variables)
  where
    at : dict_get w.cursor_key variables ≡ some cursor
    at = subst (λ k. dict_get k variables ≡ some cursor) (sym at_key) e

    of_result :
        (o : Result (Dict ℕ))
        → IsCheckpoint w variables o
        → (next : ℕ) × (dict_get key (after o variables) ≡ some next) × Ahead backward cursor next
    of_result (err x) h = (cursor, e, Ahead-refl backward cursor)
    of_result (ok next) (inl (_, same), _) =
        (cursor, subst (λ d. dict_get key d ≡ some cursor) (sym same) e, Ahead-refl backward cursor)
    of_result (ok next) (inr (planned, moved), _) = (
      w.next_cursor,
      subst (λ k. dict_get k next ≡ some w.next_cursor) at_key moved,
      ahead cursor (sym planned ∙ at),
    )

complete_all-IsAhead :
    (backward : Bool) (key : Text) (windows : List Window) (variables : Dict ℕ) (cursor : ℕ)
    → All (IsAhead backward key) windows
    → dict_get key variables ≡ some cursor
    → (last : ℕ) × (dict_get key (complete_all windows variables) ≡ some last)
      × Ahead backward cursor last
unfolding complete_all
complete_all-IsAhead backward key [] variables cursor h e = (cursor, e, Ahead-refl backward cursor)
complete_all-IsAhead backward key (w ∷ windows) variables cursor h e =
    let (next, at_next, ahead) = complete_window-Ahead backward key w variables cursor h.0 e in
    let (last, at_last, more) =
      complete_all-IsAhead backward key windows (after (complete_window w variables) variables) next
        h.1 at_next in
    (last, at_last, Ahead-trans backward cursor next last ahead more)

module _ (calendar : Calendar) (laws : IsCalendar calendar) where
  -- A window that some run has planned for this key and direction, at whatever variables, day and
  -- configuration.
  abbrev pub IsPlanned : Bool → Text → Window → Type 0
  IsPlanned backward key w =
      (connector_id : Text) × (cfg : Config) × (variables : Dict ℕ) × (today : ℕ) × (cursor_key
          connector_id cfg.table_name
        ≡ key)
      × (is_backward cfg ≡ backward)
      × (plan_window calendar connector_id cfg variables today ≡ ok (some w))

  Ahead-next_cursor :
      (backward : Bool) (cursor boundary : ℕ) (w : Window)
      → IsBounded calendar laws backward cursor boundary w
      → Ahead backward cursor w.next_cursor
  Ahead-next_cursor true cursor boundary w (a, b, c, d) = omega arith
  Ahead-next_cursor false cursor boundary w (a, b, c, d) = omega arith

  first_cursor_persisted :
      (cfg : Config) (persisted : Option ℕ) (today cursor c : ℕ)
      → persisted ≡ some c
      → first_cursor cfg persisted today ≡ ok cursor
      → c ≡ cursor
  unfolding first_cursor
  first_cursor_persisted cfg none today cursor c e f = absurd cc
  first_cursor_persisted cfg (some p) today cursor c e f =
      ok_eq c cursor (sym (subst (λ x. ok x ≡ ok c) (some_eq c p (sym e)) refl) ∙ f)

  -- The next cursor of a plan is ahead of a cursor that it was planned at.
  plan_window-IsAhead :
      (connector_id : Text) (cfg : Config) (variables : Dict ℕ) (today : ℕ) (w : Window)
      → plan_window calendar connector_id cfg variables today ≡ ok (some w)
      → IsAhead (is_backward cfg) (cursor_key connector_id cfg.table_name) w
  unfolding plan_window
  plan_window-IsAhead connector_id cfg variables today w e =
      of_parts (first_cursor cfg (dict_get key variables) today) (boundary_of cfg today)
        (parse_delta (or_default cfg.time_window_length (codes "1 month"))) refl refl e
    where
      key : Text
      key = cursor_key connector_id cfg.table_name

      persisted : Option ℕ
      persisted = dict_get key variables

      of_window :
          (cursor boundary : ℕ) (v : Window)
          → first_cursor cfg persisted today ≡ ok cursor
          → IsWindow calendar laws (is_backward cfg) cursor boundary key persisted v
          → IsAhead (is_backward cfg) key v
      of_window cursor boundary v f (bounded, at_key, expected) = (
        at_key,
        λ c g.
            subst (λ d. Ahead (is_backward cfg) d v.next_cursor)
              (sym (first_cursor_persisted cfg persisted today cursor c (sym expected ∙ g) f))
              (Ahead-next_cursor (is_backward cfg) cursor boundary v bounded),
      )

      of_parts :
          (c b : Result ℕ) (d : Result Delta)
          → first_cursor cfg persisted today ≡ c
          → parse_delta (or_default cfg.time_window_length (codes "1 month")) ≡ d
          → (c >>= λ cursor. b >>= λ boundary. d >>= λ delta.
              window_of calendar (is_backward cfg) delta cursor boundary key persisted)
            ≡ ok (some w)
          → IsAhead (is_backward cfg) key w
      of_parts (err x) b d f g h = absurd (err-ne_window x w h)
      of_parts (ok cursor) (err x) d f g h = absurd (err-ne_window x w h)
      of_parts (ok cursor) (ok boundary) (err x) f g h = absurd (err-ne_window x w h)
      of_parts (ok cursor) (ok boundary) (ok delta) f g h =
          elim (window_of_cases calendar laws (is_backward cfg) delta cursor boundary key persisted
            (parse_delta_positive (or_default cfg.time_window_length (codes "1 month")) delta g)) [
              | inl none_left ↦ absurd (none-ne_window w (sym none_left ∙ h))
              | inr (inl (v, is_v, window)) ↦
                  subst (IsAhead (is_backward cfg) key) (window_inj v w (sym is_v ∙ h))
                    (of_window cursor boundary v f window)
              | inr (inr (x, fails, _, _)) ↦ absurd (err-ne_window x w (sym fails ∙ h))
            ]

  IsPlanned-IsAhead :
      (backward : Bool) (key : Text) (w : Window)
      → IsPlanned backward key w
      → IsAhead backward key w
  IsPlanned-IsAhead backward key w (connector_id, cfg, variables, today, e, f, g) =
      subst (λ b. IsAhead b key w) f
        (subst (λ k. IsAhead (is_backward cfg) k w) e
          (plan_window-IsAhead connector_id cfg variables today w g))

  All-IsAhead :
      (backward : Bool) (key : Text) (windows : List Window)
      → All (IsPlanned backward key) windows
      → All (IsAhead backward key) windows
  All-IsAhead backward key [] h = tt
  All-IsAhead backward key (w ∷ windows) h =
      (IsPlanned-IsAhead backward key w h.0, All-IsAhead backward key windows h.1)

  -- Windows that were planned for one checkpoint and one direction, by whatever runs and at
  -- whatever variables, may be completed in any order, some of them several times, and completions
  -- that are refused skipped: the checkpoint never moves back, with a calendar whose shifts by
  -- months move a date.
  pub complete_all-Ahead :
      (backward : Bool) (key : Text) (windows : List Window) (variables : Dict ℕ) (cursor : ℕ)
      → All (IsPlanned backward key) windows
      → dict_get key variables ≡ some cursor
      → (last : ℕ) × (dict_get key (complete_all windows variables) ≡ some last)
        × Ahead backward cursor last
  complete_all-Ahead backward key windows variables cursor h e =
      complete_all-IsAhead backward key windows variables cursor
        (All-IsAhead backward key windows h) e
