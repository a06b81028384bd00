-- ===== src/Backfill/Examples.antt =====
-- Runs of the window theorems on a weekly plan with a checkpoint.
use nexus_spark_lib.Base.{
  false, ◌*◌, ltb, leb, if◌then◌else◌, ◌-◌, ◌<◌, Text, ℕ, ◌+◌, ◌-◌, ◌≡◌, refl, none, some, [], ◌∷◌,
  arith, codes, Dict, dict_get, text_eq, lower, to_lower,
}
use nexus_spark_lib.Backfill.Windows.{
  err, shifted, is_done, last_day, overflow_error, ok, Calendar, IsCalendar, days, Config, Window,
  cursor_key, first_cursor, boundary_of, plan_window, is_backward, complete_window, parse_delta,
  escape, split_words, pieces_delta, sized_delta, unit_delta, rstrip_s, int_of, digits, window_of,
  later_by,
}
use nexus_spark_lib.Backfill.Windows.Bounds.{IsBounded, plan_window-IsBounded}
use nexus_spark_lib.Backfill.Windows.Interleaved.{
  IsPlanned, complete_all, Ahead, complete_all-Ahead,
}
use nexus_spark_lib.Backfill.Windows.Checkpoint.{
  IsCheckpoint, complete_window_checked, runs, runs_finish,
}

-- A calendar of months of thirty days.
abbrev calendar : Calendar
calendar = record {
  add_months = λ n d. some (d + 30 * n);
  sub_months = λ n d. if ltb (30 * n) d then some (d - 30 * n) else none;
}

calendar-IsCalendar : IsCalendar calendar
calendar-IsCalendar = record {
  add_later = λ n d r h e. ground arith;
  sub_earlier = λ n d r h e. ground arith;
}

abbrev cfg : Config
cfg = record {
  table_name = some (codes "sales.orders");
  start_index = some 100;
  fill_direction = codes "forward";
  time_window_length = some (codes "2 weeks");
  fixed_date = some 130;
  overlap_buffer_days = none;
}

abbrev crm : Text
crm = codes "crm"

abbrev checkpoint : Dict ℕ
checkpoint = (cursor_key crm cfg.table_name, 105) ∷ []

abbrev window : Window
window = record {
  start = 105;
  end = 119;
  cursor_key = cursor_key crm cfg.table_name;
  expected_cursor = some 105;
  next_cursor = 119;
}

plan_window-IsBounded_example :
    IsBounded calendar calendar-IsCalendar (is_backward cfg) 105 130 window
unfolding cursor_key escape first_cursor boundary_of dict_get text_eq plan_window parse_delta
    split_words pieces_delta sized_delta unit_delta rstrip_s int_of digits lower to_lower window_of
    later_by
plan_window-IsBounded_example =
    plan_window-IsBounded calendar calendar-IsCalendar crm cfg checkpoint 200 105 130 window refl
      refl refl

complete_window_checked_example : IsCheckpoint window checkpoint (complete_window window checkpoint)
complete_window_checked_example = complete_window_checked window checkpoint

-- A window from a later run, from the checkpoint that the first one leaves.
abbrev later_checkpoint : Dict ℕ
later_checkpoint = (cursor_key crm cfg.table_name, 119) ∷ []

abbrev later_window : Window
later_window = record {
  start = 119;
  end = 130;
  cursor_key = cursor_key crm cfg.table_name;
  expected_cursor = some 119;
  next_cursor = 130;
}

abbrev at_key : Text
at_key = cursor_key crm cfg.table_name

window-IsPlanned : IsPlanned calendar calendar-IsCalendar false at_key window
unfolding cursor_key escape first_cursor boundary_of dict_get text_eq plan_window parse_delta
    split_words pieces_delta sized_delta unit_delta rstrip_s int_of digits lower to_lower window_of
    later_by
window-IsPlanned = (crm, cfg, checkpoint, 200, refl, refl, refl)

later_window-IsPlanned : IsPlanned calendar calendar-IsCalendar false at_key later_window
unfolding cursor_key escape first_cursor boundary_of dict_get text_eq plan_window parse_delta
    split_words pieces_delta sized_delta unit_delta rstrip_s int_of digits lower to_lower window_of
    later_by
later_window-IsPlanned = (crm, cfg, later_checkpoint, 200, refl, refl, refl)

-- The first window completes again after the later one.
complete_all-Ahead_example :
    (last : ℕ) × (dict_get at_key (complete_all (window ∷ later_window ∷ window ∷ []) checkpoint)
      ≡ some last)
    × Ahead false 105 last
unfolding dict_get text_eq cursor_key escape
complete_all-Ahead_example =
    complete_all-Ahead calendar calendar-IsCalendar false at_key
      (window ∷ later_window ∷ window ∷ []) checkpoint 105
      (window-IsPlanned, (later_window-IsPlanned, (window-IsPlanned, tt))) refl

in_range :
    (d : ℕ) → is_done false d 130 ≡ false → (r : ℕ) × (shifted calendar false (days 14) d ≡ ok r)
unfolding shifted later_by
in_range d e = (d + 14, shift (ground (arith, e)))
  where
    shift :
        d < 130 → (if leb (d + 14) last_day then ok (d + 14) else err overflow_error) ≡ ok (d + 14)
    shift h = ground arith

runs_finish_example :
    (last : Dict ℕ) × (runs calendar 25 crm cfg 200 checkpoint ≡ ok last)
    × (plan_window calendar crm cfg last 200 ≡ ok none)
unfolding cursor_key escape boundary_of dict_get text_eq parse_delta split_words pieces_delta
    sized_delta unit_delta rstrip_s int_of digits lower to_lower
runs_finish_example =
    runs_finish calendar calendar-IsCalendar crm cfg 200 130 (days 14) refl refl in_range 25 105
      checkpoint refl (omega arith)
