-- ===== src/Backfill/Windows.antt =====
-- nexus_spark_lib/backfill_windows.py: bounded extraction windows and their checkpoint. A date is
-- the number of its day; its ISO text stands for it one to one.
pub mod Bounds
pub mod Checkpoint
pub mod Interleaved
use Prim.Native.Nat.{min, max}
use nexus_spark_lib.Base.{
  ◌≡◌, Text, ℕ, zero, suc, ◌+◌, ◌-◌, ◌*◌, ◌<◌, ◌≤◌, Bool, true, false, ◌&&◌, ◌||◌, Option, none,
  some, List, [], ◌∷◌, ◌++◌, codes, if◌then◌else◌, ltb, leb, ◌==◌, text_eq, is_space, lower, Dict,
  dict_get, dict_set, or_default,
}

pub data Error : Type 0 where
  value_error type_error overflow_error checkpoint_changed : Error

pub data Result (A : Type 0) : Type 0 where
  ok : A → Result A
  err : Error → Result A

infixl 5 ◌>>=◌
abbrev pub ◌>>=◌ : {A B : Type 0} → Result A → (A → Result B) → Result B
ok a >>= f = f a
err e >>= f = err e

-- What the code takes from dateutil: shifts by whole months, strictly forward and backward, which
-- are `none` where the year is out of range.
pub record Calendar : Type 0 where
  pub add_months : ℕ → ℕ → Option ℕ
  pub sub_months : ℕ → ℕ → Option ℕ

pub record IsCalendar (c : Calendar) : Type 0 where
  pub add_later : (n d r : ℕ) → 0 < n → c.add_months n d ≡ some r → d < r
  pub sub_earlier : (n d r : ℕ) → 0 < n → c.sub_months n d ≡ some r → r < d

-- A window length: so many days or so many months.
pub data Delta : Type 0 where
  days : ℕ → Delta
  months : ℕ → Delta

-- s.split(): the words; `word` is the one being read.
unfoldable pub split_words : Text → Text → List Text
split_words [] [] = []
split_words (w ∷ word) [] = (w ∷ word) ∷ []
split_words [] (c ∷ s) = if is_space c then split_words [] s else split_words (c ∷ []) s
split_words (w ∷ word) (c ∷ s) =
    let rest = split_words [] s in
    let more = split_words ((w ∷ word) ++ c ∷ []) s in
    if is_space c then (w ∷ word) ∷ rest else more

-- int(s) of a text of digits.
unfoldable pub digits : ℕ → Text → Option ℕ
digits n [] = some n
digits n (c ∷ s) =
    let rest = digits (n * 10 + (c - 48)) s in if leb 48 c && leb c 57 then rest else none

unfoldable pub int_of : Text → Option ℕ
unfolding digits
int_of [] = none
int_of (c ∷ s) = digits 0 (c ∷ s)

-- s.rstrip("s")
unfoldable pub rstrip_s : Text → Text
rstrip_s [] = []
rstrip_s (c ∷ s) = elim (rstrip_s s) [
  | [] ↦ (if c == b's' then [] else c ∷ [])
  | d ∷ rest ↦ c ∷ d ∷ rest
]

unfoldable pub unit_delta : ℕ → Text → Result Delta
unit_delta size word =
    if text_eq word (codes "month")
    then ok (months size)
    else if text_eq word (codes "quarter")
    then ok (months (3 * size))
    else if text_eq word (codes "week")
    then ok (days (7 * size))
    else if text_eq word (codes "day")
    then ok (days size)
    else err value_error

unfoldable pub sized_delta : Option ℕ → Text → Result Delta
sized_delta none word = err value_error
sized_delta (some size) word = if ltb size 1 then err value_error else unit_delta size word

unfoldable pub pieces_delta : List Text → Result Delta
unfolding sized_delta unit_delta rstrip_s int_of
pieces_delta (size ∷ word ∷ []) = sized_delta (int_of size) (rstrip_s word)
pieces_delta other = err value_error

-- `_delta`
unfoldable pub parse_delta : Text → Result Delta
unfolding pieces_delta split_words lower
parse_delta length = pieces_delta (split_words [] (lower length))

-- One row of transaction_backfill_configs. A key that the row lacks is `none`; a NULL buffer is
-- `some none`.
pub record Config : Type 0 where
  pub table_name : Option Text
  pub start_index : Option ℕ
  pub fill_direction : Text
  pub time_window_length : Option Text
  pub fixed_date : Option ℕ
  pub overlap_buffer_days : Option (Option ℕ)

pub record Window : Type 0 where
  pub start : ℕ
  pub end : ℕ
  pub cursor_key : Text
  pub expected_cursor : Option ℕ
  pub next_cursor : ℕ

-- s.replace(c, "__")
unfoldable pub escape : Text → Text
escape [] = []
escape (c ∷ s) = if c == b'.' || c == b'/' then b'_' ∷ b'_' ∷ escape s else c ∷ escape s

unfoldable pub cursor_key : Text → Option Text → Text
unfolding escape
cursor_key connector_id none = codes "bf__" ++ (connector_id ++ codes "__cursor")
cursor_key connector_id (some []) = codes "bf__" ++ (connector_id ++ codes "__cursor")
cursor_key connector_id (some (c ∷ name)) =
    codes "bf__" ++ (connector_id ++ (codes "__cursor" ++ (codes "__" ++ escape (c ∷ name))))

abbrev pub is_backward : Config → Bool
is_backward cfg =
    text_eq cfg.fill_direction (codes "backward")
    || text_eq cfg.fill_direction (codes "newest_to_oldest")

-- date - timedelta(days=n): day 1 is the first.
unfoldable pub minus_days : ℕ → ℕ → Result ℕ
minus_days d n = if ltb n d then ok (d - n) else err overflow_error

unfoldable pub first_cursor : Config → Option ℕ → ℕ → Result ℕ
unfolding minus_days
first_cursor cfg (some persisted) today = ok persisted
first_cursor cfg none today = elim cfg.start_index [
  | some initial ↦ ok initial
  | none ↦ (if is_backward cfg then ok today else minus_days today 7300)
]

-- int(cfg.get("overlap_buffer_days", 3)): the default stands in for a missing key alone.
unfoldable pub buffer_days : Option (Option ℕ) → Result ℕ
buffer_days none = ok 3
buffer_days (some none) = err type_error
buffer_days (some (some n)) = ok n

unfoldable pub boundary_of : Config → ℕ → Result ℕ
unfolding minus_days buffer_days
boundary_of cfg today = elim cfg.fixed_date [
  | some date ↦ ok date
  | none ↦ (buffer_days cfg.overlap_buffer_days >>= λ buffer. minus_days today buffer)
]

-- date.max
abbrev pub last_day : ℕ
last_day = 3652059

abbrev pub is_done : Bool → ℕ → ℕ → Bool
is_done true cursor boundary = leb cursor boundary
is_done false cursor boundary = leb boundary cursor

-- The window from the cursor to the shifted date, or to the boundary if that is nearer.
unfoldable pub window_to : Bool → ℕ → ℕ → Text → Option ℕ → ℕ → Window
window_to true cursor boundary key persisted far = record {
  start = max far boundary;
  end = cursor;
  cursor_key = key;
  expected_cursor = persisted;
  next_cursor = max far boundary;
}
window_to false cursor boundary key persisted far = record {
  start = cursor;
  end = min far boundary;
  cursor_key = key;
  expected_cursor = persisted;
  next_cursor = min far boundary;
}

module _ (calendar : Calendar) where
  abbrev pub month_shift : Option ℕ → Result ℕ
  month_shift none = err value_error
  month_shift (some d) = ok d

  unfoldable pub later_by : Delta → ℕ → Result ℕ
  later_by (days n) d = if leb (d + n) last_day then ok (d + n) else err overflow_error
  later_by (months n) d = month_shift (calendar.add_months n d)

  unfoldable pub earlier_by : Delta → ℕ → Result ℕ
  unfolding minus_days
  earlier_by (days n) d = minus_days d n
  earlier_by (months n) d = month_shift (calendar.sub_months n d)

  -- cursor - delta, or cursor + delta
  unfoldable pub shifted : Bool → Delta → ℕ → Result ℕ
  unfolding later_by earlier_by
  shifted true delta cursor = earlier_by delta cursor
  shifted false delta cursor = later_by delta cursor

  -- The branch on the direction: None is a plan that is finished.
  unfoldable pub window_of : Bool → Delta → ℕ → ℕ → Text → Option ℕ → Result (Option Window)
  unfolding shifted window_to
  window_of backward delta cursor boundary key persisted =
      if is_done backward cursor boundary
      then ok none
      else (shifted backward delta cursor >>= λ far.
          ok (some (window_to backward cursor boundary key persisted far)))

  unfoldable pub plan_window : Text → Config → Dict ℕ → ℕ → Result (Option Window)
  unfolding first_cursor boundary_of parse_delta window_of
  plan_window connector_id cfg variables today = do
    let key = cursor_key connector_id cfg.table_name
    let persisted = dict_get key variables
    cursor ← first_cursor cfg persisted today
    boundary ← boundary_of cfg today
    delta ← parse_delta (or_default cfg.time_window_length (codes "1 month"))
    window_of (is_backward cfg) delta cursor boundary key persisted

abbrev pub date_eq : Option ℕ → Option ℕ → Bool
date_eq none none = true
date_eq (some a) (some b) = a == b
date_eq _ _ = false

-- The checkpoint moves only from the cursor that the window was planned at.
unfoldable pub complete_window : Window → Dict ℕ → Result (Dict ℕ)
complete_window w variables =
    if date_eq (dict_get w.cursor_key variables) (some w.next_cursor)
    then ok variables
    else if date_eq (dict_get w.cursor_key variables) w.expected_cursor
    then ok (dict_set w.cursor_key w.next_cursor variables)
    else err checkpoint_changed
