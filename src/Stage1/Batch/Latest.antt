-- ===== src/Stage1/Batch/Latest.antt =====
-- About the deduplication of a batch in transform/stage1_normalise.py.
use nexus_spark_lib.Base.{
  ap, ◌⊎◌, Text, ◌+◌, ◌≤◌, ◌≡◌, refl, inl, inr, true, false, Option, none, some, List, [], ◌∷◌,
  arith, any, count_of, if◌then◌else◌, text_eq_iff, text_ltb_irrefl, text_ltb_asym,
  text_ltb_negtrans, All, All-map_lem, Among, Bool-cases, ◌↔◌,
}
use nexus_spark_lib.Stage1.Batch.{texts_eq, later_ts, same_key, later, keep_latest, deduplicate}

texts_eq_refl : (s : List Text) → texts_eq s s ≡ true
unfolding texts_eq
texts_eq_refl [] = refl
texts_eq_refl (t ∷ s) = ground (arith, text_eq_iff t t, texts_eq_refl s)

texts_eq→eq : (s t : List Text) → texts_eq s t ≡ true → s ≡ t
unfolding texts_eq
texts_eq→eq [] [] h = refl
texts_eq→eq [] (b ∷ t) h = cc
texts_eq→eq (a ∷ s) [] h = cc
texts_eq→eq (a ∷ s) (b ∷ t) h = ground (arith, text_eq_iff a b, texts_eq→eq s t)

texts_eq_iff : (s t : List Text) → (texts_eq s t ≡ true) ↔ (s ≡ t)
texts_eq_iff s t = (texts_eq→eq s t, λ e. rw e (texts_eq_refl t))

later_ts_irrefl : (a : Option Text) → later_ts a a ≡ false
unfolding later_ts
later_ts_irrefl none = refl
later_ts_irrefl (some a) = text_ltb_irrefl a

later_ts_asym : (a b : Option Text) → later_ts a b ≡ true → later_ts b a ≡ false
unfolding later_ts
later_ts_asym none b h = cc
later_ts_asym (some a) none h = refl
later_ts_asym (some a) (some b) h = text_ltb_asym b a h

later_ts_negtrans :
    (a b c : Option Text) → later_ts a b ≡ false → later_ts b c ≡ false → later_ts a c ≡ false
unfolding later_ts
later_ts_negtrans none b c h k = refl
later_ts_negtrans (some a) none c h k = cc
later_ts_negtrans (some a) (some b) none h k = cc
later_ts_negtrans (some a) (some b) (some c) h k = text_ltb_negtrans c b a k h

module _ {R : Type 0} (key : R → List Text) (source_ts : R → Option Text) where
  abbrev keeps : List R → List R
  keeps = deduplicate key source_ts

  -- No two rows of the list have equal keys.
  abbrev IsDistinct : List R → Type 0
  IsDistinct ds = (x : R) → count_of (same_key key source_ts x) ds ≤ 1

  count-keep_latest :
      (r x : R) (ds : List R)
      → count_of (same_key key source_ts x) (keep_latest key source_ts r ds) ≡ (
          if any (same_key key source_ts r) ds
          then count_of (same_key key source_ts x) ds
          else (if same_key key source_ts x r then 1 else 0)
            + count_of (same_key key source_ts x) ds)
  unfolding keep_latest count_of any
  count-keep_latest r x [] = refl
  count-keep_latest r x (d ∷ ds) = ground (
    arith,
    texts_eq_iff (key r) (key d),
    texts_eq_iff (key x) (key d),
    texts_eq_iff (key x) (key r),
    count-keep_latest r x ds,
  )

  count-absent :
      (r : R) (ds : List R)
      → any (same_key key source_ts r) ds ≡ false
      → count_of (same_key key source_ts r) ds ≡ 0
  unfolding any count_of
  count-absent r [] h = refl
  count-absent r (d ∷ ds) h = ground (arith, count-absent r ds)

  keep_latest-IsDistinct :
      (r : R) (ds : List R) → IsDistinct ds → IsDistinct (keep_latest key source_ts r ds)
  keep_latest-IsDistinct r ds h x = ground (
    arith,
    count-keep_latest r x ds,
    texts_eq_iff (key x) (key r),
    count-absent r ds,
    same_counts r x ds,
    h x,
  )
    where
      same_counts :
          (r x : R) (ds : List R)
          → texts_eq (key x) (key r) ≡ true
          → count_of (same_key key source_ts x) ds ≡ count_of (same_key key source_ts r) ds
      same_counts r x ds e =
          ap (λ k. count_of (λ d. texts_eq k (key d)) ds) (texts_eq→eq (key x) (key r) e)

  deduplicate-IsDistinct : (rows : List R) → IsDistinct (keeps rows)
  unfolding deduplicate count_of
  deduplicate-IsDistinct [] x = omega arith
  deduplicate-IsDistinct (r ∷ rows) x =
      keep_latest-IsDistinct r (keeps rows) (deduplicate-IsDistinct rows) x

  -- A row of the list has the key of `x`, and no row with that key is earlier than `x`.
  abbrev Holds : R → List R → Type 0
  Holds x [] = ⊥
  Holds x (d ∷ ds) =
      ((same_key key source_ts x d ≡ true) × (later key source_ts x d ≡ false)) ⊎ Holds x ds

  Holds-keep_latest_self : (r : R) (ds : List R) → Holds r (keep_latest key source_ts r ds)
  unfolding keep_latest
  Holds-keep_latest_self r [] = inl (texts_eq_refl (key r), later_ts_irrefl (source_ts r))
  Holds-keep_latest_self r (d ∷ ds) = elim (Bool-cases (same_key key source_ts r d)) [
    | inl e ↦ elim (Bool-cases (later key source_ts d r)) [
      | inl l ↦ rw (e, l) (inl (e, later_ts_asym (source_ts d) (source_ts r) l))
      | inr l ↦ rw (e, l) (inl (texts_eq_refl (key r), later_ts_irrefl (source_ts r)))
    ]
    | inr e ↦ rw e (inr (Holds-keep_latest_self r ds))
  ]

  Holds-keep_latest :
      (r x : R) (ds : List R) → Holds x ds → Holds x (keep_latest key source_ts r ds)
  unfolding keep_latest
  Holds-keep_latest r x [] h = absurd h
  Holds-keep_latest r x (d ∷ ds) (inl (same, l)) = elim (Bool-cases (same_key key source_ts r d)) [
    | inl e ↦ elim (Bool-cases (later key source_ts d r)) [
      | inl k ↦ rw (e, k) (inl (same, l))
      | inr k ↦
          rw (e, k)
            (inl (
              ground (
                arith,
                texts_eq_iff (key r) (key d),
                texts_eq_iff (key x) (key d),
                texts_eq_iff (key x) (key r),
              ),
              later_ts_negtrans (source_ts x) (source_ts d) (source_ts r) l k,
            ))
    ]
    | inr e ↦ rw e (inl (same, l))
  ]
  Holds-keep_latest r x (d ∷ ds) (inr h) = elim (Bool-cases (same_key key source_ts r d)) [
    | inl e ↦ rw e (inr h)
    | inr e ↦ rw e (inr (Holds-keep_latest r x ds h))
  ]

  deduplicate-Holds : (rows : List R) → All (λ x. Holds x (keeps rows)) rows
  unfolding deduplicate
  deduplicate-Holds [] = tt
  deduplicate-Holds (r ∷ rows) = (
    Holds-keep_latest_self r (keeps rows),
    All-map_lem (λ x. Holds x (keeps rows)) (λ x. Holds x (keeps (r ∷ rows))) rows
        (λ x h. Holds-keep_latest r x (keeps rows) h) (deduplicate-Holds rows),
  )

  count-Holds : (x : R) (ds : List R) → Holds x ds → 1 ≤ count_of (same_key key source_ts x) ds
  unfolding count_of
  count-Holds x [] h = absurd h
  count-Holds x (d ∷ ds) (inl (same, l)) = ground arith
  count-Holds x (d ∷ ds) (inr h) = omega (arith, count-Holds x ds h)

  All-keep_latest :
      (P : R → Type 0) (r : R) (ds : List R)
      → P r
      → All P ds
      → All P (keep_latest key source_ts r ds)
  unfolding keep_latest
  All-keep_latest P r [] p h = (p, tt)
  All-keep_latest P r (d ∷ ds) p h = elim (Bool-cases (same_key key source_ts r d)) [
    | inl e ↦ elim (Bool-cases (later key source_ts d r)) [
      | inl l ↦ rw (e, l) h
      | inr l ↦ rw (e, l) (p, h.1)
    ]
    | inr e ↦ rw e (h.0, All-keep_latest P r ds p h.1)
  ]

  deduplicate-Among : (rows : List R) → All (λ d. Among d rows) (keeps rows)
  unfolding deduplicate
  deduplicate-Among [] = tt
  deduplicate-Among (r ∷ rows) =
      All-keep_latest (λ d. Among d (r ∷ rows)) r (keeps rows) (inl refl)
        (All-map_lem (λ d. Among d rows) (λ d. Among d (r ∷ rows)) (keeps rows) (λ d m. inr m)
          (deduplicate-Among rows))

  -- What is kept of a batch: rows of it, one for each key, and none that is earlier than another
  -- row with its key.
  pub record IsDeduplicated (rows kept : List R) : Type 0 where
    pub among : All (λ d. Among d rows) kept
    pub single : All (λ x. count_of (same_key key source_ts x) kept ≡ 1) rows
    pub latest : All (λ x. Holds x kept) rows

  -- What deduplication keeps are rows of the batch; every row's key is the key of exactly one of
  -- them, and that one is not earlier than the row, where a row without a time is earlier than one
  -- with a time.
  pub deduplicate-IsDeduplicated : (rows : List R) → IsDeduplicated rows (keeps rows)
  deduplicate-IsDeduplicated rows = record {
    among = deduplicate-Among rows;
    single =
        All-map_lem (λ x. Holds x (keeps rows))
          (λ x. count_of (same_key key source_ts x) (keeps rows) ≡ 1) rows
          (λ x h. omega (arith, count-Holds x (keeps rows) h, deduplicate-IsDistinct rows x))
          (deduplicate-Holds rows);
    latest = deduplicate-Holds rows;
  }
