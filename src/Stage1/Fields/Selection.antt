-- ===== src/Stage1/Fields/Selection.antt =====
-- About the loop of `_normalise_payload` of transform/stage1_normalise.py: which source field a
-- canonical attribute gets.
use nexus_spark_lib.Base.{
  All-get, Text, ◌≡◌, refl, inl, inr, Bool, true, false, Option, none, some, List, [], ◌∷◌, arith,
  keep, if◌then◌else◌, text_eq, text_eq_iff, text_eq_refl, text_ltb, text_ltb_irrefl, text_ltb_asym,
  text_ltb_negtrans, text_ltb_trans, sort_by, dict_get, dict_get-set, All, Among, Bool-cases,
  challenge, strongest, strongest_total, strongest_unbeaten, Reordered, sort_by-Reordered, ap,
  All-keep, All-of_keep, All-of_sort_by, All-sort_by, All-Among,
}
use nexus_spark_lib.Stage1.Values.{Python}
use nexus_spark_lib.Stage1.Fields.{
  FieldMap, FxConvert, NormalisedEntry, Priority, Item, Selected, nothing_selected,
  normalised_entry, candidate_priority, select_mapped, cdm_attr_of, select_items, key_before,
  normalise_payload,
}

abbrev attr_is : Option Text → Text → Bool
attr_is none a = false
attr_is (some b) a = text_eq b a

module _ (py : Python) (fx_rates : Option FxConvert) (source_ts : Option Text)
    (field_map : FieldMap) (a : Text) where
  abbrev pub maps : Item → Bool
  maps item = attr_is (cdm_attr_of field_map item) a

  abbrev pub priority : Item → Priority
  priority = candidate_priority py fx_rates source_ts field_map a

  abbrev pub entry : Item → NormalisedEntry
  entry = normalised_entry py fx_rates source_ts field_map a

  -- x comes before y.
  abbrev pub outranking : Item → Item → Bool
  outranking x y = text_ltb (priority y) (priority x)

  abbrev entry_of : Option Item → Option NormalisedEntry
  entry_of none = none
  entry_of (some x) = some (entry x)

  abbrev priority_of : Option Item → Option Priority
  priority_of none = none
  priority_of (some x) = some (priority x)

  -- What the dictionaries hold of the attribute is the item `best`.
  record Tracks (st : Selected) (best : Option Item) : Type 0 where
    pub at_fields : dict_get a st.fields ≡ entry_of best
    pub at_priorities : dict_get a st.priorities ≡ priority_of best

  select_self-Tracks :
      (x : Item) (st : Selected) (best : Option Item)
      → Tracks st best
      → Tracks
          (select_mapped py fx_rates source_ts field_map (some a) x st)
          (challenge outranking x best)
  select_self-Tracks x st none t = ground (
    arith,
    dict_get-set a a (entry x) st.fields,
    dict_get-set a a (priority x) st.priorities,
    text_eq_refl a,
  )
  select_self-Tracks x st (some y) t = ground (
    arith,
    dict_get-set a a (entry x) st.fields,
    dict_get-set a a (priority x) st.priorities,
    text_eq_refl a,
  )

  select_other-Tracks :
      (b : Text) (x : Item) (st : Selected) (best : Option Item)
      → text_eq b a ≡ false
      → Tracks st best
      → Tracks (select_mapped py fx_rates source_ts field_map (some b) x st) best
  select_other-Tracks b x st best e t = ground (
    arith,
    dict_get-set b a (normalised_entry py fx_rates source_ts field_map b x) st.fields,
    dict_get-set b a (candidate_priority py fx_rates source_ts field_map b x) st.priorities,
  )

  select_mapped-Tracks :
      (o : Option Text) (x : Item) (st : Selected) (best : Option Item)
      → Tracks st best
      → Tracks
          (select_mapped py fx_rates source_ts field_map o x st)
          (if attr_is o a then challenge outranking x best else best)
  select_mapped-Tracks none x st best t = record {
    at_fields = t.at_fields;
    at_priorities = t.at_priorities;
  }
  select_mapped-Tracks (some b) x st best t = elim (Bool-cases (text_eq b a)) [
    | inl e ↦ rw (e, (text_eq_iff b a).0 e) (select_self-Tracks x st best t)
    | inr e ↦ rw e (select_other-Tracks b x st best e t)
  ]

  -- The loop leaves the strongest of the items that are mapped to the attribute.
  select_items-Tracks :
      (xs : List Item) (st : Selected) (best : Option Item)
      → Tracks st best
      → Tracks
          (select_items py fx_rates source_ts field_map xs st)
          (strongest outranking (keep maps xs) best)
  unfolding select_items keep strongest
  select_items-Tracks [] st best t = t
  select_items-Tracks (x ∷ xs) st best t =
      let step = select_mapped-Tracks (cdm_attr_of field_map x) x st best t in
      elim (Bool-cases (maps x)) [
        | inl e ↦ rw e (select_items-Tracks xs _ (challenge outranking x best) (rw e at step))
        | inr e ↦ rw e (select_items-Tracks xs _ best (rw e at step))
      ]

  abbrev sorted : List Item → List Item
  sorted = sort_by key_before

  abbrev winner : List Item → Option Item
  winner payload = strongest outranking (keep maps (sorted payload)) none

  normalise_payload-Tracks :
      (payload : List Item)
      → Tracks (normalise_payload py fx_rates source_ts field_map payload) (winner payload)
  unfolding normalise_payload dict_get
  normalise_payload-Tracks payload =
      select_items-Tracks (sorted payload) nothing_selected none
        (record { at_fields = refl; at_priorities = refl })

  -- An item of the payload that is mapped to the attribute, with no such item ahead of it.
  pub record IsWinner (payload : List Item) (x : Item) : Type 0 where
    pub among : Among x payload
    pub mapped : maps x ≡ true
    pub unbeaten : All (λ y. maps y ≡ true → outranking y x ≡ false) payload

  -- The entry is that of the winner; without an entry no item is mapped to the attribute.
  abbrev pub IsSelected : List Item → Option NormalisedEntry → Type 0
  IsSelected payload none = All (λ y. maps y ≡ true → ⊥) payload
  IsSelected payload (some e) = (x : Item) × IsWinner payload x × (e ≡ entry x)

  -- What the loop compares: the items of the payload that are mapped to the attribute.
  compared :
      (payload xs : List Item)
      → keep maps (sorted payload) ≡ xs
      → All (λ y. Among y payload × (maps y ≡ true)) xs
  compared payload xs e = rw e at (
      All-keep (λ y. Among y payload) maps (sorted payload)
        (All-sort_by key_before (λ y. Among y payload) payload (All-Among payload)))

  -- What holds of all of them holds of every item of the payload that is mapped to the attribute.
  All-mapped :
      (P : Item → Type 0) (payload xs : List Item)
      → keep maps (sorted payload) ≡ xs
      → All P xs
      → All (λ y. maps y ≡ true → P y) payload
  All-mapped P payload xs e h =
      All-of_sort_by key_before (λ y. maps y ≡ true → P y) payload
        (All-of_keep P maps (sorted payload) (rw e h))

  strongest-IsWinner :
      (payload xs : List Item)
      → keep maps (sorted payload) ≡ xs
      → IsSelected payload (entry_of (strongest outranking xs none))
  unfolding strongest
  strongest-IsWinner payload [] e = All-mapped (λ _. ⊥) payload [] e tt
  strongest-IsWinner payload (x ∷ xs) e =
      let (r, is_r) = strongest_total outranking xs x in
      let (among, first, others) =
        strongest_unbeaten outranking (λ y. text_ltb_irrefl (priority y))
          (λ y z. text_ltb_asym (priority z) (priority y))
          (λ y z w h k. text_ltb_negtrans (priority w) (priority z) (priority y) k h) xs x r is_r in
      let (in_payload, is_mapped) =
        All-get (λ y. Among y payload × (maps y ≡ true)) r (x ∷ xs) (compared payload (x ∷ xs) e)
          among in
      rw is_r (
        r,
        record {
          among = in_payload;
          mapped = is_mapped;
          unbeaten = All-mapped (λ y. outranking y r ≡ false) payload (x ∷ xs) e (first, others);
        },
        refl,
      )

  -- The entry that a payload gives a canonical attribute is that of one of its items which is
  -- mapped to the attribute, and no such item has a higher selection priority; without an entry, no
  -- item is mapped to it.
  pub normalise_payload-IsSelected :
      (payload : List Item)
      → IsSelected payload
          (dict_get a (normalise_payload py fx_rates source_ts field_map payload).fields)
  normalise_payload-IsSelected payload =
      let t = normalise_payload-Tracks payload in
      rw t.at_fields (strongest-IsWinner payload (keep maps (sorted payload)) refl)

module _ (py : Python) (fx_rates : Option FxConvert) (source_ts : Option Text)
    (field_map : FieldMap) where
  pub normalise_payload-Reordered :
      {payload payload' : List Item}
      → Reordered key_before payload payload'
      → normalise_payload py fx_rates source_ts field_map payload
        ≡ normalise_payload py fx_rates source_ts field_map payload'
  unfolding normalise_payload
  normalise_payload-Reordered r =
      ap (λ items. select_items py fx_rates source_ts field_map items nothing_selected)
        (sort_by-Reordered key_before (λ x y. text_ltb_asym x.0 y.0)
          (λ x y z. text_ltb_trans x.0 y.0 z.0) r)
