-- ===== src/Stage3/Projection/SameHash.antt =====
-- About the provenance hash of the DataFrame path of transform/stage3_synthesise.py.
use nexus_spark_lib.Base.{
  sort_by-sorted, non_empty, Text, ◌≡◌, refl, ap, ◌∙◌, inl, inr, true, false, some, List, [], ◌∷◌,
  ◌++◌, arith, codes, map, any, ◌==◌, text_eq_iff, text_eq_refl, text_ltb, text_ltb_irrefl,
  text_ltb_asym, text_ltb_negtrans, IsSorted, IsFirst, sort_by-IsSorted, Dict, dict_get, keys, All,
  Among, All-Among,
}
use mathlib.Core.List.{append_assoc}
use nexus_spark_lib.Hashing.{Digest, item_before, winner_part, join}
use nexus_spark_lib.Stage3.Projection.{
  SynthesisRow, golden_keys, raw_golden_fields, golden_fields_of, element_at, source_pointer,
  summary_part, provenance_summary, project_row, after_colon, winner_of, with_hash, value_hashes,
  compute_provenance_hash_udf,
}

-- A source system without a colon is what stands before the pointer's first colon.
after_colon-pointer :
    (system rest : Text)
    → any (λ c. c == b':') system ≡ false
    → after_colon (system ++ (b':' ∷ rest)) ≡ some rest
unfolding after_colon any
after_colon-pointer [] rest h = refl
after_colon-pointer (c ∷ system) rest h = ground (arith, after_colon-pointer system rest)

-- A dictionary with a value for each key of a list.
abbrev tabulate : (Text → Text) → List Text → Dict Text
tabulate g names = map (λ name. (name, g name)) names

dict_get-tabulate :
    (g : Text → Text) (names : List Text) (name : Text)
    → Among name names
    → dict_get name (tabulate g names) ≡ some (g name)
unfolding dict_get
dict_get-tabulate g [] name m = absurd m
dict_get-tabulate g (n ∷ names) name (inl e) = rw (e, text_eq_refl n) refl
dict_get-tabulate g (n ∷ names) name (inr m) =
    ground (arith, text_eq_iff n name, dict_get-tabulate g names name m)

-- Names with one record id are in the order of the names.
winners-IsFirst :
    (id x : Text) (names : List Text)
    → IsFirst text_ltb x names
    → IsFirst item_before (x, id) (tabulate (λ _. id) names)
winners-IsFirst id x [] f = tt
winners-IsFirst id x (n ∷ names) f =
    (ground (arith, text_ltb_irrefl id, f.0), winners-IsFirst id x names f.1)

winners-IsSorted :
    (id : Text) (names : List Text)
    → IsSorted text_ltb names
    → IsSorted item_before (tabulate (λ _. id) names)
winners-IsSorted id [] s = tt
winners-IsSorted id (n ∷ names) s = (winners-IsFirst id n names s.0, winners-IsSorted id names s.1)

join-append_first :
    (a b : Text) (parts : List Text)
    → join (codes "|") ((a ++ b) ∷ parts) ≡ a ++ join (codes "|") (b ∷ parts)
unfolding join
join-append_first a b [] = refl
join-append_first a b (p ∷ parts) = append_assoc a b (codes "|" ++ join (codes "|") (p ∷ parts))

module _ (sha256 : Digest) (record_id : Text) (fields : Dict Text) where
  abbrev part : Text → Text
  part = summary_part sha256 record_id fields

  non_empty-part : (attr : Text) → non_empty (part attr) ≡ true
  non_empty-part [] = refl
  non_empty-part (c ∷ attr) = refl

  -- A summary that has begun goes on with a bar before each part.
  provenance_summary-begun :
      (acc : Text) (attrs : List Text)
      → non_empty acc ≡ true
      → provenance_summary sha256 record_id fields attrs acc
        ≡ join (codes "|") (acc ∷ map part attrs)
  unfolding provenance_summary join
  provenance_summary-begun acc [] h = refl
  provenance_summary-begun [] (attr ∷ attrs) h = cc
  provenance_summary-begun (c ∷ acc) (attr ∷ attrs) h =
      provenance_summary-begun ((c ∷ acc) ++ (codes "|" ++ part attr)) attrs refl
      ∙ join-append_first (c ∷ acc) (codes "|" ++ part attr) (map part attrs)
      ∙ ap (λ rest. (c ∷ acc) ++ rest) (join-append_first (codes "|") (part attr) (map part attrs))

  provenance_summary-join :
      (attrs : List Text)
      → provenance_summary sha256 record_id fields attrs [] ≡ join (codes "|") (map part attrs)
  unfolding provenance_summary join
  provenance_summary-join [] = refl
  provenance_summary-join (attr ∷ attrs) =
      provenance_summary-begun (part attr) attrs (non_empty-part attr)

module _ (sha256 : Digest) (r : SynthesisRow) where
  abbrev names : List Text
  names = golden_keys r.normalised

  abbrev fields : Dict Text
  fields = golden_fields_of r.normalised

  abbrev pointers : List Text → Dict Text
  pointers = tabulate (λ _. source_pointer r)

  abbrev hash_at : Text → Text
  hash_at name = sha256 (element_at fields name)

  winners-pointers :
      (ns : List Text)
      → any (λ c. c == b':') r.source_system ≡ false
      → map winner_of (pointers ns) ≡ tabulate (λ _. r.source_record_id) ns
  winners-pointers [] h = refl
  winners-pointers (n ∷ ns) h =
      rw (after_colon-pointer r.source_system r.source_record_id h, winners-pointers ns h) refl

  dict_get-fields :
      (n : Text)
      → Among n names
      → dict_get n fields ≡ some (element_at (raw_golden_fields r.normalised) n)
  unfolding golden_fields_of
  dict_get-fields n m = dict_get-tabulate (element_at (raw_golden_fields r.normalised)) names n m

  value_hashes-pointers :
      (ns : List Text)
      → All (λ n. Among n names) ns
      → value_hashes sha256 fields (pointers ns) ≡ tabulate hash_at ns
  unfolding value_hashes
  value_hashes-pointers [] h = refl
  value_hashes-pointers (n ∷ ns) h =
      ap (λ o. with_hash sha256 n o (value_hashes sha256 fields (pointers ns)))
        (dict_get-fields n h.0)
      ∙ rw (dict_get-fields n h.0) (
          ap (λ hashes. (n, sha256 (element_at (raw_golden_fields r.normalised) n)) ∷ hashes)
            (value_hashes-pointers ns h.1))

  parts-of_winners :
      (ns : List Text)
      → All (λ n. Among n names) ns
      → map (winner_part (tabulate hash_at names)) (tabulate (λ _. r.source_record_id) ns)
        ≡ map (summary_part sha256 r.source_record_id fields) ns
  unfolding winner_part
  parts-of_winners [] h = refl
  parts-of_winners (n ∷ ns) h =
      rw (dict_get-tabulate hash_at names n h.0, parts-of_winners ns h.1) refl

  -- For a source system without a colon, the provenance hash that the Spark expression gives a row
  -- is the hash that the Python UDF computes from the row's golden fields and attribute provenance.
  pub project_row-compute_provenance_hash_udf :
      any (λ c. c == b':') r.source_system ≡ false
      → (project_row sha256 r).provenance_hash_column
        ≡ compute_provenance_hash_udf sha256
            (project_row sha256 r).attribute_provenance
            (project_row sha256 r).golden_fields
  unfolding project_row compute_provenance_hash_udf
  project_row-compute_provenance_hash_udf h =
      let ids = tabulate (λ _. r.source_record_id) names in
      let sorted : IsSorted text_ltb names =
        unfold golden_keys in
        sort_by-IsSorted text_ltb text_ltb_asym text_ltb_negtrans
          (keys (raw_golden_fields r.normalised)) in
      rw
        (
          winners-pointers names h,
          sort_by-sorted item_before ids (winners-IsSorted r.source_record_id names sorted),
          value_hashes-pointers names (All-Among names),
          parts-of_winners names (All-Among names),
          provenance_summary-join sha256 r.source_record_id fields names,
        )
        refl
