-- ===== src/Stage1/Examples.antt =====
-- Runs of the Stage 1 theorems on payloads in which two fields are mapped to one attribute.
use nexus_spark_lib.Base.{
  any, dict_set, sort_by, keep, Text, ◌≡◌, refl, inl, true, false, none, some, List, [], ◌∷◌, codes,
  text_eq, text_ltb, count_of, if◌then◌else◌, Dict, dict_get, Reordered,
}
use nexus_spark_lib.Stage3.Context.{text, number}
use nexus_spark_lib.Hashing.{Digest}
use nexus_spark_lib.Stage1.Values.{Python, normalise_mapped_source_value}
use nexus_spark_lib.Stage1.Fields.{
  FieldMeta, no_meta, FieldMap, Item, NormalisedEntry, good, normalise_payload,
  compute_changed_canonical_attributes,
}
use nexus_spark_lib.Stage1.Fields.Selection.{IsSelected, normalise_payload-IsSelected}
use nexus_spark_lib.Stage1.Fields.Changes.{differs, compute_changed_canonical_attributes_lem}
use nexus_spark_lib.Stage1.Blocking.{candidate_parts}
use nexus_spark_lib.Stage1.Rows.{RawRecord, normalise_row}
use nexus_spark_lib.Stage1.Rows.Images.{with_images, normalise_row-Reordered}
use nexus_spark_lib.Stage1.Batch.{raw_key, deduplicate, deduplicate_raw_batch}
use nexus_spark_lib.Stage1.Batch.Latest.{IsDeduplicated, deduplicate-IsDeduplicated}

-- A standard library that reads numbers as they are written and no dates.
abbrev py : Python
py = record {
  float_of = λ s. some s;
  int_of = λ v. none;
  number_eq = text_eq;
  strptime = λ s format. none;
  isoformat = λ t. [];
  parse_list = λ s. some (some (number (codes "7")) ∷ []);
}

abbrev mail_meta : FieldMeta
mail_meta = record no_meta { primary_key = true }

abbrev field_map : FieldMap
field_map = record {
  attributes = (codes "e_mail", codes "email") ∷ (codes "mail", codes "email") ∷ [];
  metas = (codes "mail", mail_meta) ∷ [];
}

abbrev e_mail : Item
e_mail = (codes "e_mail", some (text (codes "a@x.org")))

abbrev mail : Item
mail = (codes "mail", some (text (codes " b@x.org ")))

abbrev note : Item
note = (codes "note", some (text (codes "N/A")))

abbrev payload : List Item
payload = e_mail ∷ mail ∷ note ∷ []

-- The primary key wins, and the null-like note is an extra without a value.
mail_wins :
    dict_get (codes "email") (normalise_payload py none none field_map payload).fields
    ≡ some record {
      value = some (text (codes "b@x.org"));
      quality = good;
      source_attribute = codes "mail";
      pii_flag = false;
      attribute_kind = [];
      fk_target_entity_type = [];
      fk_target_source_table = [];
    }
unfolding normalise_payload dict_get sort_by text_ltb text_eq dict_set any
mail_wins = refl

note_is_extra :
    (normalise_payload py none none field_map payload).extras ≡ (codes "note", none) ∷ []
unfolding normalise_payload sort_by text_ltb dict_get text_eq dict_set any
note_is_extra = refl

odoo_id :
    normalise_mapped_source_value py
      (codes "many2one")
      (codes "partner")
      (some (text (codes "[7, \"Ann\"]")))
    ≡ some (number (codes "7"))
unfolding normalise_mapped_source_value any text_eq
odoo_id = refl

normalise_payload-IsSelected_example :
    IsSelected py none none field_map
      (codes "email")
      payload
      (dict_get (codes "email") (normalise_payload py none none field_map payload).fields)
normalise_payload-IsSelected_example =
    normalise_payload-IsSelected py none none field_map (codes "email") payload

abbrev raw : Text → Text → RawRecord
raw source_record_id ts = record {
  tenant_id = codes "t";
  connector_id = codes "crm";
  source_system = [];
  source_table = codes "contacts";
  source_record_id = source_record_id;
  source_op = codes "UPDATE";
  source_ts = some ts;
  after_payload = some payload;
  before_payload = none;
}

abbrev digest : Digest
digest s = s

abbrev before_image : List Item
before_image = mail ∷ []

normalise_row-Reordered_example :
    normalise_row py digest
      (λ t k table. some field_map)
      none
      none
      (codes "person")
      (with_images (raw (codes "1") (codes "2024")) payload before_image)
    ≡ normalise_row py digest
        (λ t k table. some field_map)
        none
        none
        (codes "person")
        (with_images (raw (codes "1") (codes "2024")) (mail ∷ e_mail ∷ note ∷ []) before_image)
unfolding text_ltb
normalise_row-Reordered_example =
    normalise_row-Reordered py digest (λ t k table. some field_map) none none (codes "person")
      (raw (codes "1") (codes "2024")) (Reordered.exchange e_mail mail (note ∷ []) (inl refl))
      (Reordered.same before_image)

abbrev entry_of : Text → NormalisedEntry
entry_of value = record {
  value = some (text value);
  quality = good;
  source_attribute = codes "mail";
  pii_flag = false;
  attribute_kind = [];
  fk_target_entity_type = [];
  fk_target_source_table = [];
}

abbrev before_fields : Dict NormalisedEntry
before_fields = (codes "email", entry_of (codes "a")) ∷ (codes "id", entry_of (codes "1")) ∷ []

abbrev after_fields : Dict NormalisedEntry
after_fields = (codes "email", entry_of (codes "b")) ∷ (codes "id", entry_of (codes "1")) ∷ []

email_changed :
    compute_changed_canonical_attributes py before_fields after_fields ≡ codes "email" ∷ []
unfolding compute_changed_canonical_attributes keep sort_by dict_get text_eq text_ltb any
email_changed = refl

compute_changed_canonical_attributes_example :
    count_of
      (text_eq (codes "email"))
      (compute_changed_canonical_attributes py before_fields after_fields)
    ≡ (if differs py before_fields after_fields (codes "email") then 1 else 0)
compute_changed_canonical_attributes_example =
    compute_changed_canonical_attributes_lem py before_fields after_fields (codes "email")

candidate_parts_run : candidate_parts after_fields ≡ codes "1" ∷ []
unfolding candidate_parts sort_by text_eq any dict_get
candidate_parts_run = refl

abbrev batch : List RawRecord
batch =
    raw (codes "1") (codes "2023")
    ∷ raw (codes "2") (codes "2024")
    ∷ raw (codes "1") (codes "2025")
    ∷ []

batch_run :
    deduplicate_raw_batch batch
    ≡ raw (codes "1") (codes "2025") ∷ raw (codes "2") (codes "2024") ∷ []
unfolding deduplicate_raw_batch text_eq text_ltb
batch_run = refl

deduplicate-IsDeduplicated_example :
    IsDeduplicated raw_key (λ r. r.source_ts) batch (deduplicate raw_key (λ r. r.source_ts) batch)
deduplicate-IsDeduplicated_example = deduplicate-IsDeduplicated raw_key (λ r. r.source_ts) batch
