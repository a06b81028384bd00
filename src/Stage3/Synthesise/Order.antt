-- ===== src/Stage3/Synthesise/Order.antt =====
-- About `_compute_provenance_hash` of transform/stage3_synthesise.py and the order of the rows.
use nexus_spark_lib.Base.{Text, ◌≡◌, true, arith, Reordered, map-Reordered, Dict}
use nexus_spark_lib.Models.Survivorship.{ProvenanceRow}
use nexus_spark_lib.Hashing.{Digest, item_before}
use nexus_spark_lib.Hashing.Order.{by_key, provenance_hash_from_winning_records-Reordered}
use nexus_spark_lib.Stage3.Synthesise.{compute_provenance_hash, row_winner, row_hash}

winner_before :
    (a b : Text × ProvenanceRow)
    → by_key a b ≡ true
    → item_before (row_winner a) (row_winner b) ≡ true
winner_before a b e = ground (arith, e)

-- The provenance hash is the same for two orders of the rows which differ by exchanges of
-- neighbours with different attribute names.
pub compute_provenance_hash-Reordered :
    (sha256 : Digest) {provenance provenance' : Dict ProvenanceRow}
    → Reordered by_key provenance provenance'
    → compute_provenance_hash sha256 provenance ≡ compute_provenance_hash sha256 provenance'
unfolding compute_provenance_hash
compute_provenance_hash-Reordered sha256 r =
    provenance_hash_from_winning_records-Reordered sha256
      (map-Reordered by_key item_before row_winner winner_before r)
      (map-Reordered by_key by_key row_hash (λ a b e. e) r)
