-- ===== src/Stage2/Snapshot/Writes.antt =====
-- About snapshots of an index that the writes of db/er_index.py have filled, and how the rows of
-- `resolve` in transform/stage2_resolve/__init__.py find their sources in them.
use nexus_spark_lib.Base.{
  Bool, Text, ◌≡◌, refl, false, List, [], ◌∷◌, arith, any, text_eq_sym, upsert, update_where,
  delete_where, Bool-cases, inl, inr, All, dict_get, ℕ,
}
use nexus_spark_lib.Db.Rows.{ErRow, Database}
use nexus_spark_lib.Db.ErIndex.{
  SourceKey, Entry, is_source, entry_row, entry_conflict, upsert_rows, upsert_batch,
  delete_by_source, is_mapped_to, repointed, repoint_to_survivor, entity_of,
}
use nexus_spark_lib.Stage2.Snapshot.{IdColumn, ThresholdRow, load_er_index_snapshot}
use nexus_spark_lib.Stage2.Snapshot.Served.{
  key_of, source_key, IsPlain, IsKeyed, load_er_index_snapshot-entity_of,
}

module _ (q : ErRow → Bool) (f : ErRow → ErRow) (same : (x : ErRow) → q (f x) ≡ q x) where
  any-upsert :
      (p : ErRow → Bool) (r : ErRow) (rows : List ErRow)
      → q r ≡ false
      → any q rows ≡ false
      → any q (upsert p f r rows) ≡ false
  unfolding any upsert
  any-upsert p r [] hr h = rw hr
  any-upsert p r (x ∷ rows) hr h = ground (arith, same x, any-upsert p r rows)

  any-update :
      (p : ErRow → Bool) (rows : List ErRow)
      → any q rows ≡ false
      → any q (update_where p f rows) ≡ false
  unfolding any update_where
  any-update p [] h = refl
  any-update p (x ∷ rows) h = ground (arith, same x, any-update p rows)

any-delete :
    (p q : ErRow → Bool) (rows : List ErRow)
    → any q rows ≡ false
    → any q (delete_where p rows) ≡ false
unfolding any delete_where
any-delete p q [] h = refl
any-delete p q (x ∷ rows) h = ground (arith, any-delete p q rows)

is_source-flip : (x y : ErRow) → is_source (key_of y) x ≡ false → is_source (key_of x) y ≡ false
is_source-flip x y h = ground (
  arith,
  text_eq_sym x.tenant_id y.tenant_id,
  text_eq_sym x.connector_id y.connector_id,
  text_eq_sym x.source_table y.source_table,
  text_eq_sym x.source_record_id y.source_record_id,
)

upsert-IsKeyed :
    (e : Entry) (now : ℕ) (rows : List ErRow)
    → IsPlain e.key
    → IsKeyed rows
    → IsKeyed (upsert (is_source e.key) (entry_conflict e now) (entry_row e now) rows)
unfolding upsert any
upsert-IsKeyed e now [] he h = (he, refl, tt)
upsert-IsKeyed e now (x ∷ rows) he h = elim (Bool-cases (is_source e.key x)) [
  | inl p ↦ rw p h
  | inr p ↦ rw p (
    h.0,
    any-upsert (is_source (key_of x)) (entry_conflict e now) (λ y. refl) (is_source e.key)
        (entry_row e now) rows (is_source-flip x (entry_row e now) p) h.1,
    upsert-IsKeyed e now rows he h.2,
  )
]

pub upsert_rows-IsKeyed :
    (now : ℕ) (entries : List Entry) (rows : List ErRow)
    → All (λ e. IsPlain e.key) entries
    → IsKeyed rows
    → IsKeyed (upsert_rows now entries rows)
unfolding upsert_rows
upsert_rows-IsKeyed now [] rows he h = h
upsert_rows-IsKeyed now (e ∷ entries) rows he h =
    upsert_rows-IsKeyed now entries _ he.1 (upsert-IsKeyed e now rows he.0 h)

delete-IsKeyed :
    (p : ErRow → Bool) (rows : List ErRow) → IsKeyed rows → IsKeyed (delete_where p rows)
unfolding delete_where
delete-IsKeyed p [] h = h
delete-IsKeyed p (x ∷ rows) h = elim (Bool-cases (p x)) [
  | inl e ↦ rw e (delete-IsKeyed p rows h.2)
  | inr e ↦ rw e (h.0, any-delete p (is_source (key_of x)) rows h.1, delete-IsKeyed p rows h.2)
]

repointed-IsKeyed :
    (p : ErRow → Bool) (survivor_id : Text) (now : ℕ) (rows : List ErRow)
    → IsKeyed rows
    → IsKeyed (update_where p (repointed survivor_id now) rows)
unfolding update_where
repointed-IsKeyed p survivor_id now [] h = h
repointed-IsKeyed p survivor_id now (x ∷ rows) h = elim (Bool-cases (p x)) [
  | inl e ↦ rw e (h.0, unseen, repointed-IsKeyed p survivor_id now rows h.2)
  | inr e ↦ rw e (h.0, unseen, repointed-IsKeyed p survivor_id now rows h.2)
]
  where
    unseen : any (is_source (key_of x)) (update_where p (repointed survivor_id now) rows) ≡ false
    unseen = any-update (is_source (key_of x)) (repointed survivor_id now) (λ y. refl) p rows h.1

-- The writes of db/er_index.py, one after the other.
pub data IndexWrite : Type 0 where
  put_entries : List Entry → IndexWrite
  drop_source : SourceKey → IndexWrite
  move_entity : (tenant_id loser_id survivor_id : Text) → IndexWrite

abbrev pub write : IndexWrite → Database → Database
write (put_entries entries) db = (upsert_batch entries db).1
write (drop_source key) db = (delete_by_source key db).1
write (move_entity tenant_id loser_id survivor_id) db =
    (repoint_to_survivor tenant_id loser_id survivor_id db).1

abbrev pub IsPlainWrite : IndexWrite → Type 0
IsPlainWrite (put_entries entries) = All (λ e. IsPlain e.key) entries
IsPlainWrite (drop_source key) = Unit
IsPlainWrite (move_entity tenant_id loser_id survivor_id) = Unit

unfoldable pub write_all : List IndexWrite → Database → Database
unfolding upsert_batch delete_by_source repoint_to_survivor
write_all [] db = db
write_all (w ∷ writes) db = write_all writes (write w db)

write-IsKeyed :
    (w : IndexWrite) (db : Database)
    → IsPlainWrite w
    → IsKeyed db.index
    → IsKeyed (write w db).index
unfolding upsert_batch delete_by_source repoint_to_survivor
write-IsKeyed (put_entries entries) db p h = upsert_rows-IsKeyed db.now entries db.index p h
write-IsKeyed (drop_source key) db p h = delete-IsKeyed (is_source key) db.index h
write-IsKeyed (move_entity tenant_id loser_id survivor_id) db p h =
    repointed-IsKeyed (is_mapped_to tenant_id loser_id) survivor_id db.now db.index h

write_all-IsKeyed :
    (writes : List IndexWrite) (db : Database)
    → All IsPlainWrite writes
    → IsKeyed db.index
    → IsKeyed (write_all writes db).index
unfolding write_all
write_all-IsKeyed [] db p h = h
write_all-IsKeyed (w ∷ writes) db p h = write_all-IsKeyed writes _ p.1 (write-IsKeyed w db p.0 h)

-- From an index whose rows have plain keys, no two of them equal, and after any sequence of upserts
-- of entries with plain keys, deletions of sources and moves to a survivor: the snapshot that is
-- loaded then leads from the lookup key of every plain source key to exactly the entity to which
-- the table maps that source, and to none if the table has none, whatever hashed and legacy keys it
-- holds. A key is plain if its connector is named and its tenant, connector and table hold no NUL.
pub write_all_served :
    (id_columns : List IdColumn) (er_thresholds : List ThresholdRow) (writes : List IndexWrite)
    (db : Database)
    → All IsPlainWrite writes
    → IsKeyed db.index
    → (k : SourceKey) → IsPlain k
    → dict_get
        (source_key k)
        (load_er_index_snapshot id_columns er_thresholds (write_all writes db)).snapshot
      ≡ entity_of k (write_all writes db)
write_all_served id_columns er_thresholds writes db p h k hk =
    load_er_index_snapshot-entity_of id_columns er_thresholds (write_all writes db)
      (write_all-IsKeyed writes db p h) k hk
