-- ===== src/Db/Redirects/Targets.antt =====
-- About the redirect chain and the review queue of db/redirects.py.
use nexus_spark_lib.Base.{
  Text, ℕ, suc, ◌≡◌, refl, ap, Bool, true, false, some, List, [], ◌∷◌, ◌++◌, map, arith, any,
  text_eq_refl, select, select-upsert_self, length, Option-cases, inl, inr,
}
use nexus_spark_lib.Db.Rows.{RedirectRow, Database}
use nexus_spark_lib.Db.Chain.{chase, chase_total, visited_before, Reaches, IsEnd}
use nexus_spark_lib.Db.Redirects.{
  is_redirect_from, insert_redirect, redirect_of, resolve_redirect, is_pair, redirect_row,
  redirect_conflict, pending_pair, queue_for_review,
}

abbrev from_ids : List RedirectRow → List Text
from_ids redirects = map (λ row. row.from_cdm_entity_id) redirects

redirect_of-within :
    (redirects : List RedirectRow) (a b : Text)
    → redirect_of redirects a ≡ some b
    → visited_before (from_ids redirects) a ≡ true
unfolding redirect_of select visited_before
redirect_of-within [] a b e = cc
redirect_of-within (row ∷ redirects) a b e = ground (arith, redirect_of-within redirects a b)

length-from_ids : (redirects : List RedirectRow) → length (from_ids redirects) ≡ length redirects
length-from_ids [] = refl
length-from_ids (row ∷ redirects) = ap suc (length-from_ids redirects)

-- The loop of `resolve_redirect` ends within one step more than there are redirects, cycles or not,
-- and its result is an id on the chain of its start that is redirected nowhere or lies on a cycle.
pub resolve_redirect_ends :
    (cdm_entity_id : Text) (db : Database)
    → (r : Text) × (chase (redirect_of db.redirects) (suc (length db.redirects)) [] cdm_entity_id
        ≡ some r)
      × ((resolve_redirect cdm_entity_id db).0 ≡ r)
      × Reaches (redirect_of db.redirects) cdm_entity_id r
      × IsEnd (redirect_of db.redirects) r
unfolding resolve_redirect
resolve_redirect_ends cdm_entity_id db =
    let (r, e, p, z) =
      chase_total (redirect_of db.redirects) (from_ids db.redirects)
        (redirect_of-within db.redirects) cdm_entity_id in
    let e' : chase (redirect_of db.redirects) (suc (length db.redirects)) [] cdm_entity_id
        ≡ some r =
      rw length-from_ids at e in
    (r, e', rw e', p, z)

pub redirect_of-insert_redirect :
    (loser_id survivor_id tenant_id : Text) (db : Database)
    → redirect_of (insert_redirect loser_id survivor_id tenant_id db).1.redirects loser_id
      ≡ some survivor_id
unfolding redirect_of insert_redirect
redirect_of-insert_redirect loser_id survivor_id tenant_id db =
    rw
      (select-upsert_self (is_redirect_from loser_id) (redirect_conflict survivor_id db.now)
        (redirect_row loser_id survivor_id tenant_id db.now) db.redirects (text_eq_refl loser_id)
        (λ x h. h))
      (elim (Option-cases (select (is_redirect_from loser_id) db.redirects)) [
        | inl e ↦ rw e
        | inr (x, e) ↦ rw e
      ])

any-append {ℓ} :
    {A : Type ℓ} (p : A → Bool) (xs : List A) (y : A) → p y ≡ true → any p (xs ++ y ∷ []) ≡ true
unfolding any
any-append p [] y h = rw h
any-append p (x ∷ xs) y h = ground (arith, any-append p xs y h)

module _ (tenant_id cdm_entity_type candidate_a_id candidate_b_id : Text) (score : ℕ)
    (breakdown : Text) (db : Database) where
  abbrev queued : Bool × Database
  queued =
      queue_for_review tenant_id cdm_entity_type candidate_a_id candidate_b_id score breakdown db

  pub any-queue_for_review :
      any (is_pair tenant_id cdm_entity_type candidate_a_id candidate_b_id) queued.1.reviews ≡ true
  unfolding queue_for_review
  any-queue_for_review = ground (
    arith,
    any-append (is_pair tenant_id cdm_entity_type candidate_a_id candidate_b_id) db.reviews (
        pending_pair tenant_id cdm_entity_type candidate_a_id candidate_b_id score breakdown
          db.now),
    text_eq_refl tenant_id,
    text_eq_refl cdm_entity_type,
    text_eq_refl candidate_a_id,
    text_eq_refl candidate_b_id,
  )

  -- A pair that is queued for review a second time adds no row and reports none.
  pub queue_for_review_replay :
      queue_for_review tenant_id cdm_entity_type candidate_a_id candidate_b_id score breakdown
        queued.1
      ≡ (false, queued.1)
  queue_for_review_replay = present queued.1 any-queue_for_review
    where
      present :
          (d : Database)
          → any (is_pair tenant_id cdm_entity_type candidate_a_id candidate_b_id) d.reviews ≡ true
          → queue_for_review tenant_id cdm_entity_type candidate_a_id candidate_b_id score breakdown
              d
            ≡ (false, d)
      present d h = unfold queue_for_review in rw h
