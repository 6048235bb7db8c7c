-- ===== src/Tracking/Batches.antt =====
-- What a run of the retention deletes: pruneProviderTrackingData.
use moeen.Base.{
  ◌&&◌, ◌-◌, ◌∙◌, ◌≡◌, ◌≤◌, ap, arith, count, guard-eq-ok, is_some, ltb, not, ok, refl, select,
  subst, sym, ℕ,
}
use moeen.Store.{Db, Tables, invalid_batch_size}
use moeen.Tracking.Retention.{
  ages-delete_oldest, prune_provider_tracking_data, prune_tables, sample_age, session_age,
  young-delete_oldest,
}

-- A committed run had a batch size from 1 to 10000. It deletes expired samples up to the batch
-- size, and no other sample; of the sessions, those that stopped before the cutoff and have no
-- sample left, up to the batch size, and no other; it changes no other table.
pub prune_provider_tracking_data-batch :
    (raw derived batch : ℕ) (db db' : Db) (deleted : ℕ × ℕ)
    → prune_provider_tracking_data raw derived batch db ≡ ok (db', deleted)
    → (1 ≤ batch)
      × (batch ≤ 10000)
      × (count (λ s. is_some (sample_age raw s)) db'.samples
          ≡ count (λ s. is_some (sample_age raw s)) db.samples - batch)
      × (select (λ s. not (is_some (sample_age raw s))) db'.samples
          ≡ select (λ s. not (is_some (sample_age raw s))) db.samples)
      × (count (λ s. is_some (session_age derived db'.samples s)) db'.sessions
          ≡ count (λ s. is_some (session_age derived db'.samples s)) db.sessions - batch)
      × (select (λ s. not (is_some (session_age derived db'.samples s))) db'.sessions
          ≡ select (λ s. not (is_some (session_age derived db'.samples s))) db.sessions)
      × (db'.tables ≡ record db.tables { samples = db'.samples; sessions = db'.sessions })
unfolding prune_provider_tracking_data
prune_provider_tracking_data-batch raw derived batch db db' deleted done =
    let (fit, e) =
      guard-eq-ok (not (ltb batch 1) && not (ltb 10000 batch)) invalid_batch_size _ done in
    let left : db'.tables ≡ prune_tables raw derived batch db.tables = ground arith in
    (
      ground arith,
      ground arith,
      ap (λ (t : Tables). count (λ s. is_some (sample_age raw s)) t.samples) left
          ∙ ages-delete_oldest (sample_age raw) batch db.samples,
      ap (λ (t : Tables). select (λ s. not (is_some (sample_age raw s))) t.samples) left
          ∙ young-delete_oldest (sample_age raw) batch db.samples,
      subst
          (λ (t : Tables).
            count (λ s. is_some (session_age derived t.samples s)) t.sessions
            ≡ count (λ s. is_some (session_age derived t.samples s)) db.sessions - batch)
          (sym left) (ages-delete_oldest (session_age derived _) batch db.sessions),
      subst
          (λ (t : Tables).
            select (λ s. not (is_some (session_age derived t.samples s))) t.sessions
            ≡ select (λ s. not (is_some (session_age derived t.samples s))) db.sessions)
          (sym left) (young-delete_oldest (session_age derived _) batch db.sessions),
      subst (λ (t : Tables). t ≡ record db.tables { samples = t.samples; sessions = t.sessions })
          (sym left) refl,
    )
