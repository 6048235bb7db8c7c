-- ===== src/Tracking/Retention.antt =====
-- pruneProviderTrackingData of apps/api/src/service-request.repository.ts, with the cutoffs of
-- apps/api/src/provider-tracking-retention.ts.
use moeen.Base.{
  ◌&&◌, ◌*◌, ◌-◌, ◌==◌, ◌>>◌, ◌∙◌, ◌∷◌, ◌≡◌, All, Bool, Bool-cases, List, Option, Option-cases, [],
  all, any, arith, count, guard, holds, if◌then◌else◌, inl, inr, is_some, length, ltb, none, not,
  ok, refl, select, some, suc, true, zero, ℕ,
}
use moeen.Store.{
  Db, LocationSample, Tables, TrackingSession, Tx, invalid_batch_size, is_active_session,
}

-- The least age among the rows that have one.
abbrev pub least : Option ℕ → Option ℕ → Option ℕ
least none b = b
least (some a) none = some a
least (some a) (some b) = some (if ltb b a then b else a)

abbrev pub has_age : Option ℕ → ℕ → Bool
has_age o k = holds o k

module _ {ℓ} {A : Type ℓ} (age : A → Option ℕ) where
  abbrev pub oldest : List A → Option ℕ
  oldest [] = none
  oldest (x ∷ xs) = least (age x) (oldest xs)

  abbrev pub delete_first : ℕ → List A → List A
  delete_first k [] = []
  delete_first k (x ∷ xs) =
      let rest = delete_first k xs in if has_age (age x) k then xs else x ∷ rest

  -- DELETE of the rows selected ORDER BY age LIMIT n: `age` is `none` where the WHERE clause fails,
  -- and the table stands in the order of the second sort key.
  unfoldable pub delete_oldest : ℕ → List A → List A
  delete_oldest zero xs = xs
  delete_oldest (suc n) xs = elim (oldest xs) [
    | none ↦ xs
    | some k ↦ delete_oldest n (delete_first k xs)
  ]

abbrev pub day_milliseconds : ℕ
day_milliseconds = 24 * 60 * 60 * 1000

abbrev pub raw_retention_days : ℕ
raw_retention_days = 30

abbrev pub derived_retention_days : ℕ
derived_retention_days = 180

-- providerTrackingRetentionCutoffs, for a clock past the first 180 days of its epoch.
unfoldable pub retention_cutoffs : ℕ → ℕ × ℕ
retention_cutoffs now =
    (now - raw_retention_days * day_milliseconds, now - derived_retention_days * day_milliseconds)

-- `received_at < $1`.
abbrev pub sample_age : ℕ → LocationSample → Option ℕ
sample_age before s = if ltb s.received_at before then some s.received_at else none

abbrev pub has_sample : List LocationSample → TrackingSession → Bool
has_sample samples s =
    any (λ (x : LocationSample). x.request_id == s.request_id && x.provider_id == s.provider_id)
      samples

abbrev pub before_cutoff : ℕ → Option ℕ → Option ℕ
before_cutoff before none = none
before_cutoff before (some at) = if ltb at before then some at else none

-- Stopped before the cutoff, with no raw sample left.
abbrev pub session_age : ℕ → List LocationSample → TrackingSession → Option ℕ
session_age before samples s =
    if not (is_active_session s.state) && not (has_sample samples s)
    then before_cutoff before s.stopped_at
    else none

abbrev pub prune_tables : ℕ → ℕ → ℕ → Tables → Tables
prune_tables raw derived batch t =
    let samples = delete_oldest (sample_age raw) batch t.samples in
    record t {
      samples = samples;
      sessions = delete_oldest (session_age derived samples) batch t.sessions;
    }

unfoldable pub prune_provider_tracking_data : ℕ → ℕ → ℕ → Db → Tx (ℕ × ℕ)
unfolding delete_oldest
prune_provider_tracking_data raw derived batch db = do
  guard (not (ltb batch 1) && not (ltb 10000 batch)) invalid_batch_size
  let t = prune_tables raw derived batch db.tables
  ok (
    record db { tables = t },
    (length db.samples - length t.samples, length db.sessions - length t.sessions),
  )

-- Laws of the batch deletion.
module _ {ℓ} {A : Type ℓ} (age : A → Option ℕ) where
  abbrev pub ages : List A → ℕ
  ages = count (λ x. is_some (age x))

  ages-delete_first :
      (k : ℕ) (xs : List A) → oldest age xs ≡ some k → suc (ages (delete_first age k xs)) ≡ ages xs
  ages-delete_first k [] e = ground arith
  ages-delete_first k (x ∷ xs) e = ground (arith, ages-delete_first k xs)

  pub ages-oldest-none : (xs : List A) → oldest age xs ≡ none → ages xs ≡ 0
  ages-oldest-none [] e = refl
  ages-oldest-none (x ∷ xs) e = ground (arith, ages-oldest-none xs)

  pub ages-delete_oldest : (n : ℕ) (xs : List A) → ages (delete_oldest age n xs) ≡ ages xs - n
  unfolding delete_oldest
  ages-delete_oldest zero xs = omega arith
  ages-delete_oldest (suc n) xs = elim (Option-cases (oldest age xs)) [
    | inl e ↦ rw (e, delete_oldest) (omega (arith, ages-oldest-none xs e))
    | inr (k, e) ↦
        rw (e, delete_oldest)
          (omega (arith, ages-delete_first k xs e, ages-delete_oldest n (delete_first age k xs)))
  ]

  young-delete_first :
      (k : ℕ) (xs : List A)
      → select (λ x. not (is_some (age x))) (delete_first age k xs)
        ≡ select (λ x. not (is_some (age x))) xs
  young-delete_first k [] = refl
  young-delete_first k (x ∷ xs) = ground (arith, young-delete_first k xs)

  pub young-delete_oldest :
      (n : ℕ) (xs : List A)
      → select (λ x. not (is_some (age x))) (delete_oldest age n xs)
        ≡ select (λ x. not (is_some (age x))) xs
  unfolding delete_oldest
  young-delete_oldest zero xs = refl
  young-delete_oldest (suc n) xs = elim (Option-cases (oldest age xs)) [
    | inl e ↦ rw (e, delete_oldest)
    | inr (k, e) ↦
        rw (e, delete_oldest)
          (young-delete_oldest n (delete_first age k xs) ∙ young-delete_first k xs)
  ]

  All-delete_first {κ} :
      (P : A → Type κ) (k : ℕ) (xs : List A) → All P xs → All P (delete_first age k xs)
  All-delete_first P k [] all = tt
  All-delete_first P k (x ∷ xs) all = elim (Bool-cases (has_age (age x) k)) [
    | inl e ↦ rw e all.1
    | inr e ↦ rw e (all.0, All-delete_first P k xs all.1)
  ]

  pub All-delete_oldest {κ} :
      (P : A → Type κ) (n : ℕ) (xs : List A) → All P xs → All P (delete_oldest age n xs)
  unfolding delete_oldest
  All-delete_oldest P zero xs all = all
  All-delete_oldest P (suc n) xs all = elim (Option-cases (oldest age xs)) [
    | inl e ↦ rw (e, delete_oldest) all
    | inr (k, e) ↦
        rw (e, delete_oldest)
          (All-delete_oldest P n (delete_first age k xs) (All-delete_first P k xs all))
  ]

  -- A row that is not old enough stays.
  any-delete_first :
      (q : A → Bool) (k : ℕ) (xs : List A)
      → ((x : A) → q x ≡ true → age x ≡ none)
      → any q xs ≡ true
      → any q (delete_first age k xs) ≡ true
  any-delete_first q k [] h e = e
  any-delete_first q k (x ∷ xs) h e = ground (arith, h x, any-delete_first q k xs h)

  pub any-delete_oldest :
      (q : A → Bool) (n : ℕ) (xs : List A)
      → ((x : A) → q x ≡ true → age x ≡ none)
      → any q xs ≡ true
      → any q (delete_oldest age n xs) ≡ true
  unfolding delete_oldest
  any-delete_oldest q zero xs h e = e
  any-delete_oldest q (suc n) xs h e = elim (Option-cases (oldest age xs)) [
    | inl o ↦ rw (o, delete_oldest) e
    | inr (k, o) ↦
        rw (o, delete_oldest)
          (any-delete_oldest q n (delete_first age k xs) h (any-delete_first q k xs h e))
  ]
