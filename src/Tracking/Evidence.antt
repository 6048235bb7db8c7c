-- ===== src/Tracking/Evidence.antt =====
-- When an arrival is observed, over the samples of a whole session, against a description that
-- looks at the samples only.
use moeen.Base.{
  ◌&&◌, ◌+◌, ◌||◌, ◌∙◌, ◌∷◌, ◌≡◌, Bool, Bool-cases, List, [], ap, arith, false, if◌then◌else◌, inl,
  inr, is_some, leb, none, refl, some, suc, true, ℕ,
}
use moeen.Store.{TrackingSession}
use moeen.Tracking.Arrival.{or_else, record_evidence, record_qualifying}

-- A sample as the evidence sees it: whether it qualifies, and when it was captured and received.
pub record Sighting : Type 0 where
  pub qualifying : Bool
  pub captured_at : ℕ
  pub received_at : ℕ

abbrev pub record_all : List Sighting → TrackingSession → TrackingSession
record_all [] s = s
record_all (x ∷ xs) s = record_all xs (record_evidence x.qualifying x.captured_at x.received_at s)

-- The samples that qualify, in their order.
abbrev pub qualifying_times : List Sighting → List ℕ
qualifying_times [] = []
qualifying_times (x ∷ xs) =
    let rest = qualifying_times xs in if x.qualifying then x.captured_at ∷ rest else rest

-- Among the times after the first `n`, one has number three or more and stands half a minute or
-- more after the first.
abbrev pub is_reached : ℕ → ℕ → List ℕ → Bool
is_reached n first [] = false
is_reached n first (t ∷ ts) =
    (leb 3 (suc n) && leb (first + 30000) t) || is_reached (suc n) first ts

abbrev pub is_arrival : List ℕ → Bool
is_arrival [] = false
is_arrival (t ∷ ts) = is_reached 0 t (t ∷ ts)

-- One qualifying sample: the count and the time decide, if they have not before.
record_qualifying-observed :
    (first captured received : ℕ) (s : TrackingSession)
    → s.arrival_first_qualifying_at ≡ some first
    → (is_some (record_qualifying captured received s).arrival_observed_at ≡ (
        is_some s.arrival_observed_at
        || (leb 3 (suc s.arrival_qualifying_sample_count) && leb (first + 30000) captured)))
      × ((record_qualifying captured received s).arrival_first_qualifying_at ≡ some first)
      × ((record_qualifying captured received s).arrival_qualifying_sample_count
          ≡ suc s.arrival_qualifying_sample_count)
unfolding record_qualifying
record_qualifying-observed first captured received s e =
    let known : or_else s.arrival_first_qualifying_at captured ≡ first = ground arith in
    (ground (arith, known), ap some known, refl)

or_assoc : (a b c : Bool) → ((a || b) || c) ≡ (a || (b || c))
or_assoc true b c = refl
or_assoc false b c = refl

record_all-reached :
    (first : ℕ) (xs : List Sighting) (s : TrackingSession)
    → s.arrival_first_qualifying_at ≡ some first
    → is_some (record_all xs s).arrival_observed_at ≡ (
        is_some s.arrival_observed_at
        || is_reached s.arrival_qualifying_sample_count first (qualifying_times xs))
unfolding record_evidence
record_all-reached first [] s e = ground arith
record_all-reached first (x ∷ xs) s e = elim (Bool-cases x.qualifying) [
  | inr off ↦ rw off (record_all-reached first xs s e)
  | inl on ↦
      let (seen, start, number) =
        record_qualifying-observed first x.captured_at x.received_at s e in
      let rest =
        record_all-reached first xs (record_qualifying x.captured_at x.received_at s) start in
      rw on (
        rest
        ∙ (ap
              (λ b.
                b
                || is_reached
                    (record_qualifying x.captured_at x.received_at
                      s).arrival_qualifying_sample_count
                    first (qualifying_times xs))
              seen
            ∙ (ap
                  (λ n.
                    (is_some s.arrival_observed_at
                      || (leb 3 (suc s.arrival_qualifying_sample_count)
                          && leb (first + 30000) x.captured_at))
                    || is_reached n first (qualifying_times xs))
                  number
                ∙ or_assoc (is_some s.arrival_observed_at)
                    (leb 3 (suc s.arrival_qualifying_sample_count)
                      && leb (first + 30000) x.captured_at)
                    (is_reached (suc s.arrival_qualifying_sample_count) first
                      (qualifying_times xs)))))
]

first_qualifying :
    (captured received : ℕ) (s : TrackingSession)
    → s.arrival_qualifying_sample_count ≡ 0
    → s.arrival_first_qualifying_at ≡ none
    → s.arrival_observed_at ≡ none
    → ((record_qualifying captured received s).arrival_first_qualifying_at ≡ some captured)
      × ((record_qualifying captured received s).arrival_qualifying_sample_count ≡ 1)
      × (is_some (record_qualifying captured received s).arrival_observed_at ≡ false)
unfolding record_qualifying
first_qualifying captured received s none_yet no_first no_arrival =
    (rw no_first refl, ap suc none_yet, ground arith)

-- Over the samples of a session that has none yet: an arrival is observed if and only if, of the
-- samples that qualify, one that is the third or a later one was captured half a minute or more
-- after the first.
pub record_all-is_arrival :
    (xs : List Sighting) (s : TrackingSession)
    → s.arrival_qualifying_sample_count ≡ 0
    → s.arrival_first_qualifying_at ≡ none
    → s.arrival_observed_at ≡ none
    → is_some (record_all xs s).arrival_observed_at ≡ is_arrival (qualifying_times xs)
unfolding record_evidence
record_all-is_arrival [] s none_yet no_first no_arrival = ground arith
record_all-is_arrival (x ∷ xs) s none_yet no_first no_arrival = elim (Bool-cases x.qualifying) [
  | inr off ↦ rw off (record_all-is_arrival xs s none_yet no_first no_arrival)
  | inl on ↦
      let y = record_qualifying x.captured_at x.received_at s in
      let (start, number, unseen) =
        first_qualifying x.captured_at x.received_at s none_yet no_first no_arrival in
      rw on (
        record_all-reached x.captured_at xs y start
        ∙ (ap
              (λ b.
                b
                || is_reached y.arrival_qualifying_sample_count x.captured_at (qualifying_times xs))
              unseen
            ∙ ap (λ n. is_reached n x.captured_at (qualifying_times xs)) number))
]
