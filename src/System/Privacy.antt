-- ===== src/System/Privacy.antt =====
-- The positions that are stored and shown in a history: findCurrentProviderPosition.
use moeen.Base.{
  ◌&&◌, ◌==◌, ◌∷◌, ◌≡◌, All, All-find_first, All-mono, Bool, Bool-cases, List, Option-cases, [],
  all, any, arith, count, false, find_first, find_first-holds, holds, inl, inr, refl, some, subst,
  true, ℕ,
}
use moeen.Store.{
  CurrentPosition, Point, Provider, ServiceRequest, Tables, find_request, find_session,
}
use moeen.Outbox.Writer.{Config}
use moeen.System.{Command, opening, run}
use moeen.System.Tracked.{any-carried, run-opening-Carried}
use moeen.Tracking.Carried.{is_carried_by, is_source}
use moeen.Tracking.Operations.{Reader, find_current_provider_position, is_visible, may_read}
use moeen.Tracking.Sample.{is_trackable}

sourced-find_first :
    (t : Tables) (p : CurrentPosition) (q : CurrentPosition → Bool) (ps : List CurrentPosition)
    → All (λ x. any (is_source x) t.sessions ≡ true) ps
    → find_first q ps ≡ some p
    → any (is_source p) t.sessions ≡ true
sourced-find_first t p q ps all e =
    All-find_first (λ x. any (is_source x) t.sessions ≡ true) q ps p all e

shown_inv :
    (cfg : Config) (reader : Reader) (rid : ℕ) (t : Tables) (p : CurrentPosition)
    → find_current_provider_position cfg reader rid t ≡ some p
    → (find_first
          (λ (x : CurrentPosition).
            x.request_id == rid && is_visible reader (find_session rid t) (find_request rid t) x)
          t.positions
        ≡ some p)
      × (p.request_id ≡ rid)
      × (r : ServiceRequest) × (find_request rid t ≡ some r)
      × (may_read reader r ≡ true)
unfolding find_current_provider_position
shown_inv cfg reader rid t p e =
    let found : find_first
          (λ (x : CurrentPosition).
            x.request_id == rid && is_visible reader (find_session rid t) (find_request rid t) x)
          t.positions
        ≡ some p =
      ground arith in
    let fit =
      find_first-holds
        (λ (x : CurrentPosition).
          x.request_id == rid && is_visible reader (find_session rid t) (find_request rid t) x)
        t.positions p found in
    elim (Option-cases (find_request rid t)) [
      | inl lost ↦ absurd (ground arith)
      | inr (r, known) ↦ (found, ground arith, r, known, ground arith)
    ]

untracked-count :
    (rid : ℕ) (t : Tables) (ps : List CurrentPosition)
    → ((r : ServiceRequest) → find_request rid t ≡ some r → is_trackable r.status ≡ false)
    → All (λ p. is_carried_by p.provider_id (find_request p.request_id t) ≡ true) ps
    → count (λ (p : CurrentPosition). p.request_id == rid) ps ≡ 0
untracked-count rid t [] off all = refl
untracked-count rid t (p ∷ ps) off all = elim (Bool-cases (p.request_id == rid)) [
  | inr other ↦ ground (arith, untracked-count rid t ps off all.1)
  | inl own ↦
      let same : p.request_id ≡ rid = ground arith in
      let carried = subst (λ j. is_carried_by p.provider_id (find_request j t) ≡ true) same all.0 in
      elim (Option-cases (find_request rid t)) [
        | inl lost ↦ absurd (ground (arith, carried))
        | inr (r, found) ↦ absurd (ground (arith, carried, off r found))
      ]
]

module _ (distance : Point → Point → ℕ) (cfg : Config) (providers : List Provider) (staff : List ℕ)
    (cs : List (ℕ × Command)) where
  abbrev reached : Tables
  reached = (run distance cfg cs (opening providers staff)).tables

  positions_carried :
      All
        (λ p. is_carried_by p.provider_id (find_request p.request_id reached) ≡ true)
        reached.positions
  positions_carried =
      let h = run-opening-Carried distance cfg providers staff cs in
      All-mono (λ p. any (is_source p) reached.sessions ≡ true)
        (λ p. is_carried_by p.provider_id (find_request p.request_id reached) ≡ true)
        reached.positions (λ p e. any-carried reached p reached.sessions h.rightful e) h.sourced

  -- After any history on a database that holds providers and staff only: a position that a reader
  -- is shown for a request is of that request and of the provider assigned to it, the request is
  -- on the way or in progress, and the reader is its provider, its customer or the operations.
  pub run-find_current_position :
      (reader : Reader) (rid : ℕ) (p : CurrentPosition)
      → find_current_provider_position cfg reader rid reached ≡ some p
      → (r : ServiceRequest) × (find_request rid reached ≡ some r)
        × (p.request_id ≡ rid)
        × (is_trackable r.status ≡ true)
        × (holds r.assigned_provider_id p.provider_id ≡ true)
        × (may_read reader r ≡ true)
  run-find_current_position reader rid p e =
      let (found, own, r, known, may) = shown_inv cfg reader rid reached p e in
      let carried =
        subst (λ j. is_carried_by p.provider_id (find_request j reached) ≡ true) own
          (All-find_first
            (λ x. is_carried_by x.provider_id (find_request x.request_id reached) ≡ true) _
            reached.positions p positions_carried found) in
      (r, known, own, ground (arith, carried), ground (arith, carried), may)

  -- After any history on such a database, no current position is stored for a request that is
  -- unknown, waits, is assigned but not on the way, or is completed or cancelled.
  pub run-count_positions :
      (rid : ℕ)
      → ((r : ServiceRequest) → find_request rid reached ≡ some r → is_trackable r.status ≡ false)
      → count (λ (p : CurrentPosition). p.request_id == rid) reached.positions ≡ 0
  run-count_positions rid off = untracked-count rid reached reached.positions off positions_carried
