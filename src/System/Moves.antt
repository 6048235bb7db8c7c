-- ===== src/System/Moves.antt =====
-- The life of a request as a state machine: the specification that System/Refinement reads the
-- transactions against.
use Prim.Native.String.{String}
use moeen.Base.{◌++◌, ◌∷◌, ◌≡◌, List, Option, [], arith, find_by, none, some, true, update_by, ℕ}
use moeen.Store.{ProviderStatus, RequestStatus, ServiceRequest, Tables, includes}
use moeen.Requests.Transition.{allowed_previous_statuses, provider_previous_statuses, to_status}

-- How a status may change.
pub data Edge : RequestStatus → RequestStatus → Type 0 where
  departs : Edge RequestStatus.assigned RequestStatus.on_the_way
  begins : Edge RequestStatus.on_the_way RequestStatus.in_progress
  finishes : Edge RequestStatus.in_progress RequestStatus.completed
  drops : Edge RequestStatus.pending_dispatch RequestStatus.cancelled
  calls_off : Edge RequestStatus.assigned RequestStatus.cancelled
  turns_back : Edge RequestStatus.on_the_way RequestStatus.cancelled

-- A move: a provider is assigned to a pending request, the status follows an edge, or a completed
-- request is rated for the first time.
pub data Move : ServiceRequest → ServiceRequest → Type 0 where
  dispatched :
      (r : ServiceRequest) (pid : ℕ)
      → r.status ≡ RequestStatus.pending_dispatch
      → Move r (record r { assigned_provider_id = some pid; status = RequestStatus.assigned })
  advanced :
      (r : ServiceRequest) (status : RequestStatus)
      → Edge r.status status
      → Move r (record r { status = status })
  rated :
      (r : ServiceRequest) (stars : ℕ) (comment : Option String)
      → r.status ≡ RequestStatus.completed
      → r.rating ≡ none
      → Move r (record r { rating = some stars; rating_comment = comment })

-- What a transaction does to the table of requests, whose next identifier is `next`.
pub data Change (next : ℕ) (before after : List ServiceRequest) : Type 0 where
  kept : after ≡ before → Change next before after
  added :
      (r : ServiceRequest)
      → r.id ≡ next
      → r.status ≡ RequestStatus.pending_dispatch
      → r.assigned_provider_id ≡ none
      → r.rating ≡ none
      → after ≡ before ++ (r ∷ [])
      → Change next before after
  moved :
      (rid : ℕ) (r : ServiceRequest) (f : ServiceRequest → ServiceRequest)
      → find_by (λ (x : ServiceRequest). x.id) rid before ≡ some r
      → ((x : ServiceRequest) → (f x).id ≡ x.id)
      → Move r (f r)
      → after ≡ update_by (λ (x : ServiceRequest). x.id) rid f before
      → Change next before after

abbrev pub Changes : Tables → Tables → Type 0
Changes t t' = Change t.next_request_id t.requests t'.requests

-- The guards of the two status operations are the edges.
pub provider-Edge :
    (target : ProviderStatus) (a : RequestStatus)
    → includes (provider_previous_statuses target) a ≡ true
    → Edge a (to_status target)
provider-Edge ProviderStatus.on_the_way RequestStatus.assigned e = departs
provider-Edge ProviderStatus.in_progress RequestStatus.on_the_way e = begins
provider-Edge ProviderStatus.completed RequestStatus.in_progress e = finishes
provider-Edge _ _ e = absurd (ground arith)

pub staff-Edge :
    (status a : RequestStatus) (previous : List RequestStatus)
    → allowed_previous_statuses status ≡ some previous
    → includes previous a ≡ true
    → Edge a status
staff-Edge RequestStatus.on_the_way RequestStatus.assigned previous e i = departs
staff-Edge RequestStatus.in_progress RequestStatus.on_the_way previous e i = begins
staff-Edge RequestStatus.completed RequestStatus.in_progress previous e i = finishes
staff-Edge RequestStatus.cancelled RequestStatus.pending_dispatch previous e i = drops
staff-Edge RequestStatus.cancelled RequestStatus.assigned previous e i = calls_off
staff-Edge RequestStatus.cancelled RequestStatus.on_the_way previous e i = turns_back
staff-Edge _ _ previous e i = absurd (ground arith)
