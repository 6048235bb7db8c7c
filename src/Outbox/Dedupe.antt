-- ===== src/Outbox/Dedupe.antt =====
-- The dedupe key of writeOnClient.
use moeen.Base.{
  ◌++◌, ◌∷◌, ◌≡◌, ==_refl, Bool, Bool-cases, List, Option, [], any, arith, false, inl, inr, none,
  refl, some, true, ℕ,
}
use moeen.Store.{DedupeKey, Journal, Notification, NotificationType, Recipient, request_code}
use moeen.Outbox.Writer.{Config, Reliability, dedupe_eq, write_on_client}

dedupe_eq_refl : (key : DedupeKey) → dedupe_eq key key ≡ true
dedupe_eq_refl (DedupeKey.request_created a) = ==_refl a
dedupe_eq_refl (DedupeKey.opportunity_invited a p) = ground (arith, ==_refl a, ==_refl p)
dedupe_eq_refl (DedupeKey.provider_assigned a p) = ground (arith, ==_refl a, ==_refl p)
dedupe_eq_refl (DedupeKey.assignment_confirmed a) = ==_refl a
dedupe_eq_refl (DedupeKey.opportunity_closed a p) = ground (arith, ==_refl a, ==_refl p)
dedupe_eq_refl (DedupeKey.status_updated a s) = ground (arith, ==_refl a, ==_refl (request_code s))
dedupe_eq_refl (DedupeKey.quote_received a q) = ground (arith, ==_refl a, ==_refl q)

abbrev pub has_key : DedupeKey → List Notification → Bool
has_key key rows = any (λ (n : Notification). dedupe_eq key n.dedupe_key) rows

any-last :
    (q : Notification → Bool) (rows : List Notification) (n : Notification)
    → q n ≡ true
    → any q (rows ++ (n ∷ [])) ≡ true
any-last q [] n e = ground arith
any-last q (x ∷ rows) n e = ground (arith, any-last q rows n)

taken-write :
    (cfg : Config) (now : ℕ) (type : NotificationType) (rid : ℕ) (recipient : Option Recipient)
    (key : DedupeKey) (reliability : Reliability) (j : Journal)
    → has_key key j.outbox ≡ true
    → write_on_client cfg now type rid recipient key reliability j ≡ j
unfolding write_on_client
taken-write cfg now type rid none key reliability j e = refl
taken-write cfg now type rid (some r) key reliability j e =
    elim (Bool-cases cfg.notifications_enabled) [ inl on ↦ rw (on, e) refl | inr off ↦ rw off refl ]

off-write :
    (cfg : Config) (now : ℕ) (type : NotificationType) (rid : ℕ) (recipient : Option Recipient)
    (key : DedupeKey) (reliability : Reliability) (j : Journal)
    → cfg.notifications_enabled ≡ false
    → write_on_client cfg now type rid recipient key reliability j ≡ j
unfolding write_on_client
off-write cfg now type rid none key reliability j e = refl
off-write cfg now type rid (some r) key reliability j e = rw e refl

-- What the writer leaves under a key with a recipient, while notifications are enabled.
has_key-write :
    (cfg : Config) (now : ℕ) (type : NotificationType) (rid : ℕ) (r : Recipient) (key : DedupeKey)
    (reliability : Reliability) (j : Journal)
    → cfg.notifications_enabled ≡ true
    → has_key key (write_on_client cfg now type rid (some r) key reliability j).outbox ≡ true
unfolding write_on_client
has_key-write cfg now type rid r key reliability j on = elim (Bool-cases (has_key key j.outbox)) [
  | inl taken ↦ rw (on, taken) taken
  | inr free ↦
      rw (on, free)
        (any-last (λ (n : Notification). dedupe_eq key n.dedupe_key) j.outbox _
          (dedupe_eq_refl key))
]

-- Writing again under the key of an earlier write to a recipient, at whatever time, of whatever
-- type, to whatever recipient and with whatever reliability, changes nothing.
pub write_on_client-twice :
    (cfg : Config) (now later : ℕ) (type other : NotificationType) (rid sid : ℕ) (r : Recipient)
    (recipient : Option Recipient) (key : DedupeKey) (reliability again : Reliability) (j : Journal)
    → write_on_client cfg later other sid recipient key again
        (write_on_client cfg now type rid (some r) key reliability j)
      ≡ write_on_client cfg now type rid (some r) key reliability j
write_on_client-twice cfg now later type other rid sid r recipient key reliability again j =
    elim (Bool-cases cfg.notifications_enabled) [
      | inl on ↦
          taken-write cfg later other sid recipient key again _
            (has_key-write cfg now type rid r key reliability j on)
      | inr off ↦ off-write cfg later other sid recipient key again _ off
    ]
