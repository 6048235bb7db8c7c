-- ===== src/Service/Unique.antt =====
-- The list of invited providers that the service passes on names each of them once.
use moeen.Base.{
  ◌||◌, ◌∙◌, ◌∷◌, ◌≡◌, >>=-eq-ok, Bool, Bool-cases, List, Text, [], any, ap, arith, count,
  count-delete_where, delete_where, false, guard-eq-ok, if◌then◌else◌, inl, inr, is_empty, not, ok,
  refl, subst, sym, text_eq, text_eq_iff, total-delete_where-eq, trim,
}
use moeen.Json.{Items, Json}
use moeen.Service.Accounts.{ServiceError}
use moeen.Service.Invitations.{distinct_texts, normalize_provider_invitation_ids, trimmed_ids}

count-distinct_texts :
    (t : Text) (ts : List Text)
    → count (text_eq t) (distinct_texts ts) ≡ (if any (text_eq t) ts then 1 else 0)
unfolding distinct_texts
count-distinct_texts t [] = refl
count-distinct_texts t (u ∷ us) = elim (Bool-cases (text_eq t u)) [
  | inl same ↦
      let e : t ≡ u = (text_eq_iff t u).0 same in
      let gone =
        subst (λ (v : Text). count (text_eq v) (delete_where (text_eq u) (distinct_texts us)) ≡ 0)
          (sym e) (count-delete_where (text_eq u) (distinct_texts us)) in
      rw same (omega (arith, gone))
  | inr other ↦
      let kept =
        total-delete_where-eq (λ x. if text_eq t x then 1 else 0) (text_eq u) (distinct_texts us)
          (λ x e. ground (arith, other, text_eq_iff u x, text_eq_iff t x, text_eq_iff t u)) in
      rw other (omega (arith, kept, count-distinct_texts t us))
]

-- Whether the body names a provider: one of its texts is the identifier, less white space around.
unfoldable pub names : Text → Items → Bool
unfolding text_eq trim
names t Items.no_items = false
names t (Items.item (Json.text u) rest) = text_eq t (trim u) || names t rest
names t (Items.item _ rest) = names t rest

any-trimmed_ids :
    (t : Text) (items : Items) (ids : List Text)
    → trimmed_ids items ≡ ok ids
    → any (text_eq t) ids ≡ names t items
unfolding trimmed_ids names
any-trimmed_ids t Items.no_items ids e =
    let none_left : [] ≡ ids = cc in
    subst (λ (l : List Text). any (text_eq t) l ≡ false) none_left refl
any-trimmed_ids t (Items.item (Json.text u) rest) ids e =
    let (later, p, q) = >>=-eq-ok (trimmed_ids rest) _ e in
    let same : (trim u ∷ later) ≡ ids = cc in
    subst (λ (l : List Text). any (text_eq t) l ≡ (text_eq t (trim u) || names t rest)) same
      (ap (λ b. text_eq t (trim u) || b) (any-trimmed_ids t rest later p))
any-trimmed_ids t (Items.item Json.null rest) ids e = cc
any-trimmed_ids t (Items.item (Json.boolean b) rest) ids e = cc
any-trimmed_ids t (Items.item (Json.number n) rest) ids e = cc
any-trimmed_ids t (Items.item (Json.array xs) rest) ids e = cc
any-trimmed_ids t (Items.item (Json.object fs) rest) ids e = cc

-- A list of invitations that is accepted becomes a list that is not empty, and that holds each
-- identifier that the body names, less white space around it, exactly once and no other.
pub normalize_provider_invitation_ids-count :
    (items : Items) (ids : List Text)
    → normalize_provider_invitation_ids (Json.array items) ≡ ok ids
    → (is_empty ids ≡ false)
      × ((t : Text) → count (text_eq t) ids ≡ (if names t items then 1 else 0))
unfolding normalize_provider_invitation_ids
normalize_provider_invitation_ids-count items ids e =
    let (sent, read, e1) = >>=-eq-ok (trimmed_ids items) _ e in
    let (some_left, e2) =
      guard-eq-ok (not (is_empty (distinct_texts sent))) ServiceError.invitations_empty _ e1 in
    let same : distinct_texts sent ≡ ids = cc in
    (
      ground (arith, some_left, same),
      λ t.
          subst (λ (l : List Text). count (text_eq t) l ≡ (if names t items then 1 else 0)) same
            (count-distinct_texts t sent
              ∙ ap (λ b. if b then 1 else 0) (any-trimmed_ids t items sent read)),
    )
