-- ===== src/Market/Winning.antt =====
-- What the approval of a provider's quote by the customer does, in decideQuote.
use moeen.Base.{
  ◌&&◌, ◌++◌, ◌==◌, ◌∙◌, ◌∷◌, ◌≡◌, Bool, Bool-cases, List, [], any, ap, arith, count,
  count-update_where, find_by-key, found-update_first, found-update_where, holds, inl, inr, not, ok,
  some, subst, true, update_by, ℕ,
}
use moeen.Store.{
  Db, Payment, Quote, QuoteStatus, ServiceRequest, Tables, assigned, find_quote, find_request,
  is_proposed, pending_dispatch,
}
use moeen.Market.Decide.{
  Decision, decide_quote, decide_row, decide_tables, decision_tables, insert_payment, new_payment,
  settle, win_row, win_tables,
}
use moeen.Market.Inversion.{decide_quote_inv}
use moeen.Outbox.Writer.{Config}
use moeen.Requests.Opportunities.{
  close_opportunity, is_open_for, is_open_provider_quote, reject_quote,
}

abbrev pub is_loser : ℕ → ℕ → Quote → Bool
is_loser rid qid q = is_open_provider_quote rid q && not (q.id == qid)

any-append_new :
    (qid : ℕ) (ps : List Payment) (p : Payment)
    → p.quote_id ≡ qid
    → any (λ (x : Payment). x.quote_id == qid) (ps ++ (p ∷ [])) ≡ true
any-append_new qid [] p e = ground arith
any-append_new qid (x ∷ ps) p e = ground (arith, any-append_new qid ps p)

insert_payment-pays :
    (rid qid : ℕ) (q : Quote) (t : Tables)
    → q.id ≡ qid
    → any (λ (p : Payment). p.quote_id == qid) (insert_payment rid q t).payments ≡ true
unfolding insert_payment
insert_payment-pays rid qid q t e =
    elim (Bool-cases (any (λ (p : Payment). p.quote_id == q.id) t.payments)) [
      | inl had ↦
          rw had (subst (λ k. any (λ (p : Payment). p.quote_id == k) t.payments ≡ true) e had)
      | inr free ↦ rw free (any-append_new qid t.payments (new_payment rid q t) e)
    ]

module _ (cfg : Config) (now rid cid qid pid : ℕ) (db db' : Db) (row q : Quote)
    (done : decide_quote cfg now rid cid qid Decision.approve db ≡ ok (db', row))
    (quote : find_quote qid db.tables ≡ some q) (owned : q.provider_id ≡ some pid) where
  decided :
      (r : ServiceRequest) × (find_request rid db.tables ≡ some r)
      × (q.request_id ≡ rid)
      × (holds r.customer_id cid ≡ true)
      × (is_proposed q.status ≡ true)
      × (r.status ≡ pending_dispatch)
      × (q.id ≡ qid)
      × (db'.tables
          ≡ win_tables now rid qid pid
              (insert_payment rid q (decide_tables now qid QuoteStatus.approved db.tables)))
  unfolding decision_tables settle
  decided =
      let (q', r, quote', request, own, customer, is_open, timely, left) =
        decide_quote_inv cfg now db db' rid cid qid Decision.approve row done in
      let same : q' ≡ q = ground arith in
      let key : q.id ≡ qid = find_by-key (λ (x : Quote). x.id) qid db.quotes q quote in
      let left' : db'.tables ≡ decision_tables now rid q Decision.approve db.tables =
        subst (λ x. db'.tables ≡ decision_tables now rid x Decision.approve db.tables) same left in
      (r, request, ground arith, customer, ground arith, ground arith, key, ground arith)

  -- A committed approval of a provider's quote found the request pending dispatch, of this
  -- customer, and the quote proposed; it leaves the quote approved, the request assigned to the
  -- provider of the quote, a payment for the quote, no open opportunity for the request, and no
  -- other proposed provider quote.
  pub decide_quote-wins :
      (r : ServiceRequest) × (find_request rid db.tables ≡ some r)
      × (r.status ≡ pending_dispatch)
      × (holds r.customer_id cid ≡ true)
      × (find_request rid db'.tables
          ≡ some (record r { assigned_provider_id = some pid; status = assigned }))
      × (find_quote qid db'.tables ≡ some (decide_row now QuoteStatus.approved q))
      × (any (λ (p : Payment). p.quote_id == qid) db'.payments ≡ true)
      × (count (is_open_for rid) db'.opportunities ≡ 0)
      × (count (is_loser rid qid) db'.quotes ≡ 0)
  unfolding win_tables insert_payment decide_tables
  decide_quote-wins =
      let (r, found, own, customer, is_open, waits, key, left) = decided in
      (
        r,
        found,
        waits,
        customer,
        ap (find_request rid) left
            ∙ (found-update_first (λ (x : ServiceRequest). x.id == rid) (win_row pid) db.requests r
                  (λ x e. e) found
                ∙ ground arith),
        ap (find_quote qid) left
            ∙ (found-update_where (λ (x : Quote). x.id == qid) (is_loser rid qid) (reject_quote now)
                  (update_by (λ (x : Quote). x.id) qid (decide_row now QuoteStatus.approved)
                    db.quotes)
                  (decide_row now QuoteStatus.approved q) (λ x e k. k) (λ x e k. k)
                  (found-update_first (λ (x : Quote). x.id == qid)
                    (decide_row now QuoteStatus.approved) db.quotes q (λ x e. e) quote)
                ∙ ground arith),
        ap (λ (t : Tables). any (λ (p : Payment). p.quote_id == qid) t.payments) left
            ∙ insert_payment-pays rid qid q (decide_tables now qid QuoteStatus.approved db.tables)
                key,
        ap (λ (t : Tables). count (is_open_for rid) t.opportunities) left
            ∙ count-update_where (is_open_for rid) close_opportunity db.opportunities
                (λ o e. ground arith),
        ap (λ (t : Tables). count (is_loser rid qid) t.quotes) left
            ∙ count-update_where (is_loser rid qid) (reject_quote now) _ (λ x e. ground arith),
      )
