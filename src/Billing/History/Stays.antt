-- ===== src/Billing/History/Stays.antt =====
-- What no operation of internal/repositories/billing takes back: a request that was recorded, an entry
-- of the ledger, a hold's row, and that a hold is settled. The prices are not written at all.
pub mod Performed
use orbit_api.Common.{
  ℕ, ◌≡◌, refl, sym, ap, ◌∙◌, inl, inr, Bool, true, false, some, List, [], ◌∷◌, ◌++◌, ◌+◌, arith,
  Option-cases, Bool-cases, if◌then◌else◌,
}
use orbit_api.Common.Int.{ℤ}
use orbit_api.Common.Str.{Str, str_eq}
use orbit_api.Common.Table.{lookup, has, update, lookup-append_found, has-append}
use orbit_api.Common.Result.{ok, Result-cases}
use orbit_api.Store.{
  CreditHold, CreditLedgerEntry, InferenceRequest, Db, org_key, hold_key, entry_key, request_key,
}
use orbit_api.Store.Tx.{Tx, Link, transact}
use orbit_api.Billing.Ledger.{
  grant_row, request_row, usage_row, RecordParams, GrantParams, request_tx, new_request, usage_tx,
  record_usage, record_tx, grant_credits, grant_on,
}
use orbit_api.Billing.Holds.{
  SettleResult, HoldPlanner, Hold, is_open, settle_expired, place_hold, place_hold_tx,
  settle_hold_tx, reclaim_expired_holds_tx, reclaim_expired_holds_tx_count,
}
use orbit_api.Billing.Holds.Sums.{close_open}
use orbit_api.Billing.Holds.Steps.{settle_hold_tx-ok}
use orbit_api.Billing.Holds.Placing.{Reclaims, reclaim-ok, place_hold_tx-ok}
use orbit_api.Billing.Sweep.{
  release_hold, release_expired_holds, release_expired_tx, reclaim_each, expired_organizations,
  reclaim_expired_for_org, reclaim_for_org_tx, debit_usage_tx,
}
use orbit_api.Billing.Ledger.Steps.{
  usage_tx-ok, debit_usage_tx-ok, record_tx-ok, Charged, uncharged, debited, by_hold, swept,
  charge_tx-ok, grant_on-ok, with_entry,
}
use orbit_api.Billing.History.{
  Op, placing, releasing, sweeping, reclaiming, recording, granting, perform, perform_all,
}
use orbit_api.Billing.History.Books.{transact_keeps, reclaim_for_org_tx-ok}

-- A hold is never removed, and one that is settled never opens again.
abbrev pub HoldsStay : List CreditHold → List CreditHold → Type 0
HoldsStay hs hs' =
    (k : Str) (h : CreditHold)
    → lookup hold_key k hs ≡ some h
    → (h' : CreditHold) × (lookup hold_key k hs' ≡ some h')
      × (is_open h ≡ false → is_open h' ≡ false)

pub record Stays (d d' : Db) : Type 0 where
  pub requests_stay :
      (k : Str) (r : InferenceRequest)
      → lookup request_key k d.requests ≡ some r
      → lookup request_key k d'.requests ≡ some r
  pub entries_stay : (k : Str) → has entry_key k d.ledger ≡ true → has entry_key k d'.ledger ≡ true
  pub holds_stay : HoldsStay d.holds d'.holds
  pub prices_same : d'.pricing ≡ d.pricing

pub HoldsStay-append : (x : CreditHold) (hs : List CreditHold) → HoldsStay hs (hs ++ x ∷ [])
HoldsStay-append x hs k h found = (h, lookup-append_found hold_key k x hs found, λ shut. shut)

pub HoldsStay-refl : (hs : List CreditHold) → HoldsStay hs hs
HoldsStay-refl hs k h found = (h, found, λ shut. shut)

HoldsStay-cons :
    (x y : CreditHold) (hs hs' : List CreditHold)
    → y.id ≡ x.id
    → (is_open x ≡ false → is_open y ≡ false)
    → HoldsStay hs hs'
    → HoldsStay (x ∷ hs) (y ∷ hs')
unfolding lookup
HoldsStay-cons x y hs hs' same shut stay k h found = elim (Bool-cases (str_eq x.id k)) [
  | inl here ↦
      let one : x ≡ h = ground (arith, found, here) in
      (y, rw same (rw here refl), λ s. shut (rw one s))
  | inr later ↦
      let (h', found', shut') = stay k h (ground (arith, found, later)) in
      (h', rw same (rw later found'), shut')
]

pub HoldsStay-close :
    (now : ℕ) (id : Str) (hs : List CreditHold)
    → HoldsStay hs (update hold_key id (λ r. close_open now r) hs)
unfolding update
HoldsStay-close now id [] = HoldsStay-refl []
HoldsStay-close now id (x ∷ hs) = elim (Bool-cases (str_eq x.id id)) [
  | inl here ↦ rw here (
      HoldsStay-cons x (close_open now x) hs hs (ground arith) (λ s. ground arith)
        (HoldsStay-refl hs))
  | inr later ↦ rw later (HoldsStay-cons x x hs _ refl (λ s. s) (HoldsStay-close now id hs))
]

pub HoldsStay-settle_expired :
    (now : ℕ) (org : Str) (hs : List CreditHold) → HoldsStay hs (settle_expired org now hs)
unfolding settle_expired
HoldsStay-settle_expired now org [] = HoldsStay-refl []
HoldsStay-settle_expired now org (x ∷ hs) =
    HoldsStay-cons x _ hs (settle_expired org now hs) (ground arith) (λ s. ground arith)
      (HoldsStay-settle_expired now org hs)

-- Databases whose tables are the same but for the organizations and the holds.
pub same_but_holds :
    {d d' : Db}
    → d'.requests ≡ d.requests
    → d'.ledger ≡ d.ledger
    → d'.pricing ≡ d.pricing
    → HoldsStay d.holds d'.holds
    → Stays d d'
same_but_holds q l p hold = record {
  requests_stay = λ k r found. rw q found;
  entries_stay = λ k there. rw l there;
  holds_stay = hold;
  prices_same = p;
}

pub Stays-refl : (d : Db) → Stays d d
Stays-refl d = same_but_holds refl refl refl (HoldsStay-refl d.holds)

pub same-Stays : {d d' : Db} → d' ≡ d → Stays d d'
same-Stays {d} same = rw same (Stays-refl d)

pub Stays-trans : {d d1 d2 : Db} → Stays d d1 → Stays d1 d2 → Stays d d2
Stays-trans s t = record {
  requests_stay = λ k r found. t.requests_stay k r (s.requests_stay k r found);
  entries_stay = λ k there. t.entries_stay k (s.entries_stay k there);
  holds_stay = λ k h found.
      let (h1, found1, shut1) = s.holds_stay k h found in
      let (h2, found2, shut2) = t.holds_stay k h1 found1 in
      (h2, found2, λ shut. shut2 (shut1 shut));
  prices_same = t.prices_same ∙ s.prices_same;
}
