-- ===== src/Billing/Processor/Request.antt =====
-- A request from its hold to its record: what it costs in the end.
use orbit_api.Common.{ℕ, ◌≡◌, ◌≢◌, refl, sym, ap, ap₂, ◌∙◌, inl, inr, true, some, [], arith}
use orbit_api.Common.Int.{ℤ, ◌+ℤ◌, ◌-ℤ◌, int_laws}
use orbit_api.Common.Str.{Str}
use orbit_api.Common.Table.{lookup}
use orbit_api.Common.Result.{ok}
use orbit_api.Store.{Organization, CreditHold, Db, org_key, hold_key}
use orbit_api.Store.Tx.{Link, transact-eq-ok}
use orbit_api.Billing.Holds.{Hold, HoldPlanner, SettleResult, is_open, set_credits, place_hold}
use orbit_api.Billing.Holds.Steps.{with_credits, Settles, Leaves, spend, settle_hold_tx-ok}
use orbit_api.Billing.Ledger.{RecordParams, record_usage, record_tx, actual_of, usage_tx}
use orbit_api.Billing.Ledger.Steps.{
  request_tx-ok, usage_tx-ok, record_tx-ok, Charged, uncharged, debited, by_hold, swept,
  charge_tx-ok,
}
use orbit_api.Billing.Processor.Effect.{Places-Frozen, place_hold-Places, new_hold, credited}

-- The tables that a settlement reads are those before the record.
usage-kept :
    (link : Link) (now : ℕ) (request_id : Str) (p : RecordParams) (d : Db) {n : ℕ} {d' : Db}
    → usage_tx link now request_id p d ≡ ok (n, d')
    → (d'.organizations ≡ d.organizations) × (d'.holds ≡ d.holds)
usage-kept link now request_id p d e = elim (usage_tx-ok link now request_id p d e) [
  | inl (z, kept, taken) ↦ (ap (λ (x : Db). x.organizations) kept, ap (λ (x : Db). x.holds) kept)
  | inr (o, written, c, f, there) ↦
      (ap (λ (x : Db). x.organizations) written, ap (λ (x : Db). x.holds) written)
]

never_left :
    {hold_id : Str} {d : Db} {s : SettleResult} {d' : Db} {w : CreditHold}
    → Leaves hold_id d s d'
    → hold_id ≢ []
    → lookup hold_key hold_id d.holds ≡ some w
    → is_open w ≡ true
    → ⊥
never_left {hold_id} {d} left named found opened = elim left.missing_or_settled [
  | inl blank ↦ named blank
  | inr (inl (missing, nothing)) ↦ cc (missing, found)
  | inr (inr (h, there, shut, f, o)) ↦ ground (arith, there, found, shut, opened)
]

-- An open hold that is recorded is settled.
Settles-open :
    {link : Link} {now : ℕ} {p : RecordParams} {n : ℕ} {d d' : Db} {w : CreditHold}
    → Charged link now p n d d'
    → p.hold_id ≢ []
    → lookup hold_key p.hold_id d.holds ≡ some w
    → is_open w ≡ true
    → (s : SettleResult) × Settles now p.hold_id (actual_of p) d s d'
Settles-open (uncharged h z kept) named found opened = absurd (named h)
Settles-open (debited h i debit) named found opened = absurd (named h)
Settles-open {link} {now} {p} {n} {d} (by_hold r held done why) named found opened =
    elim (settle_hold_tx-ok link now p.hold_id (actual_of p) d done) [
      | inl settles ↦ (r, settles)
      | inr left ↦ absurd (never_left left named found opened)
    ]
Settles-open {link} {now} {p} {n} {d} (swept r d1 held done i a f debit) named found opened =
    elim (settle_hold_tx-ok link now p.hold_id (actual_of p) d done) [
      | inl settles ↦
          absurd (let h = ap (λ (x : SettleResult). x.applied) settles.answer in cc (h, a))
      | inr left ↦ absurd (never_left left named found opened)
    ]

given_back : (r b a z : ℤ) → r ≡ b -ℤ a → r +ℤ a -ℤ z ≡ b -ℤ z
given_back r b a z h = grind (int_laws, h)

-- What a settlement makes of a known hold of a known organization.
Settles-credited :
    {now : ℕ} {hold_id : Str} {actual : ℤ} {d : Db} {s : SettleResult} {d' : Db} {w : CreditHold}
    {o : Organization}
    → Settles now hold_id actual d s d'
    → lookup hold_key hold_id d.holds ≡ some w
    → lookup org_key w.organization_id d.organizations ≡ some o
    → lookup org_key w.organization_id d'.organizations
      ≡ some (
          set_credits o.credits_granted_micros
            (o.credits_used_micros +ℤ spend actual)
            (o.credits_remaining_micros +ℤ w.amount_micros -ℤ spend actual)
            o)
Settles-credited {actual} {d} {d'} {w} {o} done found o_found =
    let one : w ≡ done.hold = cc (found, done.hold_found) in
    let theirs : lookup org_key w.organization_id d.organizations ≡ some done.org =
      ap (λ (x : CreditHold). lookup org_key x.organization_id d.organizations) one
      ∙ done.org_found in
    let two : done.org ≡ o = cc (o_found, theirs) in
    credited d d' w.organization_id o _ _ _ o_found (
      ap (λ (x : Db). x.organizations) done.written
      ∙ ap₂
          (λ (y : Organization) (v : CreditHold).
            (with_credits y y.credits_granted_micros (y.credits_used_micros +ℤ spend actual)
              (y.credits_remaining_micros +ℤ v.amount_micros -ℤ spend actual) d).organizations)
          two (sym one))

-- A request whose hold was placed and is recorded costs what it used, whatever was frozen: the
-- organization's balance is what it was before the hold, less the spend, and its used credits have
-- grown by the spend. The spend of a request that failed is nothing.
pub place_then_record :
    (link link' : Link) (now now' : ℕ) (hold_id org request_id : Str) (threshold ttl : ℤ)
    (plan : HoldPlanner) (p : RecordParams) (d : Db) (o : Organization) {h : Hold} {d1 : Db}
    {s : SettleResult} {d2 : Db}
    → place_hold link now hold_id org threshold ttl (some plan) d ≡ (ok h, d1)
    → lookup org_key org d1.organizations ≡ some o
    → p.hold_id ≡ hold_id
    → hold_id ≢ []
    → record_usage link' now' request_id p d1 ≡ (ok s, d2)
    → (o' : Organization) × (lookup org_key org d2.organizations ≡ some o')
      × (o'.credits_remaining_micros ≡ h.remaining_before_micros -ℤ spend (actual_of p))
      × (o'.credits_used_micros ≡ o.credits_used_micros +ℤ spend (actual_of p))
unfolding record_usage
place_then_record link link' now now' hold_id org request_id threshold ttl plan p d o {h} {d1} {s}
      {d2} placed o_found same_id named recorded =
    let froze =
      Places-Frozen (place_hold-Places link now hold_id org threshold ttl plan d placed) in
    let went = transact-eq-ok link' (record_tx link' now' request_id p) d1 recorded in
    let (request, da, n, db, requested, used, charge) =
      record_tx-ok link' now' request_id p d1 went in
    let kept = request_tx-ok link' now' request_id p d1 requested in
    let (orgs, holds) = usage-kept link' now' request p da used in
    let row = new_hold now hold_id org h.amount_micros ttl in
    let found : lookup hold_key p.hold_id db.holds ≡ some row =
      rw (same_id, holds, kept.holds_kept) froze.row_found in
    let (answer, done) =
      Settles-open (charge_tx-ok link' now' p n db {s = s} charge) (λ e. named (sym same_id ∙ e))
        found refl in
    let o_there : lookup org_key org db.organizations ≡ some o =
      ap (lookup org_key org) (orgs ∙ kept.organizations_kept) ∙ o_found in
    let same : froze.owner ≡ o = cc (froze.owner_found, o_found) in
    let left : o.credits_remaining_micros ≡ h.remaining_before_micros -ℤ h.amount_micros =
      ap (λ (x : Organization). x.credits_remaining_micros) (sym same) ∙ froze.remaining in
    (_, Settles-credited done found o_there, given_back _ _ _ _ left, refl)
