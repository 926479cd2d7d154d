-- ===== src/Billing/Ledger/Spending.antt =====
-- Record of internal/repositories/billing/repository.go keeps the used column of an organization
-- equal to the usage in the ledger, on each way that a request is charged.
use orbit_api.Common.{
  ℕ, ◌≡◌, ◌≢◌, sym, ap, ◌∙◌, ◌⊎◌, inl, inr, true, false, none, some, [], ◌∷◌, ◌++◌, arith,
  Bool-cases,
}
use orbit_api.Common.Int.{ℤ, pos, ◌+ℤ◌, ◌-ℤ◌, int_laws}
use orbit_api.Common.Str.{Str, str_eq_refl, is_empty}
use orbit_api.Common.Table.{lookup, lookup_key, has, has-missing}
use orbit_api.Common.Result.{ok}
use orbit_api.Store.{Organization, CreditHold, Db, org_key, hold_key, entry_key}
use orbit_api.Store.Tx.{Link}
use orbit_api.Billing.Holds.{SettleResult, is_open}
use orbit_api.Billing.Holds.Steps.{with_credits, Settles, spend, settle_hold_tx-ok}
use orbit_api.Billing.Sweep.{debit_usage_tx}
use orbit_api.Billing.Invariants.{Used, IsUsed, recredit, entry_sum, entry_sum-append}
use orbit_api.Billing.Ledger.{RecordParams, usage, usage_key, usage_row, actual_of}
use orbit_api.Billing.Ledger.Steps.{
  with_entry, costs, debit_usage_tx-ok, Charged, uncharged, debited, by_hold, swept,
}

-- The hold of a request is its organization's, and is open only until its usage is in the ledger.
pub record HoldFits (p : RecordParams) (d : Db) : Type 0 where
  pub hold : CreditHold
  pub hold_found : lookup hold_key p.hold_id d.holds ≡ some hold
  pub owner : hold.organization_id ≡ p.organization_id
  pub unspent : is_open hold ≡ true → has entry_key (usage_key p.idempotency_key) d.ledger ≡ false

spend_free : (p : RecordParams) → costs p ≡ false → spend (actual_of p) ≡ pos 0
spend_free p h = ground arith

pub spend_costly :
    (p : RecordParams)
    → costs p ≡ true
    → (spend (actual_of p) ≡ p.amount_micros) × (actual_of p ≡ p.amount_micros)
spend_costly p h = ground arith

-- A debit of nothing, or a settlement that spends nothing, in a ledger that stays.
spends_nothing :
    (d d' : Db) (id : Str) (o : Organization) (g r : ℤ)
    → lookup org_key id d.organizations ≡ some o
    → d'.organizations ≡ (with_credits o g (o.credits_used_micros +ℤ pos 0) r d).organizations
    → d'.ledger ≡ d.ledger
    → IsUsed d
    → IsUsed d'
spends_nothing d d' id o g r found written same all =
    recredit (Used d) (Used d') d d' id o g (o.credits_used_micros +ℤ pos 0) r found written
      (lookup_key org_key id d.organizations found) all (rw same (grind (int_laws, all id o found)))
      (λ j x ne p. p ∙ ap (entry_sum usage j) (sym same))

-- The amount of an entry that is new in the ledger, spent by its organization.
pub spends_entry :
    (now : ℕ) (request_id : Str) (p : RecordParams) (d d2 d' : Db) (o : Organization) (g r : ℤ)
    → d2 ≡ with_entry (usage_row now request_id p) d
    → lookup org_key p.organization_id d2.organizations ≡ some o
    → d'.organizations
      ≡ (with_credits o g (o.credits_used_micros +ℤ p.amount_micros) r d2).organizations
    → d'.ledger ≡ d2.ledger
    → IsUsed d
    → IsUsed d'
spends_entry now request_id p d d2 d' o g r entered found written same all =
    let row = usage_row now request_id p in
    let org = p.organization_id in
    let ledger : d'.ledger ≡ d.ledger ++ row ∷ [] = same ∙ ap (λ (x : Db). x.ledger) entered in
    let orgs : d2.organizations ≡ d.organizations = ap (λ (x : Db). x.organizations) entered in
    let found0 : lookup org_key org d.organizations ≡ some o =
      ap (lookup org_key org) (sym orgs) ∙ found in
    recredit (Used d) (Used d') d2 d' org o g (o.credits_used_micros +ℤ p.amount_micros) r found
      written (lookup_key org_key org d2.organizations found)
      (λ j x f. all j x (ap (lookup org_key j) (sym orgs) ∙ f))
      (rw ledger (
        grind (
          int_laws,
          all org o found0,
          entry_sum-append usage org row d.ledger,
          str_eq_refl usage,
          str_eq_refl org,
        )))
      (λ j x ne before. rw ledger (grind (int_laws, before, entry_sum-append usage j row d.ledger)))

-- The two ways in which a request's hold fits it: there is none, or it is as `HoldFits` says.
abbrev pub Fitting : RecordParams → Db → Type 0
Fitting p d = (p.hold_id ≡ []) ⊎ HoldFits p d

-- What a settlement wrote, with its spend known.
pub written_as :
    {now : ℕ} {hold_id : Str} {actual z : ℤ} {d : Db} {s : SettleResult} {d' : Db}
    (done : Settles now hold_id actual d s d')
    → spend actual ≡ z
    → d'.organizations
      ≡ (with_credits done.org done.org.credits_granted_micros
          (done.org.credits_used_micros +ℤ z)
          (done.org.credits_remaining_micros +ℤ done.hold.amount_micros -ℤ z)
          d).organizations
written_as {d} done e =
    ap (λ (x : Db). x.organizations) done.written
    ∙ ap
        (λ (y : ℤ).
          (with_credits done.org done.org.credits_granted_micros (done.org.credits_used_micros +ℤ y)
            (done.org.credits_remaining_micros +ℤ done.hold.amount_micros -ℤ y) d).organizations)
        e

-- An open hold that fits, of a request whose usage is not new: the request was free.
unspent_is_free :
    {now : ℕ} {p : RecordParams} {actual : ℤ} {d : Db} {s : SettleResult} {d' : Db}
    → Settles now p.hold_id actual d s d'
    → Fitting p d
    → is_empty p.hold_id ≡ false
    → (costs p ≡ true → has entry_key (usage_key p.idempotency_key) d.ledger ≡ true)
    → costs p ≡ false
unspent_is_free {p} done (inl blank) held taken = absurd (ground (arith, blank))
unspent_is_free {p} {d} done (inr f) held taken = elim (Bool-cases (costs p)) [
  | inr free ↦ free
  | inl costly ↦
      let there = taken costly in
      let same : done.hold ≡ f.hold = cc (done.hold_found, f.hold_found) in
      let opened : is_open f.hold ≡ true = ap is_open (sym same) ∙ done.was_open in
      let missing = f.unspent opened in absurd (cc (there, missing))
]

pub no_new_usage :
    {link : Link} {now : ℕ} {p : RecordParams} {n : ℕ} {d d' : Db}
    → Charged link now p n d d'
    → n ≡ 0
    → (costs p ≡ true → has entry_key (usage_key p.idempotency_key) d.ledger ≡ true)
    → Fitting p d
    → IsUsed d
    → IsUsed d'
no_new_usage (uncharged h z kept) zero_rows taken fits all = rw kept all
no_new_usage (debited h i debit) zero_rows taken fits all = absurd (omega arith)
no_new_usage (swept r d1 held done i a f debit) zero_rows taken fits all = absurd (omega arith)
no_new_usage {link} {now} {p} {n} {d} {d'} (by_hold r held settled_hold why) zero_rows taken fits
      all =
    elim (settle_hold_tx-ok link now p.hold_id (actual_of p) d settled_hold) [
      | inr left ↦ rw left.unchanged all
      | inl done ↦
          let free : costs p ≡ false = unspent_is_free done fits held taken in
          let nothing : spend (actual_of p) ≡ pos 0 = spend_free p free in
          spends_nothing d d' done.hold.organization_id done.org _ _ done.org_found
            (written_as done nothing) (ap (λ (x : Db). x.ledger) done.written) all
    ]

-- A debit of a new entry's amount, for an organization that is there and has a name.
pub debits_entry :
    (link : Link) (now : ℕ) (request_id org : Str) (amount : ℤ) (p : RecordParams) (d d2 : Db)
    {d' : Db}
    → d2 ≡ with_entry (usage_row now request_id p) d
    → has org_key p.organization_id d.organizations ≡ true
    → p.organization_id ≢ []
    → org ≡ p.organization_id
    → amount ≡ p.amount_micros
    → costs p ≡ true
    → debit_usage_tx link org amount d2 ≡ ok (tt, d')
    → IsUsed d
    → IsUsed d'
debits_entry link now request_id org amount p d d2 {d'} entered there named same_org same costly e
      all =
    elim (debit_usage_tx-ok link org amount d2 e) [
      | inl (kept, inl blank) ↦ absurd (named (sym same_org ∙ blank))
      | inl (kept, inr (inl free)) ↦ absurd (ground (arith, same, costly))
      | inl (kept, inr (inr missing)) ↦
          let gone : lookup org_key p.organization_id d.organizations ≡ none =
            rw (entered, same_org) at missing in
          absurd (cc (there, has-missing org_key p.organization_id d.organizations gone))
      | inr (o, found, written) ↦
          spends_entry now request_id p d d2 d' o _ _ entered
            (ap (λ (i : Str). lookup org_key i d2.organizations) (sym same_org) ∙ found)
            (ap (λ (x : Db). x.organizations) written
              ∙ ap
                  (λ (a : ℤ).
                    (with_credits o o.credits_granted_micros (o.credits_used_micros +ℤ a)
                      (o.credits_remaining_micros -ℤ a) d2).organizations)
                  same)
            (ap (λ (x : Db). x.ledger) written) all
    ]
