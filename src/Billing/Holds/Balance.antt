-- ===== src/Billing/Holds/Balance.antt =====
-- The books of an organization under the operations of internal/repositories/billing/hold.go: what
-- remains, what open holds have frozen and what was used are together what was granted.
use orbit_api.Common.{
  ℕ, ◌+◌, ◌*◌, ◌≡◌, refl, sym, ◌∙◌, inl, inr, false, none, some, List, [], ◌∷◌, ◌++◌, arith,
  Bool-cases,
}
use orbit_api.Common.Int.{ℤ, ◌+ℤ◌, ◌-ℤ◌, int_laws}
use orbit_api.Common.Str.{Str, str_eq, str_eq-eq, str_eq_refl}
use orbit_api.Common.Table.{lookup, update, lookup_key, lookup-update_self, lookup-update_ne}
use orbit_api.Common.Result.{ok}
use orbit_api.Store.{Organization, CreditHold, Db, org_key, hold_key}
use orbit_api.Store.Tx.{Link}
use orbit_api.Billing.Holds.{
  Hold, HoldPlanner, SettleResult, set_credits, expired_sum, settle_expired, place_hold_tx,
  settle_hold_tx, hold_seconds,
}
use orbit_api.Billing.Holds.Sums.{
  open_sum, close_open, open_sum-close, open_sum-append, open_sum-settle_expired,
  open_sum-settle_expired_ne,
}
use orbit_api.Billing.Holds.Steps.{with_credits, Settles, spend, settle_hold_tx-ok}
use orbit_api.Billing.Holds.Placing.{Reclaims, Sized, place_hold_tx-ok}

-- Every organization: remaining + frozen + used = granted.
abbrev pub IsBalanced : Db → Type 0
IsBalanced d =
    (id : Str) (o : Organization)
    → lookup org_key id d.organizations ≡ some o
    → o.credits_remaining_micros +ℤ open_sum id d.holds +ℤ o.credits_used_micros
      ≡ o.credits_granted_micros

-- New credits of one organization, and new holds that are the others' as before.
pub rebalance :
    (d : Db) (id : Str) (o : Organization) (g u r : ℤ) (hs : List CreditHold)
    → IsBalanced d
    → lookup org_key id d.organizations ≡ some o
    → r +ℤ open_sum id hs +ℤ u ≡ g
    → ((j : Str) → str_eq id j ≡ false → open_sum j hs ≡ open_sum j d.holds)
    → IsBalanced (record (with_credits o g u r d) { holds = hs })
rebalance d id o g u r hs balanced found new others j o' found' =
    let same_id : o.id ≡ id = lookup_key org_key id d.organizations found in
    elim (Bool-cases (str_eq id j)) [
      | inl e ↦
          let same : id ≡ j = str_eq-eq id j e in
          let here : lookup org_key id (update org_key id (set_credits g u r) d.organizations)
              ≡ some (set_credits g u r o) =
            lookup-update_self org_key id (set_credits g u r) d.organizations found refl in
          let row : some (set_credits g u r o) ≡ some o' = cc in ground (arith, row, same)
      | inr ne ↦
          let before : lookup org_key j d.organizations ≡ some o' =
            sym (lookup-update_ne org_key j id (set_credits g u r) d.organizations ne (λ x. refl))
            ∙ (cc) in
          rw (others j ne) (balanced j o' before)
    ]

settled-IsBalanced :
    {now : ℕ} {hold_id : Str} {actual : ℤ} {d : Db} {s : SettleResult} {d' : Db}
    → Settles now hold_id actual d s d'
    → IsBalanced d
    → IsBalanced d'
settled-IsBalanced {now} {hold_id} {actual} {d} {s} {d'} done balanced =
    let h = done.hold in
    let o = done.org in
    let org = h.organization_id in
    let same : h.id ≡ hold_id = lookup_key hold_key hold_id d.holds done.hold_found in
    let here : lookup hold_key h.id d.holds ≡ some h = cc done.hold_found in
    rw done.written (
      rebalance d org o o.credits_granted_micros (o.credits_used_micros +ℤ spend actual)
        (o.credits_remaining_micros +ℤ h.amount_micros -ℤ spend actual)
        (update hold_key h.id (λ r. close_open now r) d.holds) balanced done.org_found
        (grind (
          int_laws,
          balanced org o done.org_found,
          open_sum-close now org h.id d.holds here done.was_open,
          str_eq_refl org,
        ))
        (λ j ne. grind (int_laws, open_sum-close now j h.id d.holds here done.was_open)))

-- A settlement, or none: the freeze goes back to what remains, less the spend, which goes to used.
pub settle_hold_tx-IsBalanced :
    (link : Link) (now : ℕ) (hold_id : Str) (actual : ℤ) (d : Db) {s : SettleResult} {d' : Db}
    → settle_hold_tx link now hold_id actual d ≡ ok (s, d')
    → IsBalanced d
    → IsBalanced d'
settle_hold_tx-IsBalanced link now hold_id actual d {s} {d'} e balanced =
    elim (settle_hold_tx-ok link now hold_id actual d e) [
      | inr left ↦ rw left.unchanged balanced
      | inl done ↦ settled-IsBalanced done balanced
    ]

pub reclaimed-IsBalanced :
    {now : ℕ} {org : Str} {d : Db} {n : ℕ} {d' : Db}
    → Reclaims now org d n d'
    → IsBalanced d
    → IsBalanced d'
reclaimed-IsBalanced {now} {org} {d} done balanced =
    let o = done.owner in
    rw done.written (
      rebalance d org o o.credits_granted_micros o.credits_used_micros
        (o.credits_remaining_micros +ℤ expired_sum org now d.holds) (settle_expired org now d.holds)
        balanced done.owner_found
        (grind (int_laws, balanced org o done.owner_found, open_sum-settle_expired now org d.holds))
        (λ j ne. open_sum-settle_expired_ne now org j d.holds ne))

Sized-IsBalanced :
    {now : ℕ} {hold_id org : Str} {threshold ttl : ℤ} {o : Organization} {amount tokens : ℤ}
    {d : Db} {h : Hold} {d' : Db}
    → Sized now hold_id org threshold ttl o amount tokens d h d'
    → lookup org_key org d.organizations ≡ some o
    → IsBalanced d
    → IsBalanced d'
Sized-IsBalanced {now} {hold_id} {org} {threshold} {ttl} {o} {amount} {tokens} {d} done found
      balanced =
    let row : CreditHold = record {
      id = hold_id;
      organization_id = org;
      amount_micros = amount;
      created_at = now;
      expires_at = now + hold_seconds ttl * 1000000;
      settled_at = none;
    } in
    rw done.written (
      rebalance d org o o.credits_granted_micros o.credits_used_micros
        (o.credits_remaining_micros -ℤ amount) (d.holds ++ row ∷ []) balanced found
        (grind (int_laws, balanced org o found, open_sum-append org row d.holds, str_eq_refl org))
        (λ j ne. grind (int_laws, open_sum-append j row d.holds)))

-- A placed hold moves its amount from what remains to what is frozen.
pub place_hold_tx-IsBalanced :
    (link : Link) (now : ℕ) (hold_id org : Str) (threshold ttl : ℤ) (plan : HoldPlanner) (d : Db)
    {h : Hold} {d' : Db}
    → place_hold_tx link now hold_id org threshold ttl plan d ≡ ok (h, d')
    → IsBalanced d
    → IsBalanced d'
place_hold_tx-IsBalanced link now hold_id org threshold ttl plan d e balanced =
    let placed = place_hold_tx-ok link now hold_id org threshold ttl plan d e in
    Sized-IsBalanced placed.sized placed.owner_found (reclaimed-IsBalanced placed.reclaims balanced)
