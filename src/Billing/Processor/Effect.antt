-- ===== src/Billing/Processor/Effect.antt =====
-- The two ends of a request: the hold that is placed before it, and the record that settles it.
use orbit_api.Common.{ℕ, ◌+◌, ◌*◌, ◌≡◌, refl, sym, ap, ◌∙◌, none, some, [], ◌∷◌, arith}
use orbit_api.Common.Int.{ℤ, pos, ◌-ℤ◌, ◌≤ℤ◌, int_laws}
use orbit_api.Common.Word.{sub64, sub64-in_range}
use orbit_api.Common.Str.{Str}
use orbit_api.Common.Table.{
  lookup, update, has-lookup, lookup_key, lookup-update_self, lookup-append_self,
}
use orbit_api.Common.Result.{ok}
use orbit_api.Store.{Organization, CreditHold, Db, org_key, hold_key}
use orbit_api.Store.Tx.{Link, transact-eq-ok}
use orbit_api.Billing.Holds.{
  Hold, HoldPlanner, set_credits, hold_seconds, place_hold, place_hold_tx,
}
use orbit_api.Billing.Holds.Steps.{with_credits}
use orbit_api.Billing.Holds.Placing.{Places, place_hold_tx-ok}

pub place_hold-Places :
    (link : Link) (now : ℕ) (hold_id org : Str) (threshold ttl : ℤ) (plan : HoldPlanner) (d : Db)
    {h : Hold} {d' : Db}
    → place_hold link now hold_id org threshold ttl (some plan) d ≡ (ok h, d')
    → Places now hold_id org threshold ttl plan d h d'
unfolding place_hold
place_hold-Places link now hold_id [] threshold ttl plan d e = absurd (ground arith)
place_hold-Places link now hold_id (c ∷ cs) threshold ttl plan d e =
    place_hold_tx-ok link now hold_id (c ∷ cs) threshold ttl plan d
      (transact-eq-ok link (place_hold_tx link now hold_id (c ∷ cs) threshold ttl plan) d e)

-- The open row of a new hold.
abbrev pub new_hold : ℕ → Str → Str → ℤ → ℤ → CreditHold
new_hold now hold_id org amount ttl = record {
  id = hold_id;
  organization_id = org;
  amount_micros = amount;
  created_at = now;
  expires_at = now + hold_seconds ttl * 1000000;
  settled_at = none;
}

-- The row that a write of credits leaves.
pub credited :
    (d d' : Db) (org : Str) (o : Organization) (g u r : ℤ)
    → lookup org_key org d.organizations ≡ some o
    → d'.organizations ≡ (with_credits o g u r d).organizations
    → lookup org_key org d'.organizations ≡ some (set_credits g u r o)
credited d d' org o g u r found written =
    ap (lookup org_key org) written
    ∙ ap (λ (i : Str). lookup org_key org (update org_key i (set_credits g u r) d.organizations))
        (lookup_key org_key org d.organizations found)
    ∙ lookup-update_self org_key org (set_credits g u r) d.organizations found refl

-- What a placed hold leaves: its organization's row, less the amount, and its own open row.
pub record Frozen (now : ℕ) (hold_id org : Str) (ttl : ℤ) (h : Hold) (d' : Db) : Type 0 where
  pub owner : Organization
  pub owner_found : lookup org_key org d'.organizations ≡ some owner
  pub remaining : owner.credits_remaining_micros ≡ h.remaining_before_micros -ℤ h.amount_micros
  pub row_found :
      lookup hold_key hold_id d'.holds ≡ some (new_hold now hold_id org h.amount_micros ttl)

pub Places-Frozen :
    {now : ℕ} {hold_id org : Str} {threshold ttl : ℤ} {plan : HoldPlanner} {d : Db} {h : Hold}
    {d' : Db}
    → Places now hold_id org threshold ttl plan d h d'
    → Frozen now hold_id org ttl h d'
Places-Frozen {now} {hold_id} {org} {threshold} {ttl} {plan} {d} {h} {d'} placed =
    let s = placed.sized in
    let o = placed.owner in
    let d1 = placed.reclaimed in
    let row = new_hold now hold_id org placed.amount ttl in
    let amount : h.amount_micros ≡ placed.amount = ap (λ (x : Hold). x.amount_micros) s.answer in
    let before : h.remaining_before_micros ≡ o.credits_remaining_micros =
      ap (λ (x : Hold). x.remaining_before_micros) s.answer in
    record {
      owner =
          set_credits o.credits_granted_micros o.credits_used_micros
            (o.credits_remaining_micros -ℤ placed.amount) o;
      owner_found =
          credited d1 d' org o _ _ _ placed.owner_found
            (ap (λ (x : Db). x.organizations) s.written);
      remaining = rw (amount, before);
      row_found =
          ap (λ (x : Db). lookup hold_key hold_id x.holds) s.written
          ∙ lookup-append_self hold_key row d1.holds (has-lookup hold_key hold_id d1.holds s.fresh)
          ∙ ap (λ (a : ℤ). some (new_hold now hold_id org a ttl)) (sym amount);
    }

-- A hold that goes through is covered by the balance: the balance was at least the threshold and at
-- least the amount, which is positive, and the organization's row is left with the difference,
-- which is the answer's RemainingAfterMicros and is not negative.
pub place_hold-covered :
    (link : Link) (now : ℕ) (hold_id org : Str) (threshold ttl : ℤ) (plan : HoldPlanner) (d : Db)
    {h : Hold} {d' : Db}
    → place_hold link now hold_id org threshold ttl (some plan) d ≡ (ok h, d')
    → (o : Organization) × (lookup org_key org d'.organizations ≡ some o)
      × (threshold ≤ℤ h.remaining_before_micros)
      × (pos 1 ≤ℤ h.amount_micros)
      × (pos 0 ≤ℤ o.credits_remaining_micros)
      × (o.credits_remaining_micros ≡ h.remaining_before_micros -ℤ h.amount_micros)
      × (h.remaining_after_micros ≡ o.credits_remaining_micros)
place_hold-covered link now hold_id org threshold ttl plan d {h} {d'} e =
    let placed = place_hold-Places link now hold_id org threshold ttl plan d e in
    let s = placed.sized in
    let left = Places-Frozen placed in
    let o = placed.owner in
    let amount : h.amount_micros ≡ placed.amount = ap (λ (x : Hold). x.amount_micros) s.answer in
    let before : h.remaining_before_micros ≡ o.credits_remaining_micros =
      ap (λ (x : Hold). x.remaining_before_micros) s.answer in
    let after : h.remaining_after_micros ≡ sub64 o.credits_remaining_micros placed.amount =
      ap (λ (x : Hold). x.remaining_after_micros) s.answer in
    let same : sub64 o.credits_remaining_micros placed.amount
        ≡ o.credits_remaining_micros -ℤ placed.amount =
      sub64-in_range o.credits_remaining_micros placed.amount s.fits in
    (
      left.owner,
      left.owner_found,
      rw before s.reaches,
      rw amount s.amount_positive,
      rw (left.remaining, amount, before) (omega (int_laws, s.covered)),
      left.remaining,
      after ∙ same ∙ sym (rw (amount, before) at left.remaining),
    )
