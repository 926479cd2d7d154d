-- ===== src/Inference/Chat/Refunds.antt =====
-- internal/repositories/billing/hold.go: a hold that was just placed can be given back.
use orbit_api.Billing.Processor
use orbit_api.Common.Table.{has-lookup, lookup-append_self, lookup}
use orbit_api.Common.Int.{int_laws, pos, ℤ, ◌+ℤ◌, ◌-ℤ◌}
use orbit_api.Common.Result.{ok}
use orbit_api.Common.Word.{in_range}
use orbit_api.Common.Str.{Str}
use orbit_api.Common.{◌≢◌, ◌∷◌, ℕ, ◌≡◌, refl, sym, ap, ◌∙◌, true, false, some, [], arith}
use orbit_api.Store.Tx.{
  commit_tx, begin_tx, transact, Tx, apply_settlement, settle_hold, lock_hold, lock_organization,
  lookup_hold, Statement, Link,
}
use orbit_api.Store.{credits_allowed, org_key, hold_key, Organization, CreditHold, Db}
use orbit_api.Billing.Processor.Effect.{new_hold, place_hold-Places, credited}
use orbit_api.Billing.Holds.{
  set_credits, expired_sum, place_hold, Hold, HoldPlanner, settled, is_open, write_credits,
  apply_settlement_tx, mark_settled, settle_locked, settle_found, settle_hold_tx,
}
use orbit_api.Billing.Holds.Steps.{with_settlement}
use orbit_api.Billing.Holds.Placing.{Places}
use orbit_api.Billing.Sweep.{release_hold}

-- A database that answers every statement.
abbrev pub Answers : Link → Type 0
Answers link = (st : Statement) → link st ≡ false

used_kept : (u : ℤ) → u +ℤ pos 0 ≡ u
used_kept u = grind int_laws

-- A settlement for nothing goes through, where its writes stay in range.
settle_nothing :
    (link : Link) (now : ℕ) (c : ℕ) (cs : Str) (d : Db) (w : CreditHold) (o : Organization)
    → Answers link
    → lookup hold_key (c ∷ cs) d.holds ≡ some w
    → w.id ≡ c ∷ cs
    → is_open w ≡ true
    → lookup org_key w.organization_id d.organizations ≡ some o
    → in_range (o.credits_remaining_micros +ℤ w.amount_micros) ≡ true
    → in_range (o.credits_remaining_micros +ℤ w.amount_micros -ℤ pos 0) ≡ true
    → in_range o.credits_granted_micros ≡ true
    → in_range o.credits_used_micros ≡ true
    → credits_allowed o ≡ true
    → settle_hold_tx link now (c ∷ cs) (pos 0) d
      ≡ ok (settled o w (pos 0), with_settlement now o w (pos 0) d)
unfolding settle_hold_tx settle_found settle_locked mark_settled apply_settlement_tx write_credits
settle_nothing link now c cs d w o quiet found same opened o_found fits fits' g u allowed = ground (
  arith,
  quiet lookup_hold,
  quiet lock_organization,
  quiet lock_hold,
  quiet settle_hold,
  quiet apply_settlement,
  used_kept o.credits_used_micros,
)

-- What a request has cost an organization at its end: its balance is what it was and what its expired
-- holds had frozen, which a request gives back first, less the cost; and the cost is used.
pub record Cost (org : Str) (now : ℕ) (cost : ℤ) (d d' : Db) : Type 0 where
  pub before : Organization
  pub before_found : lookup org_key org d.organizations ≡ some before
  pub after : Organization
  pub after_found : lookup org_key org d'.organizations ≡ some after
  pub remaining :
      after.credits_remaining_micros
      ≡ before.credits_remaining_micros +ℤ expired_sum org now d.holds -ℤ cost
  pub used : after.credits_used_micros ≡ before.credits_used_micros +ℤ cost

back_in_range : (r a : ℤ) → in_range r ≡ true → in_range (r -ℤ a +ℤ a) ≡ true
back_in_range r a fits = let same : r -ℤ a +ℤ a ≡ r = grind int_laws in rw same fits

minus_nothing : (r : ℤ) → r -ℤ pos 0 ≡ r
minus_nothing r = grind int_laws

plus_back : (r a : ℤ) → r -ℤ a +ℤ a -ℤ pos 0 ≡ r
plus_back r a = grind int_laws

-- The balance from which a hold was sized is in the range of its column.
sized_from :
    {now : ℕ} {hold_id org : Str} {threshold ttl : ℤ} {plan : HoldPlanner} {d : Db} {h : Hold}
    {d' : Db} (placed : Places now hold_id org threshold ttl plan d h d')
    → (in_range placed.owner.credits_remaining_micros ≡ true)
      × (placed.owner.credits_remaining_micros
          ≡ placed.reclaims.owner.credits_remaining_micros +ℤ expired_sum org now d.holds)
      × (placed.owner.credits_used_micros ≡ placed.reclaims.owner.credits_used_micros)
sized_from {now} {org} {d} placed =
    let r = placed.reclaims in
    let row =
      credited d placed.reclaimed org r.owner _ _ _ r.owner_found
        (ap (λ (x : Db). x.organizations) r.written) in
    let o = r.owner in
    let sum = o.credits_remaining_micros +ℤ expired_sum org now d.holds in
    let one : set_credits o.credits_granted_micros o.credits_used_micros sum o ≡ placed.owner =
      cc (row, placed.owner_found) in
    (
      rw (sym (ap (λ (x : Organization). x.credits_remaining_micros) one)) r.fits,
      sym (ap (λ (x : Organization). x.credits_remaining_micros) one),
      sym (ap (λ (x : Organization). x.credits_used_micros) one),
    )

-- A transaction whose statements go through is committed where the database answers.
committed :
    {A : Type 0} (link : Link) (body : Tx A) (d : Db) {a : A} {d' : Db}
    → Answers link
    → body d ≡ ok (a, d')
    → transact link body d ≡ (ok a, d')
committed link body d quiet went = ground (arith, quiet begin_tx, quiet commit_tx, went)

-- What is known behind a hold that was placed.
pub record Held (org : Str) (now : ℕ) (h : Hold) (d d1 : Db) : Type 0 where
  pub before : Organization
  pub before_found : lookup org_key org d.organizations ≡ some before
  pub row : Organization
  pub row_found : lookup org_key org d1.organizations ≡ some row
  pub used_same : row.credits_used_micros ≡ before.credits_used_micros
  pub sized :
      h.remaining_before_micros ≡ before.credits_remaining_micros +ℤ expired_sum org now d.holds

pub place_hold-Held :
    (link : Link) (now : ℕ) (hold_id org : Str) (threshold ttl : ℤ) (plan : HoldPlanner) (d : Db)
    {h : Hold} {d1 : Db}
    → place_hold link now hold_id org threshold ttl (some plan) d ≡ (ok h, d1)
    → Held org now h d d1
place_hold-Held link now hold_id org threshold ttl plan d {h} {d1} placed =
    let p = place_hold-Places link now hold_id org threshold ttl plan d placed in
    let (fits, sum, same_used) = sized_from p in
    record {
      before = p.reclaims.owner;
      before_found = p.reclaims.owner_found;
      row = _;
      row_found =
          credited p.reclaimed d1 org p.owner _ _ _ p.owner_found
            (ap (λ (x : Db). x.organizations) p.sized.written);
      used_same = same_used;
      sized = ap (λ (x : Hold). x.remaining_before_micros) p.sized.answer ∙ sum;
    }

-- A hold that was placed is given back in full: where the database answers, its release goes through,
-- and the request has cost nothing.
pub release_after_place :
    (link link' : Link) (now now' : ℕ) (hold_id org : Str) (threshold ttl : ℤ) (plan : HoldPlanner)
    (d : Db) {h : Hold} {d1 : Db}
    → Answers link'
    → hold_id ≢ []
    → place_hold link now hold_id org threshold ttl (some plan) d ≡ (ok h, d1)
    → Cost org now (pos 0) d (Processor.release link' now' hold_id d1).1
unfolding Processor.release release_hold
release_after_place link link' now now' [] org threshold ttl plan d quiet named placed =
    absurd (named refl)
release_after_place link link' now now' (c ∷ cs) org threshold ttl plan d {h} {d1} quiet named
      placed =
    let p = place_hold-Places link now (c ∷ cs) org threshold ttl plan d placed in
    let s = p.sized in
    let o = p.owner in
    let (fits, sum, same_used) = sized_from p in
    let less = o.credits_remaining_micros -ℤ p.amount in
    let o1 = set_credits o.credits_granted_micros o.credits_used_micros less o in
    let o1_found : lookup org_key org d1.organizations ≡ some o1 =
      credited p.reclaimed d1 org o _ _ _ p.owner_found
        (ap (λ (x : Db). x.organizations) s.written) in
    let w = new_hold now (c ∷ cs) org p.amount ttl in
    let w_found : lookup hold_key (c ∷ cs) d1.holds ≡ some w =
      ap (λ (x : Db). lookup hold_key (c ∷ cs) x.holds) s.written
      ∙ lookup-append_self hold_key w p.reclaimed.holds
          (has-lookup hold_key (c ∷ cs) p.reclaimed.holds s.fresh) in
    let d2 = with_settlement now' o1 w (pos 0) d1 in
    let back = back_in_range o.credits_remaining_micros p.amount fits in
    let went : settle_hold_tx link' now' (c ∷ cs) (pos 0) d1 ≡ ok (settled o1 w (pos 0), d2) =
      settle_nothing link' now' c cs d1 w o1 quiet w_found refl refl o1_found back
        (rw (minus_nothing (less +ℤ p.amount)) back) s.granted_fits s.used_fits s.allowed in
    let done = committed link' (settle_hold_tx link' now' (c ∷ cs) (pos 0)) d1 quiet went in
    rw done (record {
      before = p.reclaims.owner;
      before_found = p.reclaims.owner_found;
      after = _;
      after_found = credited d1 d2 org o1 _ _ _ o1_found refl;
      remaining =
          plus_back o.credits_remaining_micros p.amount
          ∙ sum
          ∙ sym (
              minus_nothing
                (p.reclaims.owner.credits_remaining_micros +ℤ expired_sum org now d.holds));
      used = ap (λ (u : ℤ). u +ℤ pos 0) same_used;
    })
