-- ===== src/Store/Tx.antt =====
-- Transactions: a chain of statements on a copy of the database, which is committed as a whole or
-- not at all. The row locks of the program's statements make transactions on one organization run
-- one after the other, so each is one step here.
use orbit_api.Common.{arith, Bool, true, false, Option, none, some, if◌then◌else◌, ◌≡◌, inl, inr}
use orbit_api.Common.Str.{Str}
use orbit_api.Common.Result.{Result, ok, err, Result-cases}
use orbit_api.Store.{Db}

-- The statements that the program sends. One that reclaims holds names its organization.
pub data Statement : Type 0 where
  begin_tx commit_tx : Statement
  lock_organization read_remaining debit_hold insert_hold : Statement
  lookup_hold lock_hold settle_hold apply_settlement : Statement
  select_expired : Statement
  reclaim_holds : Str → Statement
  insert_request select_request insert_usage debit_usage : Statement
  check_key insert_grant apply_grant : Statement
  load_price : Statement
  load_plan load_plan_order update_plan find_organization : Statement
  load_subscription update_subscription load_organization : Statement
  upsert_invoice select_invoices select_invoice update_refund : Statement

-- The constraints of migrations/ that a statement here can violate.
pub data Constraint : Type 0 where
  credits_non_negative hold_amount_positive hold_expires_after_create : Constraint
  ledger_amount_positive ledger_vendor_non_negative request_status : Constraint
  unique_id foreign_key : Constraint

-- The errors that the operations return.
pub data Error : Type 0 where
  insufficient_credits : Error
  low_on_credits : Error
  required : Error
  amount_not_positive : Error
  organization_missing : Error
  no_pricing_row : Error
  unknown_plan same_plan downgrade : Error
  provider_failed payment_id_missing invoice_missing undecodable : Error
  no_rows : Statement → Error
  not_answered : Statement → Error
  out_of_range : Error
  violates : Constraint → Error

-- Whether the database fails to answer a statement, as its driver reports it.
abbrev pub Link : Type 0
Link = Statement → Bool

abbrev pub Tx : Type 0 → Type 0
Tx A = Db → Result Error (A × Db)

infixl 5 ◌>>=◌ ◌>>◌
abbrev pub ◌>>=◌ : {A B : Type 0} → Tx A → (A → Tx B) → Tx B
◌>>=◌ m f d = elim (m d) [ ok (a, d') ↦ f a d' | err e ↦ err e ]

abbrev pub ◌>>◌ : {B : Type 0} → Tx (Unit {0}) → Tx B → Tx B
m >> k = m >>= λ _. k

abbrev pub pure : {A : Type 0} → A → Tx A
pure a d = ok (a, d)

abbrev pub fail : {A : Type 0} → Error → Tx A
fail e d = err e

-- `if err != nil { return err }` behind a statement.
abbrev pub ask : Link → Statement → Tx (Unit {0})
ask link s d = elim (link s) [ true ↦ err (not_answered s) | false ↦ ok (tt, d) ]

abbrev pub gets : {A : Type 0} → (Db → A) → Tx A
gets f d = ok (f d, d)

abbrev pub require : Bool → Error → Tx (Unit {0})
require b e d = elim b [ true ↦ ok (tt, d) | false ↦ err e ]

-- The row of a query, or the error for sql.ErrNoRows.
abbrev pub row : {A : Type 0} → Option A → Error → Tx A
row none e d = err e
row (some a) e d = ok (a, d)

abbrev pub modify : (Db → Db) → Tx (Unit {0})
modify f d = ok (tt, f d)

-- BeginTx, the statements, Commit, and the deferred Rollback that discards what was not committed.
abbrev pub finish : {A : Type 0} → Link → Db → Result Error (A × Db) → Result Error A × Db
finish link d (err e) = (err e, d)
finish link d (ok (a, d')) =
    if link commit_tx then (err (not_answered commit_tx), d) else (ok a, d')

abbrev pub transact : {A : Type 0} → Link → Tx A → Db → Result Error A × Db
transact link body d =
    if link begin_tx then (err (not_answered begin_tx), d) else finish link d (body d)

-- A transaction that succeeds has run its statements, and its database is theirs.
pub transact-eq-ok :
    {A : Type 0} (link : Link) (body : Tx A) (d : Db) {a : A} {d' : Db}
    → transact link body d ≡ (ok a, d')
    → body d ≡ ok (a, d')
transact-eq-ok link body d h = ground arith

pub transact-eq-err :
    {A : Type 0} (link : Link) (body : Tx A) (d : Db) {e : Error}
    → (transact link body d).0 ≡ err e
    → (transact link body d).1 ≡ d
transact-eq-err link body d h = ground arith

-- A transaction whose statements, if they go through, write nothing.
pub transact_kept :
    {A : Type 0} (link : Link) (body : Tx A) (d : Db)
    → ((a : A) (d' : Db) → body d ≡ ok (a, d') → d' ≡ d)
    → (transact link body d).1 ≡ d
transact_kept link body d same = elim (Result-cases (body d)) [
  | inl ((a, d'), went) ↦ let kept = same a d' went in ground arith
  | inr (x, failed) ↦ ground arith
]
