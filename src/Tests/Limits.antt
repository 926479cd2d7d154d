-- ===== src/Tests/Limits.antt =====
-- The rate limiter on concrete calls, with natural numbers for float64.
use orbit_api.Common.{
  ℕ, ◌+◌, ◌-◌, ◌*◌, ◌/◌, ◌≡◌, refl, true, false, not, ltb, some, List, [], ◌∷◌, if◌then◌else◌,
}
use orbit_api.Common.Int.{pos, pos_part, leb_ℤ}
use orbit_api.Common.Str.{codes, str_eq}
use orbit_api.Common.Table.{lookup, update, has}
use orbit_api.Limiter.{
  Float64, RateLimits, OrgState, state_key, Call, allowing, releasing, perform, perform_all, fresh,
  new_memory, new_bucket, refill, available, take, state_of, put_state, admit, admit_organization,
  admit_user, admit_state, allow, release, release_at, rate_error, put_bucket, playground_bucket,
}
use orbit_api.Limiter.Admission.{held_by}
use orbit_api.Limiter.Inflight.{perform_all_counts}
use orbit_api.Tests.Data.{acme}

abbrev pub whole : Float64 ℕ
whole = record {
  plus = λ a b. a + b;
  minus = λ a b. a - b;
  times = λ a b. a * b;
  over = λ a b. a / b;
  lesser = λ a b. if ltb a b then a else b;
  at_least = λ a b. not (ltb a b);
  below = λ a b. ltb a b;
  of_int = λ n. pos_part n;
  to_int = λ n. pos n;
  seconds_between = λ a b. b - a;
  duration = λ n. pos n;
}

abbrev pub limits : RateLimits
limits = record {
  organization = record { requests_per_minute = pos 60; burst = pos 5; concurrent = pos 0 };
  playground = record { requests_per_minute = pos 60; burst = pos 2; concurrent = pos 0 };
}

-- The second request finds no place, the first gives its place back once, and a third is admitted.
abbrev calls : List Call
calls =
    allowing 1 acme [] false
    ∷ allowing 2 acme (codes "ann") true
    ∷ releasing 0
    ∷ releasing 0
    ∷ allowing 3 acme [] false
    ∷ []

unfoldable pub counts : Unit {0}
unfolding lookup update has str_eq new_memory new_bucket refill available take state_of put_state
    admit admit_organization admit_user admit_state allow release release_at rate_error put_bucket
    playground_bucket perform perform_all held_by
counts = tt

abbrev row : OrgState whole
row = state_of whole 9 (perform_all whole calls (fresh whole limits)).memory acme

row_found :
    lookup (state_key whole) acme (perform_all whole calls (fresh whole limits)).memory.orgs
    ≡ some row
unfolding counts
row_found = refl

one_in_flight : row.inflight ≡ 1
unfolding counts
one_in_flight = refl

perform_all_counts_example :
    (row.inflight ≡ held_by acme (perform_all whole calls (fresh whole limits)).reservations)
    × (leb_ℤ (pos row.inflight) (new_memory whole limits).limits.organization.concurrent ≡ true)
perform_all_counts_example = perform_all_counts whole limits calls acme row row_found
