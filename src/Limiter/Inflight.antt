-- ===== src/Limiter/Inflight.antt =====
-- internal/limiter/limiter.go: the requests in flight are those whose reservations are held.
use orbit_api.Common.{◌≡◌, refl, sym, ap, ◌∙◌, true, some, List, [], ◌∷◌, ◌++◌}
use orbit_api.Common.Int.{pos, leb_ℤ}
use orbit_api.Common.Str.{Str}
use orbit_api.Common.Table.{lookup}
use orbit_api.Limiter.Sound.{
  count_of, fresh-Sound, inflight_of, perform_all-Sound, perform_all_limits,
}
use orbit_api.Limiter.{
  Float64, RateLimits, OrgState, state_key, Held, Call, perform, perform_all, fresh, new_memory,
}
use orbit_api.Limiter.Admission.{held_by}

module _ {F : Type 0} (float : Float64 F) where
  -- The count of requests in flight, in every state that calls lead to.
  pub perform_all_held :
      (limits : RateLimits) (cs : List Call) (org : Str)
      → inflight_of float org (perform_all float cs (fresh float limits)).memory.orgs
        ≡ held_by org (perform_all float cs (fresh float limits)).reservations
  perform_all_held limits cs org =
      (perform_all-Sound float cs (fresh float limits) (fresh-Sound float limits)).counted org

  pub perform_all-append :
      (cs : List Call) (c : Call) (h : Held float)
      → perform_all float (cs ++ c ∷ []) h ≡ perform float c (perform_all float cs h)
  unfolding perform_all
  perform_all-append [] c h = refl
  perform_all-append (x ∷ cs) c h = perform_all-append cs c (perform float x h)

-- Over every sequence of calls of Allow and of Release, in any order and with repeated releases, from
-- a new limiter: an organization's requests in flight are the reservations of it that were given out
-- and not yet released, so each gives its place back exactly once; and they are never more than the
-- configured number, or one where fewer are configured.
pub perform_all_counts :
    {F : Type 0} (float : Float64 F) (limits : RateLimits) (cs : List Call) (org : Str)
    (s : OrgState float)
    → lookup (state_key float) org (perform_all float cs (fresh float limits)).memory.orgs ≡ some s
    → (s.inflight ≡ held_by org (perform_all float cs (fresh float limits)).reservations)
      × (leb_ℤ (pos s.inflight) (new_memory float limits).limits.organization.concurrent ≡ true)
perform_all_counts float limits cs org s found =
    let sound = perform_all-Sound float cs (fresh float limits) (fresh-Sound float limits) in
    let (below, is) = sound.capped org s found in
    let same =
      ap (λ (l : RateLimits). l.organization.concurrent)
        (perform_all_limits float cs (fresh float limits)) in
    (sym (ap (count_of float) found) ∙ sound.counted org, rw (sym same) (rw (sym is) below))
