-- ===== src/Resolver/Quiet.antt =====
-- resolver/resolve.go: what the calls of the resolver keep where it meets no error.
use passwd_pot.Common.{ℕ, Bool, true, false, [], ◌∷◌, none, ◌≡◌, ◌≢◌}
use passwd_pot.Api.{Event}
use passwd_pot.Cache.{ConcurrentMap}
use passwd_pot.Resolver.{
  History, Env, Call, mark_event, World, resolve_addr, mark, id_of, error_of, resolve_event,
  resolve_both,
}
use passwd_pot.Resolver.Shared.{both_cached, resolve_event-both}
use passwd_pot.Resolver.Kept.{no_errors, IsLocating, resolve_addr-keeps}

module _ {ℓ} (env : Env) (P : History → Type ℓ)
    (keeps : (c : Call) (h : History) → IsLocating c → P h → P (c ∷ h))
    (marks : (remote : Bool) (geo_id id : ℕ) (h : History)
      → env.mark h remote geo_id id ≡ none
      → P h
      → P (mark_event remote geo_id id ∷ h))
    (cm : ConcurrentMap) where
  resolve_both-quiet :
      (use_cache : Bool) (event : Event) (w : World cm)
      → (resolve_both cm use_cache env event w).0.1 ≡ []
      → P w.calls
      → P (resolve_both cm use_cache env event w).1.calls
  unfolding resolve_both mark
  resolve_both-quiet use_cache event w quiet p =
      let r1 = resolve_addr env event.remote_addr w.calls in
      let m1 = mark env event.id (id_of r1.0) true r1.1 in
      let r2 = resolve_addr env event.origin_addr m1.1 in
      let m2 = mark env event.id (id_of r2.0) false r2.1 in
      let (fine1, marked1, fine2, marked2) =
        no_errors (error_of r1.0) m1.0 (error_of r2.0) m2.0 quiet in
      marks false (id_of r2.0) event.id r2.1 marked2 (
        resolve_addr-keeps env P keeps event.origin_addr m1.1 (
          marks true (id_of r1.0) event.id r1.1 marked1
            (resolve_addr-keeps env P keeps event.remote_addr w.calls p)))

  -- What every call but a failed update keeps holds behind an event that met no error.
  pub resolve_event-quiet :
      (event : Event) (w : World cm)
      → event.id ≢ 0
      → both_cached cm event w ≡ false
      → (resolve_event cm true env event w).0.1 ≡ []
      → P w.calls
      → P (resolve_event cm true env event w).1.calls
  resolve_event-quiet event w positive not_cached quiet p =
      let both = resolve_event-both cm env event w positive not_cached in
      rw both (resolve_both-quiet true event w (rw both at quiet) p)
