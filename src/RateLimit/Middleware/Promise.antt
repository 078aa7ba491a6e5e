-- ===== src/RateLimit/Middleware/Promise.antt =====
-- What the middleware's answers promise.
use yomochi.Base.{
  ℕ, ◌+◌, ◌*◌, ◌≤◌, ◌≡◌, inl, inr, Bool, true, false, some, List, arith, Bool-cases, ==_refl,
}
use yomochi.Text.{Text, text_eq_refl}
use yomochi.RateLimit.Gcra.{Store, Reply, gcra}
use yomochi.RateLimit.Gcra.Level.{Lasts}
use yomochi.RateLimit.Gcra.Retry.{retry_after_exact}
use yomochi.RateLimit.Policy.{
  Policy, skip, is_member, resolve_policy, emission_interval_ms, burst_capacity_ms,
}
use yomochi.RateLimit.Policy.Burst.{IsUsable, resolve_policy-IsUsable, interval-le-capacity}
use yomochi.RateLimit.Client.{HttpScope, RateKey, by_user, by_ip, key_for}
use yomochi.RateLimit.Middleware.{
  Action, send_429, Keys, key_eq, set_key, ceil_seconds, answer, limit_key, handle,
}

-- The application is called.
abbrev pub Calls : Action → Type 0
Calls (send_429 r l s) = ⊥
Calls _ = Unit

key_eq_refl : (k : RateKey) → key_eq k k ≡ true
unfolding key_eq
key_eq_refl (by_user a (r, b)) = simp (text_eq_refl, ==_refl)
key_eq_refl (by_ip a (r, b)) = simp (text_eq_refl, ==_refl)

set_key_self : (keys : Keys) (k : RateKey) (store : Store) → set_key keys k store k ≡ store
unfolding set_key
set_key_self keys k store = rw (key_eq_refl k)

ceil_seconds-le : (ms : ℕ) → ms ≤ ceil_seconds ms * 1000
unfolding ceil_seconds
ceil_seconds-le ms = omega arith

answer-Calls : (q : Policy) (r : Reply) → r.allowed ≡ true → Calls (answer q r)
unfolding answer
answer-Calls q r e = rw e tt

retry_header :
    (q : Policy) (r : Reply) (retry limit reset : ℕ)
    → r.allowed ≡ false
    → answer q r ≡ send_429 retry limit reset
    → retry ≡ ceil_seconds r.retry_after_ms
unfolding answer
retry_header q r retry limit reset e s = cc (e, rw e at s)

module _ (q : Policy) (usable : IsUsable q) (key : RateKey) (keys : Keys)
    (h : Lasts (keys key)) where
  limit_key_retry :
      (now later retry limit reset : ℕ)
      → (limit_key true now q (some key) keys).0 ≡ send_429 retry limit reset
      → now + retry * 1000 ≤ later
      → Calls (limit_key true later q (some key) (limit_key true now q (some key) keys).1).0
  unfolding limit_key answer
  limit_key_retry now later retry limit reset e le =
      let i = emission_interval_ms q in
      let b = burst_capacity_ms q in
      elim (Bool-cases (gcra i b now (keys key)).0.allowed) [
        | inl passed ↦ cc (e, passed)
        | inr refused ↦
            let exact =
              retry_after_exact i b now later (keys key) h (interval-le-capacity q usable)
                (omega arith) refused in
            let wait = retry_header q (gcra i b now (keys key)).0 retry limit reset refused e in
            rw (set_key_self, exact.0)
              (answer-Calls q (gcra i b later (keys key)).0 (
                exact.1.0 (
                  omega (arith, wait, ceil_seconds-le (gcra i b now (keys key)).0.retry_after_ms))))
      ]

module _ {Network : Type 0} (in_networks : List Network → Text → Bool) (digest : Text → Text)
    (trusted : List Network) (cookie_name : Text) where
  -- A caller whose key is missing or expires no sooner than its own time, who is refused, waits at
  -- least the seconds of `Retry-After`, and asks again with nothing let through on its key in
  -- between, is let through, on every endpoint.
  pub retry_after_honored :
      (scope : HttpScope) (keys : Keys) (key : RateKey) (now later retry limit reset : ℕ)
      → key_for in_networks digest scope
          (resolve_policy scope.path scope.method)
          trusted
          cookie_name
        ≡ some key
      → Lasts (keys key)
      → (handle in_networks digest trusted cookie_name true true now scope keys).0
        ≡ send_429 retry limit reset
      → now + retry * 1000 ≤ later
      → Calls
          (handle in_networks digest trusted cookie_name true true later scope
            (handle in_networks digest trusted cookie_name true true now scope keys).1).0
  unfolding handle
  retry_after_honored scope keys key now later retry limit reset k h e le =
      elim (Bool-cases (is_member scope.path skip)) [
        | inl skipped ↦ rw skipped tt
        | inr limited ↦
            rw (limited, k)
              (limit_key_retry (resolve_policy scope.path scope.method)
                (resolve_policy-IsUsable scope.path scope.method) key keys h now later retry limit
                reset (rw (limited, k) at e) le)
      ]
