-- ===== src/RateLimit/Gcra/Retry.antt =====
-- What the replies promise: when to come back, and how many more requests pass.
use yomochi.Base.{
  ℕ, zero, suc, ◌+◌, ◌-◌, ◌/◌, ◌≤◌, ◌<◌, ◌≡◌, refl, ap, ◌∙◌, inl, inr, min, true, false, List, [],
  ◌∷◌, arith, ℕ-cases,
}
use yomochi.RateLimit.Gcra.{Store, gcra, serve, passed}
use yomochi.RateLimit.Gcra.Level.{
  Lasts, level, level-ge, level-later, level-pass_store, gcra_pass, gcra_deny, pass_store,
  pass_store-Lasts,
}

module _ (interval burst now : ℕ) (store : Store) (h : Lasts store) where
  denied_full :
      (gcra interval burst now store).0.allowed ≡ false → now + burst < level store now + interval
  denied_full e = elim (ℕ-cases (level store now + interval) (now + burst)) [
    | inl room ↦ cc (e, ap (λ r. r.0.allowed) (gcra_pass interval burst now store h room))
    | inr full ↦ full
  ]

-- With a burst of at least one interval, from a missing key or one that expires no sooner than its
-- own time, a refusal leaves the key unchanged, and if nothing passes in between, a request at a
-- later time is let through just when the announced wait is over.
pub retry_after_exact :
    (interval burst now later : ℕ) (store : Store)
    → Lasts store
    → interval ≤ burst
    → now ≤ later
    → (gcra interval burst now store).0.allowed ≡ false
    → ((gcra interval burst now store).1 ≡ store)
      × ((now + (gcra interval burst now store).0.retry_after_ms ≤ later
            → (gcra interval burst later store).0.allowed ≡ true)
          × (later < now + (gcra interval burst now store).0.retry_after_ms
              → (gcra interval burst later store).0.allowed ≡ false))
retry_after_exact interval burst now later store h fits le e =
    let full = denied_full interval burst now store h e in
    rw (gcra_deny interval burst now store h full) (
      refl,
      (
        λ w.
            ap (λ r. r.0.allowed)
              (gcra_pass interval burst later store h
                (omega (arith, level-later store now later le))),
        λ w.
            ap (λ r. r.0.allowed)
              (gcra_deny interval burst later store h
                (omega (arith, level-later store now later le))),
      ),
    )

div_step : (x i : ℕ) → 0 < i → i ≤ x → x / i ≡ suc ((x - i) / i)
div_step x i pos h = grind arith

div_small : (x i : ℕ) → x < i → x / i ≡ 0
div_small x i h = grind arith

room_left :
    (interval burst now l : ℕ)
    → now ≤ l
    → now + burst - level (pass_store interval burst now l) now ≡ now + burst - l - interval
room_left interval burst now l h = omega (arith, level-pass_store interval burst now l h)

-- Requests at one time.
abbrev pub at_once : ℕ → ℕ → List ℕ
at_once now zero = []
at_once now (suc n) = now ∷ at_once now n

-- With a positive interval, from a missing key or one that expires no sooner than its own time, of
-- any number of requests at one time as many pass as whole intervals are left of the burst.
pub at_once_lem :
    (interval burst now n : ℕ) (store : Store)
    → 0 < interval
    → Lasts store
    → passed (serve interval burst (at_once now n) store)
      ≡ min n ((now + burst - level store now) / interval)
unfolding serve passed
at_once_lem interval burst now zero store pos h = omega arith
at_once_lem interval burst now (suc n) store pos h =
    elim (ℕ-cases (level store now + interval) (now + burst)) [
      | inl room ↦ rw (gcra_pass interval burst now store h room) (
          omega (
            arith,
            at_once_lem interval burst now n (pass_store interval burst now (level store now)) pos
                (pass_store-Lasts interval burst now (level store now) room),
            div_step (now + burst - level store now) interval pos (omega arith),
            ap (λ (k : ℕ). k / interval)
                (room_left interval burst now (level store now) (level-ge store now)),
          ))
      | inr full ↦ rw (gcra_deny interval burst now store h full) (
          omega (
            arith,
            at_once_lem interval burst now n store pos h,
            div_small (now + burst - level store now) interval (omega arith),
          ))
    ]

-- With a positive interval, from a missing key or one that expires no sooner than its own time, a
-- passed request announces how many of any number of further requests at the same time pass.
pub remaining_exact :
    (interval burst now n : ℕ) (store : Store)
    → 0 < interval
    → Lasts store
    → (gcra interval burst now store).0.allowed ≡ true
    → passed (serve interval burst (at_once now n) (gcra interval burst now store).1)
      ≡ min n (gcra interval burst now store).0.remaining
remaining_exact interval burst now n store pos h e =
    elim (ℕ-cases (level store now + interval) (now + burst)) [
      | inl room ↦ rw (gcra_pass interval burst now store h room) (
          at_once_lem interval burst now n (pass_store interval burst now (level store now)) pos
            (pass_store-Lasts interval burst now (level store now) room)
          ∙ ap (λ (k : ℕ). min n (k / interval))
              (omega (
                arith,
                level-pass_store interval burst now (level store now) (level-ge store now),
                level-ge store now,
              )))
      | inr full ↦ cc (e, ap (λ r. r.0.allowed) (gcra_deny interval burst now store h full))
    ]
