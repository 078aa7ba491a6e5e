-- ===== src/RateLimit/Gcra/Expiry.antt =====
-- That Redis drops the key is not to be seen: the script is the plain limiter on one number.
use yomochi.Base.{
  ℕ, ◌+◌, ◌≤◌, ◌<◌, ◌≡◌, refl, ap, inl, inr, max, List, [], ◌∷◌, none, arith, leb, if◌then◌else◌,
  ℕ-cases,
}
use yomochi.RateLimit.Gcra.{Store, Reply, serve}
use yomochi.RateLimit.Gcra.Level.{
  Lasts, level, level-later, level-pass_store, gcra_pass, gcra_deny, pass_store-Lasts, pass_reply,
  deny_reply,
}
use yomochi.RateLimit.Gcra.Window.{Within}

-- The limiter with no expiry: its state is the theoretical arrival time, 0 at first.
unfoldable pub limiter : ℕ → ℕ → ℕ → ℕ → Reply × ℕ
limiter interval burst now tat =
    let l = max tat now in
    if leb (l + interval) (now + burst)
    then (pass_reply interval burst now l, l + interval)
    else (deny_reply interval burst now l, tat)

unfoldable pub limit : ℕ → ℕ → List ℕ → ℕ → List Reply
unfolding limiter
limit interval burst [] tat = []
limit interval burst (now ∷ times) tat =
    let (reply, tat') = limiter interval burst now tat in reply ∷ limit interval burst times tat'

limiter_pass :
    (interval burst now tat : ℕ)
    → max tat now + interval ≤ now + burst
    → limiter interval burst now tat
      ≡ (pass_reply interval burst now (max tat now), max tat now + interval)
unfolding limiter
limiter_pass interval burst now tat h = ground arith

limiter_deny :
    (interval burst now tat : ℕ)
    → now + burst < max tat now + interval
    → limiter interval burst now tat ≡ (deny_reply interval burst now (max tat now), tat)
unfolding limiter
limiter_deny interval burst now tat h = ground arith

-- From any time on, the key has the level of the number.
serve-eq :
    (interval burst lo hi : ℕ) (times : List ℕ) (store : Store) (tat : ℕ)
    → Lasts store
    → Within lo hi times
    → level store lo ≡ max tat lo
    → serve interval burst times store ≡ limit interval burst times tat
unfolding serve limit
serve-eq interval burst lo hi [] store tat l w e = refl
serve-eq interval burst lo hi (t ∷ times) store tat l (le, top, w) e =
    let now : level store t ≡ max tat t = omega (arith, level-later store lo t le) in
    elim (ℕ-cases (max tat t + interval) (t + burst)) [
      | inl room ↦
          rw
            (
              gcra_pass interval burst t store l (omega arith),
              limiter_pass interval burst t tat room,
              now,
            )
            (ap (λ rest. pass_reply interval burst t (max tat t) ∷ rest)
              (serve-eq interval burst t hi times _ (max tat t + interval)
                (pass_store-Lasts interval burst t (max tat t) room) w
                (omega (arith, level-pass_store interval burst t (max tat t)))))
      | inr full ↦
          rw
            (
              gcra_deny interval burst t store l (omega arith),
              limiter_deny interval burst t tat full,
              now,
            )
            (ap (λ rest. deny_reply interval burst t (max tat t) ∷ rest)
              (serve-eq interval burst t hi times store tat l w now))
    ]

-- To requests at times that do not fall, from a missing key, the script replies what the limiter
-- with no expiry replies.
pub serve-limit :
    (interval burst hi : ℕ) (times : List ℕ)
    → Within 0 hi times
    → serve interval burst times none ≡ limit interval burst times 0
unfolding level
serve-limit interval burst hi times w = serve-eq interval burst 0 hi times none 0 tt w (omega arith)
