-- ===== src/RateLimit/Gcra/Window.antt =====
-- However requests are timed, few of them pass in any window.
use yomochi.Base.{ℕ, ◌+◌, ◌*◌, ◌-◌, ◌≤◌, ◌≡◌, refl, inl, inr, ◌⊎◌, List, [], ◌∷◌, arith, ℕ-cases}
use yomochi.RateLimit.Gcra.{Store, serve, passed}
use yomochi.RateLimit.Gcra.Level.{
  Lasts, level, level-ge, level_mono, gcra_pass, gcra_deny, pass_store, pass_store-Lasts,
}

-- Times that do not fall, from `lo` to `hi`.
abbrev pub Within : ℕ → ℕ → List ℕ → Type 0
Within lo hi [] = Unit
Within lo hi (t ∷ times) = (lo ≤ t) × (t ≤ hi) × Within t hi times

one_more : (n interval : ℕ) → n ≡ 0 → (1 + n) * interval ≡ interval
one_more n interval e = rw e (omega arith)

-- Either none passes, or the level and what passed stay within the window and the burst.
module _ (interval burst hi : ℕ) where
  window_from :
      (lo : ℕ) (times : List ℕ) (store : Store)
      → Lasts store
      → Within lo hi times
      → let n = passed (serve interval burst times store) in
        (n ≡ 0) ⊎ (n * interval + level store lo ≤ hi + burst)
  unfolding serve passed level
  window_from lo [] store l w = inl refl
  window_from lo (t ∷ times) store l (le, top, w) =
      elim (ℕ-cases (level store t + interval) (t + burst)) [
        | inl room ↦
            let later =
              window_from t times (pass_store interval burst t (level store t))
                (pass_store-Lasts interval burst t (level store t) room) w in
            rw (gcra_pass interval burst t store l room) (elim later [
              | inl nothing ↦
                  inr (omega (arith, level_mono store lo t le, one_more _ interval nothing))
              | inr some_more ↦ inr (omega (arith, level_mono store lo t le))
            ])
        | inr full ↦
            let later = window_from t times store l w in
            rw (gcra_deny interval burst t store l full) (elim later [
              | inl nothing ↦ inl (omega arith)
              | inr some_more ↦ inr (omega (arith, level_mono store lo t le))
            ])
      ]

-- Of the requests in a window of times, at whatever times, from a missing key or one that expires
-- no sooner than its own time, no more pass than the window and the burst have room for, at one
-- per interval.
pub serve_window :
    (interval burst lo hi : ℕ) (times : List ℕ) (store : Store)
    → Lasts store
    → Within lo hi times
    → lo ≤ hi
    → passed (serve interval burst times store) * interval ≤ (hi - lo) + burst
serve_window interval burst lo hi times store l w le =
    elim (window_from interval burst hi lo times store l w) [
      | inl nothing ↦ rw nothing (omega arith)
      | inr bound ↦ omega (arith, level-ge store lo)
    ]
