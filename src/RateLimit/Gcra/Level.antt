-- ===== src/RateLimit/Gcra/Level.antt =====
-- The level of a key: the time up to which requests have used the allowance, at least `now`.
use yomochi.Base.{ℕ, ◌+◌, ◌-◌, ◌/◌, ◌≤◌, ◌<◌, max, ◌≡◌, true, false, none, some, arith}
use yomochi.Base.{le→leb, lt→leb-false, ◌∙◌}
use yomochi.RateLimit.Gcra.{Store, Reply, decide, gcra}

-- The script writes keys that live past their own time. It is an invariant of the key.
abbrev pub Lasts : Store → Type 0
Lasts none = Unit
Lasts (some e) = e.tat ≤ e.expires_at

abbrev pub pass_reply : ℕ → ℕ → ℕ → ℕ → Reply
pass_reply interval burst now l = record {
  allowed = true;
  remaining = (burst - (l + interval - now)) / interval;
  reset_ms = l + interval - now;
  retry_after_ms = 0;
}

abbrev pub pass_store : ℕ → ℕ → ℕ → ℕ → Store
pass_store interval burst now l =
    some (record { tat = l + interval; expires_at = now + (burst + interval) })

abbrev pub deny_reply : ℕ → ℕ → ℕ → ℕ → Reply
deny_reply interval burst now l = record {
  allowed = false;
  remaining = 0;
  reset_ms = l - now;
  retry_after_ms = l + interval - burst - now;
}

unfoldable pub level : Store → ℕ → ℕ
level none now = now
level (some e) now = max e.tat now

-- What the script does, by the level alone.
pub level-later : (store : Store) (s t : ℕ) → s ≤ t → level store t ≡ max (level store s) t
unfolding level
level-later none s t h = omega arith
level-later (some e) s t h = omega arith

pub level-pass_store :
    (interval burst now l : ℕ)
    → now ≤ l
    → level (pass_store interval burst now l) now ≡ l + interval
unfolding level
level-pass_store interval burst now l h = omega arith

pub gcra-level :
    (interval burst now : ℕ) (store : Store)
    → Lasts store
    → gcra interval burst now store ≡ decide interval burst now (level store now) store
unfolding gcra level
gcra-level interval burst now none h = ground arith
gcra-level interval burst now (some e) h = ground arith

pub level-ge : (store : Store) (now : ℕ) → now ≤ level store now
unfolding level
level-ge none now = ground arith
level-ge (some e) now = ground arith

pub level_mono : (store : Store) (s t : ℕ) → s ≤ t → level store s ≤ level store t
unfolding level
level_mono none s t h = ground arith
level_mono (some e) s t h = ground arith

-- A request passes just when its level leaves room for one more interval.
module _ (interval burst now : ℕ) (store : Store) (h : Lasts store) where
  pub gcra_pass :
      level store now + interval ≤ now + burst
      → gcra interval burst now store ≡ (
        pass_reply interval burst now (level store now),
        pass_store interval burst now (level store now),
      )
  unfolding decide
  gcra_pass room =
      gcra-level interval burst now store h
      ∙ (rw (le→leb (level store now + interval - burst) now (omega arith)))

  pub gcra_deny :
      now + burst < level store now + interval
      → gcra interval burst now store ≡ (deny_reply interval burst now (level store now), store)
  unfolding decide
  gcra_deny full =
      gcra-level interval burst now store h
      ∙ (rw (lt→leb-false (level store now + interval - burst) now (omega arith)))

pub pass_store-Lasts :
    (interval burst now l : ℕ)
    → l + interval ≤ now + burst
    → Lasts (pass_store interval burst now l)
pass_store-Lasts interval burst now l h = omega arith
