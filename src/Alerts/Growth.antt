-- ===== src/Alerts/Growth.antt =====
-- The rows that `write_shift_alerts` of app/outbound/adapters/sqla/alerts/alert_writer.py adds.
use yomochi.Base.{
  ℕ, suc, ◌+◌, ◌≤◌, ◌≡◌, refl, sym, ap, ◌∙◌, some_inj, All-append, inl, inr, Bool, true, false,
  Option, none, some, List, [], ◌∷◌, ◌++◌, append-nil, append_assoc, length, length-append, All,
  arith, Option-cases,
}
use mathlib.Core.Path.{subst}
use yomochi.Spending.Shifts.{DetectedShift, Floats, is_alertworthy}
use yomochi.Alerts.{Alert, Defaults, alert_type_of, alert_of, write_alerts}
use yomochi.Alerts.Rows.{insert_alert-append}
use yomochi.Alerts.Known.{next, row, alert_of-none, alert_of-some}

module _ {F D X : Type 0} (f : Floats F D) (content_of : DetectedShift F D → X)
    (user year month : ℕ) where
  -- The row of a shift, with whatever columns.
  abbrev pub IsNew : Alert X → Type 0
  IsNew a =
      (a.user_id ≡ user) × (a.period_year ≡ year) × (a.period_month ≡ month) × (a.is_read ≡ false)

  abbrev pub Grown : ℕ → List (Alert X) → List (Alert X) → Type 0
  Grown n table after =
      (new : List (Alert X)) × (after ≡ table ++ new) × (length new ≤ n) × All IsNew new

  alert_of-IsNew :
      (d : Defaults) (s : DetectedShift F D) (a : Alert X)
      → alert_of f content_of user year month d s ≡ some a
      → IsNew a
  alert_of-IsNew d s a h = elim (Option-cases (alert_type_of s.type_)) [
    | inl k ↦ let e = alert_of-none f content_of user year month d s k in (cc, cc, cc, cc)
    | inr (kind, k) ↦
        subst IsNew
          (some_inj (row f content_of user year month d s kind) a
            (sym (alert_of-some f content_of user year month d s kind k) ∙ h))
          (refl, refl, refl, refl)
  ]

  next-Grown :
      (b : Bool) (new : Option (Alert X)) (table : List (Alert X))
      → ((a : Alert X) → new ≡ some a → IsNew a)
      → Grown 1 table (next f content_of user year month b new table)
  next-Grown false new table h = ([], sym (append-nil table), omega arith, tt)
  next-Grown true none table h = ([], sym (append-nil table), omega arith, tt)
  next-Grown true (some a) table h = elim (insert_alert-append a table) [
    | inl k ↦ ([], k, omega arith, tt)
    | inr k ↦ (a ∷ [], k, omega arith, (h a refl, tt))
  ]

  pub Grown-trans :
      (n m k : ℕ) (s t u : List (Alert X)) → n + m ≤ k → Grown n s t → Grown m t u → Grown k s u
  Grown-trans n m k s t u h (xs, e, l, p) (ys, e2, l2, p2) = (
    xs ++ ys,
    e2 ∙ ap (λ r. r ++ ys) e ∙ append_assoc s xs ys,
    omega (arith, length-append xs ys),
    All-append IsNew xs ys p p2,
  )

  pub write_alerts-Grown :
      (d : Defaults) (shifts : List (DetectedShift F D)) (table : List (Alert X))
      → Grown (length shifts) table (write_alerts f content_of user year month d shifts table)
  unfolding write_alerts
  write_alerts-Grown d [] table = ([], sym (append-nil table), omega arith, tt)
  write_alerts-Grown d (s ∷ shifts) table =
      let after =
        next f content_of user year month (is_alertworthy f s)
          (alert_of f content_of user year month d s) table in
      Grown-trans 1 (length shifts) _ table after _ (omega arith)
        (next-Grown (is_alertworthy f s) _ table (λ a h. alert_of-IsNew d s a h))
        (write_alerts-Grown (record d { first_id = suc d.first_id }) shifts after)
