-- ===== src/Alerts/Once.antt =====
-- What a second run of the detection adds: app/application/insights/use_cases/detect_shift_alerts.py.
use yomochi.Base.{
  ℕ, ◌≤◌, ◌≡◌, sym, ◌∙◌, All-mono, ltb, Bool, true, false, not, List, [], ◌∷◌, append-nil, length,
  All, ◌==◌, if◌then◌else◌, arith,
}
use yomochi.Text.{Text}
use yomochi.Insight.Context.{is_nil}
use yomochi.Spending.{Quotients, MonthlyAggregation, aggregate}
use yomochi.Spending.Shifts.{DetectedShift, ShiftThresholds, Floats}
use yomochi.Spending.Shifts.Count.{aggregate-IsShort, length-detect, IsShort}
use yomochi.Alerts.{
  Alert, Defaults, BudgetReader, mark_read, write_alerts, detect_shift_alerts, month_shifts,
  shifts_of,
}
use yomochi.Alerts.Keys.{
  has_alert, has_alert-opened, Call, detected, read, cleared, purged, call, calls,
}
use yomochi.Alerts.Rows.{kept-clear_all}
use yomochi.Alerts.Known.{
  IsKnown-mono, has_alert-write_alerts, write_alerts-Stands, write_alerts_idle,
}
use yomochi.Alerts.Growth.{Grown, Grown-trans, write_alerts-Grown}

module _ {F D X : Type 0} (q : Quotients F D) (f : Floats F D) (t : ShiftThresholds F)
    (content_of : DetectedShift F D → X) where
  length-guard :
      (b : Bool) (xs : List (DetectedShift F D)) (n : ℕ)
      → length xs ≤ n
      → length (if b then [] else xs) ≤ n
  length-guard true xs n h = omega arith
  length-guard false xs n h = h

  length-shifts_of :
      (reader : BudgetReader) (aggs history : List (MonthlyAggregation F D))
      → All IsShort aggs
      → length (shifts_of q f t content_of reader aggs history) ≤ 8
  unfolding shifts_of
  length-shifts_of reader [] history h = omega arith
  length-shifts_of reader (primary ∷ aggs) history (h, hs) =
      length-guard (ltb (length history) 2) _ 8 (length-detect f t primary _ h)

  length-month_shifts :
      (reader : BudgetReader) (user y m : ℕ)
      → length (month_shifts q f t content_of reader user y m) ≤ 8
  unfolding month_shifts
  length-month_shifts reader user y m = length-guard (is_nil (reader.read_month user y m)) _ 8 (
      length-shifts_of reader (aggregate q y m (reader.read_month user y m)) _
        (aggregate-IsShort q y m (reader.read_month user y m)))

  -- Calls that delete no alert of a user.
  unfoldable pub keeps : ℕ → Call → Bool
  keeps user (detected d reader u y m) = true
  keeps user (read id u) = true
  keeps user (cleared u) = not (u == user)
  keeps user (purged limit) = false

  has_alert-call :
      (user : ℕ) (s : Text) (y m : ℕ) (c : Call) (table : List (Alert X))
      → keeps user c ≡ true
      → has_alert user s y m table ≡ true
      → has_alert user s y m (call q f t content_of c table) ≡ true
  unfolding call keeps mark_read detect_shift_alerts
  has_alert-call user s y m (detected d reader u yr mo) table k h =
      has_alert-write_alerts f content_of u yr mo user s y m d
        (month_shifts q f t content_of reader u yr mo) table h
  has_alert-call user s y m (read id u) table k h = has_alert-opened user s y m id u table ∙ h
  has_alert-call user s y m (cleared u) table k h = kept-clear_all user s y m u table k h
  has_alert-call user s y m (purged limit) table k h = cc

  has_alert-calls :
      (user : ℕ) (s : Text) (y m : ℕ) (cs : List Call) (table : List (Alert X))
      → All (λ c. keeps user c ≡ true) cs
      → has_alert user s y m table ≡ true
      → has_alert user s y m (calls q f t content_of cs table) ≡ true
  unfolding calls
  has_alert-calls user s y m [] table k h = h
  has_alert-calls user s y m (c ∷ cs) table (k, ks) h =
      has_alert-calls user s y m cs (call q f t content_of c table) ks
        (has_alert-call user s y m c table k h)

  -- A detection leaves the table's rows as they are and adds at most eight behind them, all of the user and
  -- the month and unread. After any further calls that delete no alert of the user, a detection that reads
  -- the same transactions of that month and its history changes nothing.
  pub detect_shift_alerts_once :
      (reader : BudgetReader) (user y m : ℕ) (d e : Defaults) (cs : List Call)
      (table : List (Alert X))
      → All (λ c. keeps user c ≡ true) cs
      → Grown f content_of user y m 8 table
          (detect_shift_alerts q f t content_of reader d user y m table)
        × (detect_shift_alerts q f t content_of reader e user y m (
              calls q f t content_of cs
                (detect_shift_alerts q f t content_of reader d user y m table))
            ≡ calls q f t content_of cs
                (detect_shift_alerts q f t content_of reader d user y m table))
  unfolding detect_shift_alerts
  detect_shift_alerts_once reader user y m d e cs table keep =
      let shifts = month_shifts q f t content_of reader user y m in
      let after = write_alerts f content_of user y m d shifts table in
      (
        Grown-trans f content_of user y m (length shifts) 0 8 table after after
            (omega (arith, length-month_shifts reader user y m))
            (write_alerts-Grown f content_of user y m d shifts table)
            ([], sym (append-nil after), omega arith, tt),
        write_alerts_idle f content_of user y m e shifts (calls q f t content_of cs after) (
            All-mono
              (λ s h.
                IsKnown-mono f content_of user y m _ (record { first_id = 0; now = 0 }) s after _
                  (λ sub k. has_alert-calls user sub y m cs after keep k) h)
              shifts (write_alerts-Stands f content_of user y m d shifts table)),
      )
