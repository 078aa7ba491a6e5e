-- ===== src/Tests/Announcements.antt =====
-- Requests of insights, and the ticks of the reaper.
use yomochi.Base.{ℕ, ◌≡◌, ◌⊎◌, true, none, some, [], ◌∷◌}
use yomochi.Base.Result.{ok, err}
use yomochi.Text.{Text, codes}
use yomochi.Insight.{Insight, InsightStatus, Period}
use yomochi.Insight.Repository.{find_row}
use yomochi.Insight.Request.{
  RequestInsightCommand, RequestError, Conditions, request_insight, request_insight-announces,
}
use yomochi.Outbox.{Outbox, OutboxRow, OutboxStatus}

-- An identifier is written as one character.
abbrev write_id : ℕ → Text
write_id id = id ∷ []

abbrev write_payload : Insight → Text
write_payload i = codes "{}"

abbrev conditions : Conditions
conditions = record {
  quota_ok = true;
  count = 12;
  min_tx = 10;
  now = 5;
  insight_id = 3;
  row_id = 4;
}

abbrev march : RequestInsightCommand
march = record { user_id = 7; period = Period.monthly; period_year = 2026; period_month = 3 }

abbrev no_rows : Outbox
no_rows = record { rows = []; published = [] }

request_insight-announces_example :
    let (reply, t, o) = request_insight write_id write_payload conditions march [] no_rows in
    ((e : RequestError) × (request_insight write_id write_payload conditions march [] no_rows
        ≡ (err e, [], no_rows)))
    ⊎ ((i : Insight) × (r : OutboxRow) × (reply ≡ ok 3)
        × (find_row 3 t ≡ some i)
        × (i.status ≡ InsightStatus.queued)
        × (i.user_id ≡ 7)
        × (o.rows ≡ r ∷ [])
        × (r.status ≡ OutboxStatus.pending)
        × (r.aggregate_id ≡ 3 ∷ []))
request_insight-announces_example =
    request_insight-announces write_id write_payload conditions march [] no_rows

-- An insight whose worker is gone.
abbrev orphan : Insight
orphan = record {
  id_ = 3;
  user_id = 7;
  period = Period.monthly;
  period_year = 2026;
  period_month = 3;
  status = InsightStatus.processing;
  context_quality = none;
  title = none;
  description = none;
  impact_score = none;
  generated_at = none;
  error_message = none;
  created_at = 5;
  updated_at = none;
  budget_summary = none;
  processing_deadline = some 8;
  retry_count = 0;
}
