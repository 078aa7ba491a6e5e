-- ===== src/Insight/Process.antt =====
-- app/application/insights/use_cases/process_insight.py: the claim, the context, the call of the AI
-- client and the last transaction. The AI client is a parameter, and so are the clock, the reading of
-- an identifier, the text of an exception and what other processes commit between two transactions of
-- this one (`meanwhile`, `afterwards`) and between the read and the write of one (`completing`,
-- `failing`). The deadline of the claim is left out, since it is not stored. The elapsed time is left out.
pub mod Settled
use yomochi.Base.{ℕ, String, Bool, true, false, Option, none, some, List, [], ◌∷◌, if◌then◌else◌}
use yomochi.Base.Result.{Result, ok, err}
use yomochi.Budget.{BudgetRow}
use yomochi.Insight.{
  Insight, InsightStatus, InsightError, already_terminal, ContextQuality, Period, InsightResponse,
  status_eq,
}
use yomochi.Insight.Repository.{Table, claim_insight, complete_insight, record_failure}
use yomochi.Insight.Context.{
  Analysis, InsightContextChunk, AssembledContext, HistoryMonth, build_insight_context,
}

pub record InsightRequest : Type 0 where
  pub period : Period
  pub period_year : ℕ
  pub period_month : ℕ
  pub chunks : List InsightContextChunk

pub record ProcessInsightResult : Type 0 where
  pub context_quality : ContextQuality
  pub terminal_skip : Bool

-- What one run meets outside of its own code.
pub record Run (R : Type 0) : Type 0 where
  pub uuid : String → Result InsightError ℕ
  pub str : InsightError → String
  pub rows : List R
  pub history : List (HistoryMonth R)
  pub generate : InsightRequest → Result InsightError InsightResponse
  pub now : ℕ
  pub period_rows : List BudgetRow
  pub meanwhile : Table → Table
  pub completing : Table → Table
  pub afterwards : Table → Table
  pub failing : Table → Table

abbrev pub no_data_error : String
no_data_error = "No transaction data found for this period"

abbrev pub Outcome : Type 0
Outcome = Result InsightError ProcessInsightResult × Table

module _ {R : Type 0} (run : Run R) (insight_id user_id : ℕ) where
  unfoldable pub finish : ContextQuality → Result InsightError (Unit {0}) × Table → Outcome
  unfolding record_failure
  finish quality (ok u, t) = (ok (record { context_quality = quality; terminal_skip = false }), t)
  finish quality (err e, t) =
      (err e, record_failure insight_id user_id (run.str e) run.failing (run.afterwards t))

  unfoldable pub store_response :
      ContextQuality → Result InsightError InsightResponse → Table → Outcome
  unfolding finish complete_insight record_failure
  store_response quality (ok response) t = finish quality (
      complete_insight insight_id user_id response quality run.now run.period_rows run.completing t)
  store_response quality (err e) t =
      (err e, record_failure insight_id user_id (run.str e) run.failing t)

  unfoldable pub generate_insight :
      Insight → ContextQuality → List InsightContextChunk → Table → Outcome
  unfolding store_response record_failure
  generate_insight claimed ContextQuality.no_context chunks t = (
    ok (record { context_quality = ContextQuality.no_context; terminal_skip = false }),
    record_failure insight_id user_id no_data_error run.failing t,
  )
  generate_insight claimed quality chunks t =
      store_response quality
        (run.generate (record {
          period = claimed.period;
          period_year = claimed.period_year;
          period_month = claimed.period_month;
          chunks = chunks;
        }))
        t

  unfoldable pub after_claim :
      {A S : Type 0} → Analysis R A S → Result InsightError Insight × Table → Outcome
  unfolding generate_insight build_insight_context status_eq
  after_claim an (err (already_terminal s), t) = (
    ok (record {
      context_quality =
          if status_eq s InsightStatus.failed
          then ContextQuality.no_context
          else ContextQuality.full;
      terminal_skip = true;
    }),
    t,
  )
  after_claim an (err e, t) = (err e, t)
  after_claim an (ok claimed, t) =
      let ctx =
        build_insight_context an claimed.period_year claimed.period_month run.rows run.history in
      generate_insight claimed ctx.quality ctx.chunks (run.meanwhile t)

  unfoldable pub process_claimed : {A S : Type 0} → Analysis R A S → Table → Outcome
  unfolding after_claim claim_insight
  process_claimed an t = after_claim an (claim_insight insight_id user_id t)

module _ {R A S : Type 0} (an : Analysis R A S) (run : Run R) where
  -- The identifiers of the command are read first; one that is no identifier raises.
  unfoldable pub process_with : Result InsightError ℕ → Result InsightError ℕ → Table → Outcome
  unfolding process_claimed
  process_with (err e) user t = (err e, t)
  process_with (ok i) (err e) t = (err e, t)
  process_with (ok i) (ok u) t = process_claimed run i u an t

  unfoldable pub process_insight : String → String → Table → Outcome
  unfolding process_with
  process_insight insight_id user_id t = process_with (run.uuid insight_id) (run.uuid user_id) t
