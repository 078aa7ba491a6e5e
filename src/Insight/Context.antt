-- ===== src/Insight/Context.antt =====
-- `build_insight_context` of app/application/insights/use_cases/_process_insight_steps.py. The
-- aggregation of a month, the shift detector and the two formatters compute with floats and are
-- parameters. The metadata and the period label of a chunk are left out.
use yomochi.Base.{
  ℕ, String, Bool, true, false, ◌&&◌, ◌||◌, List, [], ◌∷◌, ◌++◌, select, ltb, leb, ◌==◌, ◌==ₛ◌,
  if◌then◌else◌,
}
use yomochi.Insight.{ContextQuality}

-- What the context builder calls: rows `R`, aggregations of a month `A`, detected shifts `S`.
pub record Analysis (R A S : Type 0) : Type 0 where
  pub aggregate : ℕ → ℕ → List R → List A
  pub currency : A → String
  pub detect : A → List A → List S
  pub format_monthly_summary : List A → String
  pub format_shift_text : A → List S → String

pub data ChunkType : Type 0 where
  monthly_summary behavioral_shift : ChunkType

pub record InsightContextChunk : Type 0 where
  pub content : String
  pub chunk_type : ChunkType

pub record AssembledContext : Type 0 where
  pub chunks : List InsightContextChunk
  pub quality : ContextQuality

-- A month of the history with its rows.
pub record HistoryMonth (R : Type 0) : Type 0 where
  pub year : ℕ
  pub month : ℕ
  pub rows : List R

abbrev pub is_nil {ℓ} : {A : Type ℓ} → List A → Bool
is_nil [] = true
is_nil (_ ∷ _) = false

module _ {R : Type 0} where
  -- `sorted(history_raw.items())`: the keys are distinct, so they alone decide.
  unfoldable pub insert_month : HistoryMonth R → List (HistoryMonth R) → List (HistoryMonth R)
  insert_month m [] = m ∷ []
  insert_month m (x ∷ xs) =
      let rest = insert_month m xs in
      if ltb m.year x.year || ((m.year == x.year) && leb m.month x.month)
      then m ∷ x ∷ xs
      else x ∷ rest

  unfoldable pub sort_months : List (HistoryMonth R) → List (HistoryMonth R)
  sort_months [] = []
  sort_months (m ∷ ms) = insert_month m (sort_months ms)

module _ {R A S : Type 0} where
  unfoldable pub aggregate_history : Analysis R A S → List (HistoryMonth R) → List A
  aggregate_history an [] = []
  aggregate_history an (m ∷ ms) =
      (if is_nil m.rows then [] else an.aggregate m.year m.month m.rows) ++ aggregate_history an ms

  -- The shifts of the first currency against the history in that currency.
  unfoldable pub find_shifts : Analysis R A S → List A → List A → List S
  find_shifts an [] history = []
  find_shifts an (primary ∷ aggs) history =
      an.detect primary (select (λ h. an.currency h ==ₛ an.currency primary) history)

  unfoldable pub shift_chunks : Analysis R A S → List A → List S → List InsightContextChunk
  shift_chunks an [] shifts = []
  shift_chunks an (primary ∷ aggs) [] = []
  shift_chunks an (primary ∷ aggs) (s ∷ shifts) =
      (record {
        content = an.format_shift_text primary (s ∷ shifts);
        chunk_type = ChunkType.behavioral_shift;
      })
      ∷ []

  unfoldable pub build_insight_context :
      Analysis R A S → ℕ → ℕ → List R → List (HistoryMonth R) → AssembledContext
  unfolding sort_months aggregate_history find_shifts shift_chunks
  build_insight_context an year month [] history = record {
    chunks = [];
    quality = ContextQuality.no_context;
  }
  build_insight_context an year month (r ∷ rows) history =
      let current = an.aggregate year month (r ∷ rows) in
      let shifts = find_shifts an current (aggregate_history an (sort_months history)) in
      record {
        chunks =
            (record {
              content = an.format_monthly_summary current;
              chunk_type = ChunkType.monthly_summary;
            })
            ∷ shift_chunks an current shifts;
        quality = if is_nil shifts then ContextQuality.partial else ContextQuality.full;
      }
