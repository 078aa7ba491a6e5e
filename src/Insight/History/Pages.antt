-- ===== src/Insight/History/Pages.antt =====
-- The pages of the insights.
use yomochi.Base.{ℕ, ◌≤◌, ◌<◌, ◌≡◌, refl, some, none, List, length}
use yomochi.Base.Result.{Result, ok}
use yomochi.Text.{Text}
use yomochi.Keyset.{follow_pages}
use yomochi.Keyset.Pages.{Codec, cursor_or_raise-ok}
use yomochi.Keyset.Recent.{UniqueIds, whole, follow_pages-whole}
use yomochi.Insight.{Insight}
use yomochi.Insight.Repository.{Table}
use yomochi.Insight.History.{ListInsightsQuery, is_listed, key_of, list_by_user, list_insights}

-- The insights of the user that pass the filters, newest first.
abbrev pub insights_of : ListInsightsQuery → Table → List Insight
insights_of q table = whole (λ i. i.created_at) (λ i. i.id_) (is_listed q) table

module _ {E : Type 0} (index_error : E) (encode : ℕ × ℕ → Text)
    (decode : Text → Result E (ℕ × ℕ)) where
  -- A client that follows the cursors of the list of insights, with pages of at least one insight, in a
  -- table that does not change and has each identifier once, reads every insight of the user that passes
  -- the filters, once and newest first, with one request more than there are of them. A cursor's text is
  -- not empty and is read back as the cursor.
  pub list_insights-insights_of :
      Codec encode decode
      → (q : ListInsightsQuery) (n : ℕ) (table : Table)
      → UniqueIds (λ i. i.created_at) (λ i. i.id_) table
      → 1 ≤ q.limit
      → length (insights_of q table) < n
      → follow_pages
          (λ c. list_insights index_error encode decode (record q { cursor = c }) table)
          n
          none
        ≡ ok (some (insights_of q table))
  unfolding list_insights list_by_user is_listed
  list_insights-insights_of codec q n table u pos fuel =
      follow_pages-whole (λ i. i.created_at) (λ i. i.id_) encode decode _ (is_listed q) q.limit
        table
        (λ c key e.
          rw
            (
              e,
              cursor_or_raise-ok index_error (λ i. encode (key_of i)) q.limit
                  (list_by_user q key table) pos,
            )
            refl)
        codec u pos n fuel
