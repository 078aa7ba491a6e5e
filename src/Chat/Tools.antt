-- ===== src/Chat/Tools.antt =====
-- The tools that a model may call: app/application/chat/_tools_executor.py over the port of
-- app/application/chat/ports/chat_tools.py. What the tools read, the conversions of Python and the form
-- of a result in JSON are parameters.
pub mod Isolation
use yomochi.Base.{ℕ, Option, none, some, Bool, true, false, List, [], ◌∷◌, if◌then◌else◌}
use yomochi.Base.Result.{Result, ok, err, ◌>>=◌}
use yomochi.Text.{Text, codes, text_eq}
use yomochi.Calendar.{Date}
use yomochi.Money.{ℤ}

pub data ToolName : Type 0 where
  get_month_summary get_category_trend get_spend_window get_user_profile search_transactions
        list_categories :
      ToolName

unfoldable pub tool_value : ToolName → Text
tool_value get_month_summary = codes "get_month_summary"
tool_value get_category_trend = codes "get_category_trend"
tool_value get_spend_window = codes "get_spend_window"
tool_value get_user_profile = codes "get_user_profile"
tool_value search_transactions = codes "search_transactions"
tool_value list_categories = codes "list_categories"

-- `KeyError`, `ValueError` and `TypeError` with their text, or another exception.
pub data ToolError (E : Type 0) : Type 0 where
  bad_arguments : Text → ToolError E
  failure : E → ToolError E

-- The arguments of a call and the values in them: `args[key]`, `int`, `str` and `_parse_date`.
pub record Values (E A V : Type 0) : Type 0 where
  pub item : A → Text → Result (ToolError E) V
  pub to_int : V → Result (ToolError E) ℤ
  pub to_str : V → Text
  pub parse_date : V → Result (ToolError E) Date

-- The port. The first argument is the user.
pub record ChatTools (E J : Type 0) : Type 0 where
  pub month_summary : ℕ → ℤ → ℤ → Result (ToolError E) J
  pub category_trend : ℕ → Text → ℤ → Result (ToolError E) J
  pub spend_window : ℕ → Date → Date → Result (ToolError E) J
  pub user_profile : ℕ → Result (ToolError E) J
  pub transactions_like : ℕ → Text → ℤ → Result (ToolError E) J
  pub categories : ℕ → Result (ToolError E) J

-- What the model is shown.
pub data Payload (J : Type 0) : Type 0 where
  result : J → Payload J
  unknown_tool : Text → Payload J
  invalid_arguments : Text → Text → Payload J

abbrev all_tools : List ToolName
all_tools =
    get_month_summary ∷ get_category_trend ∷ get_spend_window ∷ get_user_profile
    ∷ search_transactions ∷ list_categories ∷ []

unfoldable find_tool : Text → List ToolName → Option ToolName
unfolding text_eq tool_value
find_tool name [] = none
find_tool name (t ∷ ts) = if text_eq name (tool_value t) then some t else find_tool name ts

unfoldable pub tool_named : Text → Option ToolName
unfolding find_tool
tool_named name = find_tool name all_tools

module _ {E A V J : Type 0} (values : Values E A V) (tools : ChatTools E J) (uid : ℕ) where
  open values use {item, to_int, to_str, parse_date}

  unfoldable pub int_item : A → Text → Result (ToolError E) ℤ
  int_item args key = item args key >>= to_int

  unfoldable pub str_item : A → Text → Result (ToolError E) Text
  str_item args key = item args key >>= λ v. ok (to_str v)

  unfoldable pub date_item : A → Text → Result (ToolError E) Date
  date_item args key = item args key >>= parse_date

  unfoldable pub call_tool : ToolName → A → Result (ToolError E) J
  unfolding int_item str_item date_item
  call_tool get_month_summary args = int_item args (codes "year") >>= λ year.
      int_item args (codes "month") >>= λ month. tools.month_summary uid year month
  call_tool get_category_trend args = str_item args (codes "category") >>= λ category.
      int_item args (codes "n_months") >>= λ n_months. tools.category_trend uid category n_months
  call_tool get_spend_window args = date_item args (codes "start_date") >>= λ start.
      date_item args (codes "end_date") >>= λ end. tools.spend_window uid start end
  call_tool get_user_profile args = tools.user_profile uid
  call_tool search_transactions args = str_item args (codes "text") >>= λ text.
      int_item args (codes "limit") >>= λ limit. tools.transactions_like uid text limit
  call_tool list_categories args = tools.categories uid

  -- `except (KeyError, ValueError, TypeError)`.
  unfoldable pub caught : Text → Result (ToolError E) J → Result E (Payload J)
  caught name (ok r) = ok (result r)
  caught name (err (bad_arguments s)) = ok (invalid_arguments name s)
  caught name (err (failure e)) = err e

  unfoldable pub execute : Text → A → Result E (Payload J)
  unfolding tool_named call_tool caught
  execute name args = elim (tool_named name) [
    | none ↦ ok (unknown_tool name)
    | some tool ↦ caught name (call_tool tool args)
  ]
