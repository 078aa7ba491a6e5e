-- ===== src/Chat/Tools/Isolation.antt =====
-- Whose data the tools read: app/application/chat/_tools_executor.py.
use yomochi.Base.{ℕ, ◌≡◌, refl, ap, inl, inr, Option-cases}
use yomochi.Base.Result.{>>=_same}
use yomochi.Text.{Text}
use yomochi.Calendar.{Date}
use yomochi.Money.{ℤ}
use yomochi.Chat.Tools.{
  ToolName, get_month_summary, get_category_trend, get_spend_window, get_user_profile,
  search_transactions, list_categories, Values, ChatTools, int_item, str_item, date_item, call_tool,
  execute, tool_named, caught,
}

-- Two ports that answer alike for a user.
pub record SameFor (uid : ℕ) {E J : Type 0} (tools tools' : ChatTools E J) : Type 0 where
  pub same_summary : (y m : ℤ) → tools.month_summary uid y m ≡ tools'.month_summary uid y m
  pub same_trend : (c : Text) (n : ℤ) → tools.category_trend uid c n ≡ tools'.category_trend uid c n
  pub same_window : (s e : Date) → tools.spend_window uid s e ≡ tools'.spend_window uid s e
  pub same_profile : tools.user_profile uid ≡ tools'.user_profile uid
  pub same_matches :
      (t : Text) (n : ℤ) → tools.transactions_like uid t n ≡ tools'.transactions_like uid t n
  pub same_categories : tools.categories uid ≡ tools'.categories uid

module _ {E A V J : Type 0} (values : Values E A V) (uid : ℕ) (tools tools' : ChatTools E J)
    (h : SameFor uid tools tools') where
  call_tool_same :
      (tool : ToolName) (args : A)
      → call_tool values tools uid tool args ≡ call_tool values tools' uid tool args
  unfolding call_tool
  call_tool_same get_month_summary args =
      >>=_same (int_item values tools uid args _)
        (λ y _. >>=_same (int_item values tools uid args _) (λ m _. h.same_summary y m))
  call_tool_same get_category_trend args =
      >>=_same (str_item values tools uid args _)
        (λ c _. >>=_same (int_item values tools uid args _) (λ n _. h.same_trend c n))
  call_tool_same get_spend_window args =
      >>=_same (date_item values tools uid args _)
        (λ s _. >>=_same (date_item values tools uid args _) (λ e _. h.same_window s e))
  call_tool_same get_user_profile args = h.same_profile
  call_tool_same search_transactions args =
      >>=_same (str_item values tools uid args _)
        (λ t _. >>=_same (int_item values tools uid args _) (λ n _. h.same_matches t n))
  call_tool_same list_categories args = h.same_categories

  -- The tools that a request offers to the model read the data of its user only: where two ports answer
  -- alike for that user, every call gets the same payload or exception, whatever its name and arguments.
  pub execute_same :
      (name : Text) (args : A)
      → execute values tools uid name args ≡ execute values tools' uid name args
  unfolding execute
  execute_same name args = elim (Option-cases (tool_named name)) [
    | inl e ↦ rw (e, execute) refl
    | inr (tool, e) ↦ rw (e, execute) (ap (caught values tools uid name) (call_tool_same tool args))
  ]
