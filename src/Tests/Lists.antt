-- ===== src/Tests/Lists.antt =====
-- The theorems on the lists of turns and alerts, a page at a time.
use mathlib.Core.List.{reverse}
use yomochi.Base.{
  ℕ, ◌≡◌, refl, Bool, true, false, not, none, some, Option, List, [], ◌∷◌, select, length, arith,
}
use yomochi.Base.Result.{Result, ok, err}
use yomochi.Text.{Text, codes, is_empty}
use yomochi.Keyset.{order_desc, follow_pages}
use yomochi.Keyset.Pages.{Codec}
use yomochi.Chat.{ChatTurn, last_n, newest_first}
use yomochi.Chat.History.{list_chat_history}
use yomochi.Chat.History.Pages.{list_chat_history-last_n}
use yomochi.Alerts.{Alert, spending_spike}
use yomochi.Alerts.History.{ListAlertsResult, list_alerts}
use yomochi.Alerts.History.Pages.{alerts_of, pages_of, list_alerts-alerts_of}

-- A cursor's text: the two numbers after a mark.
abbrev write_key : ℕ × ℕ → Text
write_key (time, id) = 1 ∷ time ∷ id ∷ []

abbrev parse_key : Text → Result ℕ (ℕ × ℕ)
parse_key (mark ∷ time ∷ id ∷ []) = ok (time, id)
parse_key _ = err 400

key_codec : Codec write_key parse_key
unfolding is_empty
key_codec = record { decode-encode = λ (time, id). refl; is_empty-encode = λ (time, id). refl }

abbrev turn : ℕ → ℕ → ℕ → ChatTurn
turn id user time = record {
  id = id;
  user_id = user;
  role = codes "user";
  content = codes "Thanks";
  chunks_used = [];
  created_at = time;
}

-- Two turns of one time, and a turn of another user.
abbrev turns : List ChatTurn
turns = turn 1 7 100 ∷ turn 2 7 105 ∷ turn 3 8 105 ∷ turn 4 7 105 ∷ []

list_chat_history-last_n_example :
    follow_pages
      (λ c.
        list_chat_history write_key parse_key (record { user_id = 7; limit = 2; cursor = c }) turns)
      4
      none
    ≡ ok (some (reverse (last_n 7 3 turns)))
unfolding newest_first
list_chat_history-last_n_example =
    list_chat_history-last_n write_key parse_key key_codec 7 2 3 turns
      (
        ((λ e. omega arith), ((λ e. omega arith), ((λ e. omega arith), tt))),
        (((λ e. omega arith), ((λ e. omega arith), tt)), (((λ e. omega arith), tt), (tt, tt))),
      )
      (omega arith) (omega arith)

abbrev alert : ℕ → ℕ → Bool → ℕ → Alert ℕ
alert id user is_read time = record {
  id_ = id;
  user_id = user;
  alert_type = spending_spike;
  subtype = codes "expense_spike";
  content = 0;
  period_year = 2026;
  period_month = id;
  is_read = is_read;
  created_at = time;
}

abbrev alerts : List (Alert ℕ)
alerts = alert 1 7 true 100 ∷ alert 2 8 false 101 ∷ alert 3 7 false 101 ∷ []

list_alerts-alerts_of_example :
    (follow_pages (pages_of write_key parse_key 7 1 alerts) 3 none ≡ ok (some (alerts_of 7 alerts)))
    × ((c : Option Text) (r : ListAlertsResult ℕ)
        → list_alerts write_key parse_key (record { user_id = 7; limit = 1; cursor = c }) alerts
          ≡ ok r
        → r.unread_count ≡ length (select (λ a. not a.is_read) (alerts_of 7 alerts)))
unfolding order_desc
list_alerts-alerts_of_example =
    list_alerts-alerts_of write_key parse_key key_codec 7 1 3 alerts
      (((λ e. omega arith), ((λ e. omega arith), tt)), (((λ e. omega arith), tt), (tt, tt)))
      (omega arith) (omega arith)
