-- ===== src/Lib.antt =====
-- Yomochi, a personal finance service in Python (app/): the parts of it that decide, over the
-- tables, keys and messages that they decide about.
--
-- The parts and their files:
--   * Calendar: the dates of Python's standard library (`datetime.date`, `calendar.monthrange`) that
--     the schedules use. Recurring: app/application/recurring/next_fire_date.py and the validation of
--     a schedule in app/application/recurring/use_cases/create_recurring_rule.py. Recurring/Schedule
--     says which dates a schedule names, and its children that the computed date is the first one.
--     Recurring/Firing: the job that fires due rules,
--     app/application/recurring/use_cases/fire_due_rules.py, and the entity and query it works on.
--     Recurring/Rules: create_recurring_rule.py and update_recurring_rule.py.
--   * RateLimit: the middleware app/inbound/http/middleware/rate_limit.py and its policies,
--     rate_limit_policy.py. RateLimit/Gcra is the Lua script on one Redis key, RateLimit/Policy the
--     policies, RateLimit/Client who is calling, RateLimit/Middleware what is answered.
--   * Idempotency: app/inbound/http/middleware/idempotency.py.
--   * Budget: app/domain/value_objects/budget_summary_snapshot.py. Budget/Column: its column, of
--     app/outbound/persistence_sqla/mappings/_types.py.
--   * Insight: the entity app/domain/entities/insight.py. Insight/Repository: the transactions on its
--     table (app/outbound/adapters/sqla/insights/insight_repository.py and
--     app/application/insights/use_cases/_process_insight_steps.py). Insight/Lifecycle: their
--     interleavings. Insight/Context and Insight/Process: the worker's use case,
--     app/application/insights/use_cases/process_insight.py. Insight/Consumer: the handler of its
--     messages, app/inbound/messaging/insight_consumer.py. Insight/Stream: stream_insight.py.
--     Insight/Request: request_insight.py, and the reaper's tick of app/main/scheduler/main.py.
--   * Outbox: app/outbound/outbox/poller.py, the insertion of
--     app/outbound/adapters/sqla/common/outbox_repository.py, and in Outbox/Requeue the requeue of
--     outbox_admin.py beside it.
--   * Money: app/domain/value_objects/money.py. Ledger: transactions and categories, their tables
--     (app/outbound/adapters/sqla/transactions, categories and common/quota_check.py beside them).
--     Ledger/Change: create_transaction.py, update_transaction.py and delete_transaction.py of
--     app/application/transactions/use_cases; Ledger/History: their calls one after the other.
--     Ledger/Paging: list_transactions.py. Ledger/Categories:
--     app/application/categories/use_cases/create_category.py.
--   * Accounts: users, email.py and password.py. Accounts/Sessions:
--     app/outbound/adapters/redis/session_store.py. Accounts/Change: the use cases of
--     app/application/users/use_cases, and app/inbound/http/auth/identity.py.
--   * Gateway: the stream with tools of app/outbound/adapters/openai/_gateway/gateway.py.
--   * Chat: the turns and the budget of tokens (app/outbound/adapters/sqla/chat/chat_history_store.py,
--     app/outbound/adapters/redis/chat_token_budget.py). Chat/Tools: app/application/chat/_tools_executor.py.
--     Chat/Service, Chat/Messages and Chat/Client: app/outbound/adapters/openai/chat_client.py over
--     the gateway's streams. Chat/Turns: the use cases chat_query.py and chat_stream.py of
--     app/application/chat/use_cases.
--   * Spending: app/domain/services/monthly_aggregator.py. Spending/Shifts:
--     behavioral_shift_detector.py and alert_threshold.py beside it.
--   * Alerts: the table of alerts (app/outbound/adapters/sqla/alerts) and its detection,
--     app/application/insights/use_cases/detect_shift_alerts.py, which reads the aggregation of a
--     month and of those before it.
--   * Keyset: what the lists with cursors share. Ledger/Paging, Chat/History, Alerts/History and
--     Insight/History are these lists: list_transactions.py, list_chat_history.py, list_alerts.py and
--     list_insights.py.
--   * Base and Text: Booleans, lists, results and the texts that the program walks. Tests: the
--     theorems at concrete inputs.
--
-- How they interact: a cookie is resolved to a user by the session store; a user's calls change
-- the ledger, within the quota of the user's plan; a request adds an insight and an outbox row;
-- the poller of the outbox publishes the row's message; the consumer hands it to the worker,
-- which claims the insight, assembles a context, calls the AI client and completes the insight
-- with a budget snapshot or fails it; the reaper requeues insights whose stored deadline has passed; the
-- stream shows the row to the caller. A question in the chat reads the last turns, lets the
-- model call tools on the user's data for some rounds, and keeps the answer and counts its
-- tokens, also when its reader leaves early.
--
-- State is passed explicitly: a table is a list whose rows are found by their primary key, a
-- Redis key is an optional entry, a transaction gives back the new table or, when it raises, the
-- old one. Whatever runs at the same time is a relation of single transactions, or a parameter
-- that changes the table between two transactions of one run, or between the read and the write of
-- one. Every loop is structural recursion on what it walks, or has fuel: the catch-up of a recurring rule has one round for each date up
-- to today and one more, which is proved to be enough. The batches of a job, the deliveries of a
-- message and the polls of a stream are bounded by the counts that the program itself bounds
-- them by.
--
-- Numbers are natural numbers. Identifiers and moments are numbers; amounts are whole
-- ten-thousandths. A subtraction that the source lets go below 0 is written so that it does not,
-- and said beside it. Dates run to the year 9999, and the schedules' theorems to a start in the
-- year 9990, since Python raises an overflow at the end of its calendar.
--
-- Parameters: the answers of the chat's model, its tools and JSON, the quotients, means and
-- comparisons of floats and decimals of the aggregation, the texts of an alert, the application
-- behind the idempotency middleware, the AI client, the broker, the creation of a transaction
-- that a rule fires, which does not check the quota, the clock, identifiers and their texts, hashes
-- and the check of a password, UTF-8, the texts of cookies, cursors and decimals, the test whether an address is in a network, and the
-- formatting and statistics of the insight context. Of a password's hash nothing is assumed; of
-- a cursor's text, that it is not empty and is read back; of a decimal's, that it is read back; of UTF-8,
-- that the empty text is no bytes, and of a body that it is UTF-8.
--
-- Not modelled: failures of the database, of Redis outside the two middlewares and of the dead
-- letter topic; concurrent calls on the ledger and the accounts, which run one after the other;
-- expiry of Redis keys outside the rate limiter and the sessions; metrics, logs and traces; the
-- rate limiter's response bodies; the limiter and the breaker of the gateway; ingestion and search;
-- mails; the adapters that only call other services.
--
pub mod Base
pub mod Accounts
pub mod Text
pub mod Calendar
pub mod Keyset
pub mod Recurring
pub mod RateLimit
pub mod Budget
pub mod Insight
pub mod Ledger
pub mod Chat
pub mod Spending
pub mod Alerts
pub mod Money
pub mod Outbox
pub mod Gateway
pub mod Idempotency
pub mod Tests
