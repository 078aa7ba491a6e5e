-- ===== src/Chat/Turns/Own.antt =====
-- Whose data a question reads: app/application/chat/use_cases with
-- app/application/chat/_tools_executor.py.
use mathlib.Core.Path.{fun_ext}
use yomochi.Base.{ℕ, ◌≡◌, refl, inl, inr}
use yomochi.Base.Result.{Result-cases}
use yomochi.Chat.{check}
use yomochi.Chat.Tools.{Values, ChatTools, Payload, execute}
use yomochi.Chat.Tools.Isolation.{SameFor, execute_same}
use yomochi.Chat.Messages.{Json}
use yomochi.Chat.Service.{Service}
use yomochi.Chat.Turns.{ChatState, ChatQueryCommand, Moment, Weather, chat_query, chat_stream}

module _ {E A V J : Type 0} (json : Json A (Payload J)) (service : Service E) (iterations limit : ℕ)
    (values : Values E A V) (tools tools' : ChatTools E J) (meanwhile : ChatState → ChatState) where
  -- A question reads the data of its own user only, whatever tools the model calls with whatever
  -- arguments in whatever rounds: where two ports of the tools answer alike for that user, the answer, what
  -- is streamed, the turns and the counters are the same.
  pub own_data_only :
      (command : ChatQueryCommand) (m : Moment) (w : Weather) (s : ChatState)
      → SameFor command.user_id tools tools'
      → (chat_query json service iterations limit
            (λ uid. execute values tools uid)
            meanwhile
            command
            m
            s
          ≡ chat_query json service iterations limit
              (λ uid. execute values tools' uid)
              meanwhile
              command
              m
              s)
        × (chat_stream json service iterations limit
              (λ uid. execute values tools uid)
              meanwhile
              command
              m
              w
              s
            ≡ chat_stream json service iterations limit
                (λ uid. execute values tools' uid)
                meanwhile
                command
                m
                w
                s)
  unfolding chat_query chat_stream
  own_data_only command m w s h =
      let same : execute values tools command.user_id ≡ execute values tools' command.user_id =
        fun_ext (λ name.
          fun_ext (λ args. execute_same values command.user_id tools tools' h name args)) in
      elim (Result-cases (check {E = E} limit command.user_id m.checked_on s.counts)) [
        | inl (t, passes) ↦
            (rw (chat_query, passes, same) refl, rw (chat_stream, passes, same) refl)
        | inr (e, fails) ↦ (rw (chat_query, fails) refl, rw (chat_stream, fails) refl)
      ]
