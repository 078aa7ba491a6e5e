-- ===== src/Tests/Conversation.antt =====
-- A conversation with tools, its service and its user.
use yomochi.Base.{ℕ, Bool, true, false, none, some, List, [], ◌∷◌, length, if◌then◌else◌, ◌==◌}
use yomochi.Base.Result.{Result, ok}
use yomochi.Text.{Text, codes}
use yomochi.Calendar.{date}
use yomochi.Money.{pos}
use yomochi.Gateway.{Slot, Usage, Chunk}
use yomochi.Chat.Tools.{Values, ChatTools, Payload, execute}
use yomochi.Chat.Messages.{Message, plain, calls, answered, Json}
use yomochi.Chat.Service.{Response, Streamed, Service, function_call}
use yomochi.Chat.Turns.{ChatState, ChatQueryCommand, ChatQueryResult, Moment, Weather}

abbrev pub json : Json Text (Payload ℕ)
json = record { loads = λ s. some s; no_arguments = []; dumps = λ r. codes "[]" }

abbrev pub values : Values ℕ Text Text
values = record {
  item = λ args key. ok args;
  to_int = λ v. ok (pos (length v));
  to_str = λ v. v;
  parse_date = λ v. ok (date 2026 3 4);
}

-- Two ports that differ for the user 9 only.
abbrev pub tools : ChatTools ℕ ℕ
tools = record {
  month_summary = λ uid y m. ok 1;
  category_trend = λ uid c n. ok 2;
  spend_window = λ uid s e. ok 3;
  user_profile = λ uid. ok 4;
  transactions_like = λ uid t n. ok 5;
  categories = λ uid. ok 6;
}

abbrev pub other_tools : ChatTools ℕ ℕ
other_tools = record tools { categories = λ uid. if uid == 9 then ok 7 else ok 6 }

abbrev pub call : Slot
call = record { id = codes "c1"; name = codes "list_categories"; arguments = codes "{}" }

abbrev pub paid : Usage
paid = record { prompt_tokens = 10; completion_tokens = 2 }

-- The model calls a tool once, and then answers.
abbrev pub asks : List Message → Bool
asks [] = true
asks (plain role s ∷ ms) = asks ms
asks (calls ss ∷ ms) = asks ms
asks (answered id s ∷ ms) = false

abbrev pub whole : Bool → Result ℕ Response
whole true = ok (record {
  answer = some (record { content = some (codes "Wait: "); tool_calls = function_call call ∷ [] });
  usage = some paid;
})
whole false = ok (record {
  answer = some (record { content = some (codes "Food"); tool_calls = [] });
  usage = some paid;
})

abbrev pub tail : Chunk
tail = record { choice = none; usage = some paid }

abbrev pub parts : Bool → Streamed ℕ
parts true = record {
  chunks =
      record {
        choice = some (record {
          content = some (codes "Wait: ");
          tool_calls =
              record {
                index = 0;
                id = some (codes "c1");
                function = some (record {
                  name = some (codes "list_categories");
                  arguments = some (codes "{}");
                });
              }
              ∷ [];
          finished_tool_calls = true;
        });
        usage = none;
      }
      ∷ tail
      ∷ [];
  failure = none;
}
parts false = record {
  chunks =
      record {
        choice = some (record {
          content = some (codes "Food");
          tool_calls = [];
          finished_tool_calls = false;
        });
        usage = none;
      }
      ∷ tail
      ∷ [];
  failure = none;
}

abbrev pub service : Service ℕ
service = record {
  create = λ offered ms. whole (if offered then asks ms else false);
  stream = λ offered ms. parts (if offered then asks ms else false);
}

abbrev pub question : ChatQueryCommand
question = record { user_id = 7; message = codes "What do I buy?" }

abbrev pub moment : Moment
moment = record {
  user_turn_id = 31;
  assistant_id = 32;
  started_at = 100;
  answered_at = 105;
  checked_on = date 2026 3 4;
  counted_on = date 2026 3 4;
  today = codes "2026-03-04";
}

abbrev pub nothing : ChatState
nothing = record { turns = []; counts = [] }

abbrev pub fair : Weather
fair = record { count_fails = false; save_fails = false; cut = none }

abbrev pub of_tools : ℕ → Text → Text → Result ℕ (Payload ℕ)
of_tools uid = execute values tools uid

abbrev pub reply : ChatQueryResult
reply = record { turn_id = 32; answer = codes "Food"; created_at = 105 }

abbrev pub remembered : ChatState
remembered = record {
  turns =
      record {
        id = 31;
        user_id = 7;
        role = codes "user";
        content = codes "What do I buy?";
        chunks_used = [];
        created_at = 100;
      }
      ∷ record {
        id = 32;
        user_id = 7;
        role = codes "assistant";
        content = codes "Food";
        chunks_used = codes "list_categories" ∷ [];
        created_at = 105;
      }
      ∷ [];
  counts = record { user_id = 7; day = date 2026 3 4; tokens = 24 } ∷ [];
}
