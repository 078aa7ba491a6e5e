-- ===== src/Chat/History/Pages.antt =====
-- The pages of the turns, and the turns that a question is asked with.
use mathlib.Core.List.{reverse, reverse-reverse}
use yomochi.Base.{
  ℕ, suc, zero, ◌≤◌, ◌≡◌, refl, sym, ap, ◌∙◌, some, none, List, [], ◌∷◌, take, length, ◌==◌, arith,
}
use yomochi.Base.Result.{Result, ok}
use yomochi.Text.{Text}
use yomochi.Keyset.{follow_pages}
use yomochi.Keyset.Pages.{Codec}
use yomochi.Keyset.Recent.{UniqueIds, follow_pages-whole}
use yomochi.Chat.{ChatTurn, is_older, newest_first, turns_of, last_n}
use yomochi.Chat.History.{list_for_user, list_chat_history}

take_all : (n : ℕ) (ts : List ChatTurn) → length ts ≤ n → take n ts ≡ ts
take_all zero [] h = refl
take_all (suc n) [] h = refl
take_all zero (t ∷ ts) h = absurd (omega arith)
take_all (suc n) (t ∷ ts) h = ap (λ xs. t ∷ xs) (take_all n ts (omega arith))

-- All turns that a question could be asked with, the last first.
reverse-last_n :
    (user k : ℕ) (table : List ChatTurn)
    → length (newest_first (turns_of user table)) ≤ k
    → reverse (last_n user k table) ≡ newest_first (turns_of user table)
unfolding last_n
reverse-last_n user k table room =
    reverse-reverse (take k (newest_first (turns_of user table)))
    ∙ take_all k (newest_first (turns_of user table)) room

module _ {E : Type 0} (encode : ℕ × ℕ → Text) (decode : Text → Result E (ℕ × ℕ)) where
  -- A client that follows the cursors of the list of turns, with pages of at least one turn and one request
  -- more than the user has turns, in a table that does not change and has each identifier once, reads
  -- exactly the turns that the user's next question would be asked with if there were room for all of
  -- them, newest first. A cursor's text is not empty and is read back as the cursor.
  pub list_chat_history-last_n :
      Codec encode decode
      → (user limit k : ℕ) (table : List ChatTurn) → UniqueIds (λ t. t.created_at) (λ t. t.id) table
      → 1 ≤ limit
      → length (newest_first (turns_of user table)) ≤ k
      → follow_pages
          (λ c.
            list_chat_history encode decode
              (record { user_id = user; limit = limit; cursor = c })
              table)
          (suc k)
          none
        ≡ ok (some (reverse (last_n user k table)))
  unfolding list_chat_history list_for_user newest_first is_older
  list_chat_history-last_n codec user limit k table u pos room =
      follow_pages-whole (λ t. t.created_at) (λ t. t.id) encode decode _ (λ t. t.user_id == user)
        limit table (λ c key e. rw e refl) codec u pos (suc k) (omega (arith, room))
      ∙ ap (λ ts. ok (some ts)) (sym (reverse-last_n user k table room))
