-- ===== src/Chat/Memory.antt =====
-- What the next question remembers: `append_turn_pair` and `last_n` of
-- app/outbound/adapters/sqla/chat/chat_history_store.py.
use mathlib.Core.List.{reverse, reverse-cons}
use yomochi.Base.{
  ℕ, suc, ◌≡◌, ◌≢◌, refl, inl, inr, true, false, List, [], ◌∷◌, ◌++◌, All, take, arith, Bool-cases,
  append_assoc, append-nil, ==_refl, ◌==◌,
}
use yomochi.Keyset.{order_desc, insert_desc}
use yomochi.Chat.{ChatTurn, is_older, newest_first, turns_of, last_n, save_turns, append_turn_pair}

is_older_trans :
    (s t u : ChatTurn) → is_older s t ≡ true → is_older t u ≡ true → is_older s u ≡ true
unfolding is_older
is_older_trans s t u h k = ground arith

-- Two turns that are newer than all others come first.
newest_first_pair :
    (u a : ChatTurn) (ts : List ChatTurn)
    → is_older u a ≡ true
    → All (λ t. is_older t u ≡ true) ts
    → newest_first (ts ++ (u ∷ a ∷ [])) ≡ a ∷ u ∷ newest_first ts
unfolding newest_first order_desc insert_desc
newest_first_pair u a [] h older = rw h refl
newest_first_pair u a (t ∷ ts) h (o, os) =
    rw (newest_first_pair u a ts h os, is_older_trans t u a o h, o) refl

abbrev pub owned : ℕ → ChatTurn → ChatTurn
owned user t = record t { user_id = user }

turns_of-append :
    (user : ℕ) (xs ys : List ChatTurn)
    → turns_of user (xs ++ ys) ≡ turns_of user xs ++ turns_of user ys
turns_of-append user [] ys = refl
turns_of-append user (x ∷ xs) ys = elim (Bool-cases (x.user_id == user)) [
  | inl e ↦ rw (e, turns_of-append user xs ys) refl
  | inr e ↦ rw (e, turns_of-append user xs ys) refl
]

pair_appended :
    (user : ℕ) (u a : ChatTurn) (table : List ChatTurn)
    → append_turn_pair user u a table ≡ table ++ (owned user u ∷ owned user a ∷ [])
unfolding append_turn_pair save_turns
pair_appended user u a table = append_assoc table (owned user u ∷ []) (owned user a ∷ [])

turns_of_pair :
    (user : ℕ) (u a : ChatTurn) (table : List ChatTurn)
    → turns_of user (append_turn_pair user u a table)
      ≡ turns_of user table ++ (owned user u ∷ owned user a ∷ [])
turns_of_pair user u a table =
    rw
      (
        pair_appended user u a table,
        turns_of-append user table (owned user u ∷ owned user a ∷ []),
        ==_refl user,
      )
      refl

turns_of_others :
    (user other : ℕ) (u a : ChatTurn) (table : List ChatTurn)
    → other ≢ user
    → turns_of other (append_turn_pair user u a table) ≡ turns_of other table
turns_of_others user other u a table h =
    let apart : (user == other) ≡ false = ground arith in
    rw
      (
        pair_appended user u a table,
        turns_of-append other table (owned user u ∷ owned user a ∷ []),
        apart,
      )
      (append-nil (turns_of other table))

-- A question and its answer that are newer than the turns of the user and in this order are the last two
-- of the turns that the user's next question is asked with, after the last of the older ones. The turns
-- of the other users are asked with as before.
pub last_n-append_turn_pair :
    (user n : ℕ) (u a : ChatTurn) (table : List ChatTurn)
    → is_older (owned user u) (owned user a) ≡ true
    → All (λ t. is_older t (owned user u) ≡ true) (turns_of user table)
    → (last_n user (suc (suc n)) (append_turn_pair user u a table)
        ≡ last_n user n table ++ (owned user u ∷ owned user a ∷ []))
      × ((other k : ℕ)
          → other ≢ user
          → last_n other k (append_turn_pair user u a table) ≡ last_n other k table)
unfolding last_n
last_n-append_turn_pair user n u a table h older = (
  rw
      (
        turns_of_pair user u a table,
        newest_first_pair (owned user u) (owned user a) (turns_of user table) h older,
        reverse-cons (owned user a) (owned user u ∷ take n (newest_first (turns_of user table))),
        reverse-cons (owned user u) (take n (newest_first (turns_of user table))),
      )
      (append_assoc (reverse (take n (newest_first (turns_of user table)))) _ _),
  λ other k apart. rw (turns_of_others user other u a table apart) refl,
)
