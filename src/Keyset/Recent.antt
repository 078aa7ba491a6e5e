-- ===== src/Keyset/Recent.antt =====
-- Lists by the time of a row, newest first, and by its identifier where the times are the same.
use yomochi.Base.{
  ℕ, ◌≤◌, ◌<◌, ◌≡◌, ◌≢◌, refl, ◌∙◌, Bool, true, ◌&&◌, ◌||◌, Option, none, some, List, [], ◌∷◌, All,
  select, take, length, ltb, ◌==◌,
}
use yomochi.Base.Result.{Result, ok}
use yomochi.Text.{Text}
use yomochi.Keyset.{Distinct, order_desc, cursor_after, follow_pages, IsPaged, read_cursor}
use yomochi.Keyset.Lex.{by_time, by_time-IsStrict, by_time-Apart}
use yomochi.Keyset.Suffix.{select-true}
use yomochi.Keyset.Pages.{
  Codec, read_cursor-encode, take-select, order_desc-select-Desc, follow_pages-IsPaged,
}

module _ {A : Type 0} (time id : A → ℕ) where
  -- The time and the identifier of a row.
  abbrev pub time_cursor : A → ℕ × ℕ
  time_cursor t = (time t, id t)

  unfoldable pub is_before : Option (ℕ × ℕ) → A → Bool
  is_before none t = true
  is_before (some (c, i)) t = ltb (time t) c || (time t == c && ltb (id t) i)

  -- The rows of a query that pass a test and are before a cursor.
  unfoldable pub recent : (A → Bool) → ℕ → Option (ℕ × ℕ) → List A → List A
  unfolding order_desc is_before
  recent p limit cursor ts =
      take limit (order_desc (by_time time id) (select (λ t. p t && is_before cursor t) ts))

  abbrev pub UniqueIds : List A → Type 0
  UniqueIds [] = Unit
  UniqueIds (t ∷ ts) = All (λ x. id x ≢ id t) ts × UniqueIds ts

  pub UniqueIds-Distinct : (ts : List A) → UniqueIds ts → Distinct (by_time time id) ts
  UniqueIds-Distinct [] u = tt
  UniqueIds-Distinct (t ∷ ts) (u, us) = (by_time-Apart time id t ts u, UniqueIds-Distinct ts us)

  -- The rows that pass, newest first.
  abbrev pub whole : (A → Bool) → List A → List A
  whole p ts = order_desc (by_time time id) (select p ts)

  recent-take :
      (p : A → Bool) (limit : ℕ) (c : Option (ℕ × ℕ)) (ts : List A)
      → UniqueIds ts
      → recent p limit c ts ≡ take limit (select (is_before c) (whole p ts))
  unfolding recent
  recent-take p limit c ts u =
      take-select (by_time time id) (by_time-IsStrict time id) p (is_before c) limit ts
        (UniqueIds-Distinct ts u)

  module _ {E : Type 0} (encode : ℕ × ℕ → Text) (decode : Text → Result E (ℕ × ℕ))
      (list : Option Text → Result E (List A × Option Text)) (p : A → Bool) (limit : ℕ)
      (ts : List A) where
    -- A list that answers with the rows before its cursor, and the cursor after a full page.
    abbrev pub Answers : Type 0
    Answers =
        (c : Option Text) (k : Option (ℕ × ℕ))
        → read_cursor decode c ≡ ok k
        → list c
          ≡ ok (
            recent p limit k ts,
            cursor_after (λ t. encode (time_cursor t)) limit (recent p limit k ts),
          )

    answers-IsPaged :
        Answers
        → Codec encode decode
        → UniqueIds ts
        → IsPaged list (by_time time id) (λ t. encode (time_cursor t)) limit (whole p ts)
    unfolding is_before read_cursor
    answers-IsPaged answers codec u = record {
      first =
          answers none none refl
          ∙ rw (recent-take p limit none ts u, select-true (whole p ts)) refl;
      later = λ t.
          answers (some (encode (time_cursor t))) (some (time_cursor t))
            (read_cursor-encode encode decode codec (time_cursor t))
          ∙ rw (recent-take p limit (some (time_cursor t)) ts u) refl;
    }

    -- Whoever follows the cursors of such a list reads every row that passes, once and newest first.
    pub follow_pages-whole :
        Answers
        → Codec encode decode
        → UniqueIds ts
        → 1 ≤ limit
        → (n : ℕ) → length (whole p ts) < n
        → follow_pages list n none ≡ ok (some (whole p ts))
    follow_pages-whole answers codec u pos n fuel =
        follow_pages-IsPaged (by_time time id) (by_time-IsStrict time id) list
          (λ t. encode (time_cursor t)) limit (whole p ts) (answers-IsPaged answers codec u) pos
          (order_desc-select-Desc (by_time time id) (by_time-IsStrict time id) p ts
            (UniqueIds-Distinct ts u))
          n fuel
