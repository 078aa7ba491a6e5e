-- ===== src/Keyset/Pages.antt =====
-- What a client that follows the cursors reads.
use mathlib.Core.Path.{subst}
use yomochi.Base.{
  ℕ, suc, zero, ◌≤◌, ◌<◌, ◌≡◌, refl, sym, ap, ◌∙◌, inl, inr, Bool, true, false, ◌&&◌, Option, none,
  some, List, [], ◌∷◌, All, select, take, length, ◌==◌, arith, Bool-cases, ==_iff,
}
use yomochi.Base.Result.{Result, ok}
use yomochi.Text.{Text, is_empty}
use yomochi.Keyset.{
  IsStrict, Distinct, Desc, order_desc, last, cursor_after, cursor_or_raise, read_cursor, page_of,
  follow_pages, IsPaged,
}
use yomochi.Keyset.Order.{order_desc-Desc, select-order_desc, select_both, select-Distinct}
use yomochi.Keyset.Suffix.{
  drop, last_full, select-true, select_passes, select-select, last-All, take-drop, length-drop,
  take_short, Desc-drop, full_page,
}

-- What a client relies on of a cursor's text.
module _ {C E : Type 0} (encode : C → Text) (decode : Text → Result E C) where
  pub record Codec : Type 0 where
    pub decode-encode : (c : C) → decode (encode c) ≡ ok c
    pub is_empty-encode : (c : C) → is_empty (encode c) ≡ false

  pub read_cursor-encode : Codec → (c : C) → read_cursor decode (some (encode c)) ≡ ok (some c)
  unfolding read_cursor
  read_cursor-encode codec c = rw (codec.is_empty-encode c, codec.decode-encode c) refl

-- With a limit of at least 1, no page is both empty and full.
pub cursor_or_raise-ok :
    {A E : Type 0} (e : E) (encode : A → Text) (limit : ℕ) (page : List A)
    → 1 ≤ limit
    → cursor_or_raise e encode limit page ≡ ok (cursor_after encode limit page)
unfolding cursor_or_raise cursor_after last
cursor_or_raise-ok e encode limit [] pos =
    let short : (0 == limit) ≡ false = ground arith in rw short refl
cursor_or_raise-ok e encode limit (x ∷ xs) pos =
    let (t, is_last) = last_full (length xs) (x ∷ xs) refl in
    elim (Bool-cases (suc (length xs) == limit)) [
      | inl k ↦ rw (k, is_last) refl
      | inr k ↦ rw k refl
    ]

module _ {A : Type 0} (older : A → A → Bool) (strict : IsStrict older) where
  -- The rows of a query that filters, orders and limits are the first of the whole list's rows that are
  -- older than the cursor's.
  pub take-select :
      (p q : A → Bool) (n : ℕ) (ts : List A)
      → Distinct older ts
      → take n (order_desc older (select (λ t. p t && q t) ts))
        ≡ take n (select q (order_desc older (select p ts)))
  take-select p q n ts u =
      rw
        (
          select_both p q ts,
          select-order_desc older strict q (select p ts) (select-Distinct older p ts u),
        )
        refl

  -- The whole list of a query is in order.
  pub order_desc-select-Desc :
      (p : A → Bool) (ts : List A) → Distinct older ts → Desc older (order_desc older (select p ts))
  order_desc-select-Desc p ts u = order_desc-Desc older strict _ (select-Distinct older p ts u)

  module _ {E : Type 0} (list : Option Text → Result E (List A × Option Text)) (encode : A → Text)
      (limit : ℕ) (whole : List A) where
    -- From a cursor on, after which the rows that pass a test are left.
    follow_pages_from :
        IsPaged list older encode limit whole
        → 1 ≤ limit
        → (n : ℕ) (c : Option Text) (p : A → Bool) (post : List A)
        → list c ≡ ok (page_of encode limit post)
        → ((t x : A) → p t ≡ true → older x t ≡ true → p x ≡ true)
        → select p whole ≡ post
        → Desc older post
        → length post < n
        → follow_pages list n c ≡ ok (some post)
    unfolding follow_pages cursor_after
    follow_pages_from paged pos zero c p post e down at d fuel = absurd (omega arith)
    follow_pages_from paged pos (suc n) c p post e down at d fuel =
        elim (Bool-cases (length (take limit post) == limit)) [
          | inl full ↦
              let is_full = (==_iff (length (take limit post)) limit).0 full in
              let (t, end, later) = full_page older strict limit post pos d is_full in
              let at_t =
                last-All (λ x. p x ≡ true) limit t post
                  (subst (λ xs. All (λ x. p x ≡ true) xs) at (select_passes p whole)) end in
              let next : select (λ x. older x t) whole ≡ drop limit post =
                sym (select-select (λ x. older x t) p whole (λ x k. down t x at_t k))
                ∙ ap (select (λ x. older x t)) at
                ∙ later in
              let rest =
                follow_pages_from paged pos n (some (encode t)) (λ x. older x t) (drop limit post)
                  (paged.later t ∙ ap (λ xs. ok (page_of encode limit xs)) next)
                  (λ s x k l. strict.trans x s t l k) next (Desc-drop older strict limit post d)
                  (omega (arith, length-drop limit post is_full)) in
              rw (e, full, end, rest) (ap (λ xs. ok (some xs)) (take-drop limit post))
          | inr short ↦
              rw (e, short) (ap (λ xs. ok (some xs)) (take_short limit post (λ e. ground arith)))
        ]

    -- With pages of at least one row and a request for each row and one more, the pages are the whole list.
    pub follow_pages-IsPaged :
        IsPaged list older encode limit whole
        → 1 ≤ limit
        → Desc older whole
        → (n : ℕ) → length whole < n
        → follow_pages list n none ≡ ok (some whole)
    follow_pages-IsPaged paged pos d n fuel =
        follow_pages_from paged pos n none (λ x. true) whole paged.first (λ t x k l. refl)
          (select-true whole) d fuel
