-- ===== src/Outbox/Requeue.antt =====
-- `requeue_failed` of app/outbound/adapters/sqla/common/outbox_admin.py: failed rows that are tried
-- again, the ones that failed first before the others.
use yomochi.Base.{
  ℕ, ◌≡◌, refl, ap, ◌∙◌, inl, inr, Bool, true, false, not, ◌&&◌, ◌||◌, Option, none, some, List, [],
  ◌∷◌, map, select, take, ltb, leb, ◌==◌, Bool-cases, if◌then◌else◌,
}
use yomochi.Text.{Text, text_eq}
use yomochi.Outbox.{OutboxRow, OutboxStatus, Outbox, status_eq, find_row}

pub record RequeueFilter : Type 0 where
  pub ids : Option (List ℕ)
  pub event_type : Option Text
  pub failed_before : Option ℕ
  pub limit : Option ℕ
  pub dry_run : Bool

unfoldable pub has_id : ℕ → List ℕ → Bool
has_id k [] = false
has_id k (x ∷ xs) = x == k || has_id k xs

-- `failed_at < failed_before`, which is not true of NULL.
unfoldable pub failed_earlier : Option ℕ → ℕ → Bool
failed_earlier none before = false
failed_earlier (some t) before = ltb t before

unfoldable pub passes : RequeueFilter → OutboxRow → Bool
unfolding has_id failed_earlier status_eq text_eq
passes f r =
    (status_eq r.status OutboxStatus.failed
      && elim f.ids [ none ↦ true | some ids ↦ has_id r.id_ ids ])
    && (elim f.event_type [ none ↦ true | some e ↦ text_eq r.event_type e ]
        && elim f.failed_before [ none ↦ true | some t ↦ failed_earlier r.failed_at t ])

-- `failed_at ASC NULLS LAST`.
unfoldable pub fails_first : Option ℕ → Option ℕ → Bool
fails_first (some s) (some t) = leb s t
fails_first (some s) none = true
fails_first none (some t) = false
fails_first none none = true

unfoldable pub insert_by_failure : OutboxRow → List OutboxRow → List OutboxRow
unfolding fails_first
insert_by_failure r [] = r ∷ []
insert_by_failure r (x ∷ xs) =
    let rest = insert_by_failure r xs in
    if fails_first r.failed_at x.failed_at then r ∷ x ∷ xs else x ∷ rest

unfoldable pub by_failure : List OutboxRow → List OutboxRow
unfolding insert_by_failure
by_failure [] = []
by_failure (r ∷ rs) = insert_by_failure r (by_failure rs)

unfoldable pub limited : Option ℕ → List OutboxRow → List OutboxRow
limited none rs = rs
limited (some n) rs = take n rs

-- The rows of the SELECT, less those that another transaction has locked.
unfoldable pub target_ids : RequeueFilter → (ℕ → Bool) → List OutboxRow → List ℕ
unfolding passes by_failure limited
target_ids f locked rows =
    map (λ r. r.id_)
      (limited f.limit (by_failure (select (λ r. passes f r && not (locked r.id_)) rows)))

unfoldable pub reset_row : OutboxRow → OutboxRow
reset_row r = record r {
  status = OutboxStatus.pending;
  retry_count = 0;
  last_error = none;
  failed_at = none;
}

unfoldable pub reset_if : List ℕ → OutboxRow → OutboxRow
unfolding has_id reset_row
reset_if ids r = if has_id r.id_ ids then reset_row r else r

unfoldable pub requeue_failed : RequeueFilter → (ℕ → Bool) → Outbox → List ℕ × Outbox
unfolding target_ids reset_if
requeue_failed f locked o =
    let ids = target_ids f locked o.rows in
    (ids, if f.dry_run then o else record o { rows = map (reset_if ids) o.rows })

pub id_-reset_if : (ids : List ℕ) (r : OutboxRow) → (reset_if ids r).id_ ≡ r.id_
unfolding reset_if reset_row
id_-reset_if ids r = elim (Bool-cases (has_id r.id_ ids)) [ inl e ↦ rw e refl | inr e ↦ rw e refl ]

-- What a lookup finds after the reset.
pub find_row-reset :
    (ids : List ℕ) (k : ℕ) (rs : List OutboxRow)
    → find_row k (map (reset_if ids) rs)
      ≡ elim (find_row k rs) [ none ↦ none | some r ↦ some (reset_if ids r) ]
unfolding find_row
find_row-reset ids k [] = refl
find_row-reset ids k (r ∷ rs) =
    let same = ap (λ (n : ℕ). n == k) (id_-reset_if ids r) in
    elim (Bool-cases (r.id_ == k)) [
      | inl e ↦ rw (same ∙ e, e) refl
      | inr e ↦ rw (same ∙ e, e) (find_row-reset ids k rs)
    ]
