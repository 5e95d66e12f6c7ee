-- ===== src/Tasks/Priority/Order.antt =====
-- How the score goes with the deadline and the sender.
use regent_backend.Base.{ℕ, ◌+◌, ◌*◌, ◌≤◌, ◌<◌, ◌≡◌, ◌⊎◌, inl, inr, true, false, none, some, arith}
use regent_backend.Tasks.Priority.{
  level, PriorityInput, contains_any, soon_keywords, is_urgent, by_deadline, by_sender, or_sender,
  from_deadline, score, hour,
}

-- For a sender of at most 50 interactions and a text of no short time, a task with a nearer deadline,
-- looked at later, is at least as urgent, and a task with a deadline at least as urgent as one without.
pub score-level :
    (now later : ℕ) (i : PriorityInput) (near far : ℕ)
    → now ≤ later
    → near ≤ far
    → i.importance ≤ 50
    → contains_any i.deadline_text soon_keywords ≡ false
    → (level (score later (record i { deadline = some near }))
        ≤ level (score now (record i { deadline = some far })))
      × (level (score now (record i { deadline = some far }))
          ≤ level (score now (record i { deadline = none })))
unfolding score is_urgent from_deadline by_deadline by_sender or_sender level
score-level now later i near far le closer few not_soon = ground (arith, le, closer, few, not_soon)

-- For a sender of more than 50 interactions, and for a text of a short time, a deadline of three to
-- seven days makes a task that is not urgent by its words less urgent than one of a week or more.
pub score-inverted :
    (now : ℕ) (i : PriorityInput) (near far : ℕ)
    → is_urgent i ≡ false
    → (50 < i.importance) ⊎ (contains_any i.deadline_text soon_keywords ≡ true)
    → now + 72 * hour ≤ near
    → near < now + 168 * hour
    → now + 168 * hour ≤ far
    → level (score now (record i { deadline = some far }))
      < level (score now (record i { deadline = some near }))
unfolding score is_urgent from_deadline by_deadline by_sender or_sender level
score-inverted now i near far not_urgent (inl many) a b c =
    ground (arith, not_urgent, many, a, b, c)
score-inverted now i near far not_urgent (inr soon) a b c =
    ground (arith, not_urgent, soon, a, b, c)
