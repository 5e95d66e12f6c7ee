-- ===== src/Tasks/Priority/Tests.antt =====
-- A task of an important sender, due in four days and in two weeks.
use regent_backend.Base.{◌≡◌, ◌<◌, ◌*◌, refl, inl, false, none, some, [], codes, arith}
use regent_backend.Tasks.Priority.{
  p0, level, PriorityInput, is_prefix, contains, contains_any, is_text, urgent_keywords, hour,
  is_urgent, score,
}
use regent_backend.Tasks.Priority.Order.{score-inverted}

abbrev plain_task : PriorityInput
plain_task = record {
  deadline_text = codes "by friday";
  priority_hint = [];
  deadline = none;
  importance = 60;
}

not_urgent : is_urgent plain_task ≡ false
unfolding is_urgent contains_any contains is_prefix is_text urgent_keywords
not_urgent = refl

inverted :
    level (score 0 (record plain_task { deadline = some (336 * hour) }))
    < level (score 0 (record plain_task { deadline = some (96 * hour) }))
inverted =
    score-inverted 0 plain_task (96 * hour) (336 * hour) not_urgent (inl (omega arith))
      (omega arith) (omega arith) (omega arith)

asap_first : score 0 (record plain_task { deadline_text = codes "asap" }) ≡ p0
unfolding score is_urgent contains_any contains is_prefix is_text urgent_keywords
asap_first = refl
