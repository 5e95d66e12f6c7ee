-- ===== src/Tasks/Priority.antt =====
-- `Score` of internal/tasks/priority.go. Texts that the source lowers are held in lower case, as the
-- numbers of their characters; times are nanoseconds.
pub mod Order
mod Tests
use regent_backend.Base.{
  ℕ, ◌+◌, ◌*◌, Bool, true, false, ◌&&◌, ◌||◌, Option, none, some, List, [], ◌∷◌, ltb, ◌==◌,
  if◌then◌else◌, codes,
}

pub data TaskPriority : Type 0 where
  p0 p1 p2 p3 : TaskPriority

-- 0 is the most urgent.
unfoldable pub level : TaskPriority → ℕ
level p0 = 0
level p1 = 1
level p2 = 2
level p3 = 3

-- `importance` is what getSenderImportance answers: 0 where its query does not succeed.
pub record PriorityInput : Type 0 where
  pub deadline_text : List ℕ
  pub priority_hint : List ℕ
  pub deadline : Option ℕ
  pub importance : ℕ

unfoldable pub is_prefix : List ℕ → List ℕ → Bool
is_prefix [] text = true
is_prefix (c ∷ word) [] = false
is_prefix (c ∷ word) (d ∷ text) = c == d && is_prefix word text

-- `strings.Contains`.
unfoldable pub contains : List ℕ → List ℕ → Bool
contains [] word = is_prefix word []
contains (c ∷ text) word = is_prefix word (c ∷ text) || contains text word

unfoldable pub contains_any : List ℕ → List (List ℕ) → Bool
contains_any text [] = false
contains_any text (word ∷ rest) = contains text word || contains_any text rest

unfoldable pub is_text : List ℕ → List ℕ → Bool
is_text [] [] = true
is_text [] (d ∷ other) = false
is_text (c ∷ text) [] = false
is_text (c ∷ text) (d ∷ other) = c == d && is_text text other

unfoldable pub urgent_keywords : List (List ℕ)
urgent_keywords =
    codes "asap"
    ∷ (codes "immediately"
        ∷ (codes "right away"
            ∷ (codes "urgent" ∷ (codes "right now" ∷ (codes "as soon as possible" ∷ [])))))

unfoldable pub soon_keywords : List (List ℕ)
soon_keywords =
    codes "soon"
    ∷ (codes "this week" ∷ (codes "promptly" ∷ (codes "at your earliest" ∷ (codes "timely" ∷ []))))

abbrev pub hour : ℕ
hour = 3_600_000_000_000

unfoldable pub is_urgent : PriorityInput → Bool
is_urgent i =
    contains_any i.deadline_text urgent_keywords || is_text i.priority_hint (codes "urgent")

-- The priority by a deadline, and none where it is a week away or more.
unfoldable pub by_deadline : (now deadline : ℕ) → Option TaskPriority
by_deadline now deadline =
    if ltb deadline (now + 24 * hour)
    then some p0
    else (if ltb deadline (now + 72 * hour)
        then some p1
        else (if ltb deadline (now + 168 * hour) then some p2 else none))

-- The checks after those of the deadline's distance.
unfoldable pub by_sender : (has_deadline soon : Bool) → (importance : ℕ) → TaskPriority
by_sender has_deadline soon importance =
    if ltb 50 importance
    then (if has_deadline then p1 else p2)
    else (if soon then p1 else (if has_deadline then p2 else p3))

unfoldable pub or_sender : Option TaskPriority → TaskPriority → TaskPriority
or_sender none other = other
or_sender (some p) other = p

unfoldable pub from_deadline :
    (now : ℕ) → Option ℕ → (soon : Bool) → (importance : ℕ) → TaskPriority
from_deadline now none soon importance = by_sender false soon importance
from_deadline now (some deadline) soon importance =
    or_sender (by_deadline now deadline) (by_sender true soon importance)

unfoldable pub score : (now : ℕ) → PriorityInput → TaskPriority
score now i =
    if is_urgent i
    then p0
    else from_deadline now i.deadline (contains_any i.deadline_text soon_keywords) i.importance
