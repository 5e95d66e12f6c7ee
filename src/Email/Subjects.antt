-- ===== src/Email/Subjects.antt =====
-- `NormalizeSubject` of internal/email/threading.go. A text is the list of its code points, and the
-- loop runs on fuel, the length of the subject.
pub mod Normal
mod Tests
use regent_backend.Base.{
  or_else, if_each, if_true, if_false, ℕ, zero, suc, ◌+◌, ◌-◌, ◌*◌, ◌/◌, ◌%◌, ◌≤◌, ◌<◌, min, max,
  ◌≡◌, refl, sym, ap, ◌∙◌, subst, ◌≢◌, ◌↔◌, ◌⊎◌, inl, inr, Bool, true, false, ◌&&◌, ◌||◌, not,
  Option, none, some, List, [], ◌∷◌, ◌++◌, map, arith, ltb, leb, ◌==◌, if◌then◌else◌, Bool-cases,
  Option-cases, All, All-append, length, ltb→lt, lt→ltb, leb→le, ==_iff, codes, get_elem?, take,
  drop, length-take, length-append, count, count-append, count-split, count-filter,
  count-filter_one, count_mono, filter,
}

-- `unicode.IsSpace`, by which `TrimSpace` goes.
unfoldable pub is_space : ℕ → Bool
is_space c =
    leb 9 c && leb c 13
    || c == 32
    || c == 133
    || c == 160
    || c == 5760
    || leb 8192 c && leb c 8202
    || c == 8232
    || c == 8233
    || c == 8239
    || c == 8287
    || c == 12288

unfoldable pub trim_start : List ℕ → List ℕ
trim_start [] = []
trim_start (c ∷ rest) = let more = trim_start rest in if is_space c then more else c ∷ rest

unfoldable pub is_empty : List ℕ → Bool
is_empty [] = true
is_empty (c ∷ rest) = false

unfoldable pub trim_end : List ℕ → List ℕ
trim_end [] = []
trim_end (c ∷ rest) =
    let more = trim_end rest in if is_space c && is_empty more then [] else c ∷ more

-- `strings.TrimSpace`.
unfoldable pub trim_space : List ℕ → List ℕ
trim_space text = trim_end (trim_start text)

-- `\s` of the regular expression, and its case folding.
unfoldable pub matches_space : ℕ → Bool
matches_space c = c == 9 || c == 10 || c == 12 || c == 13 || c == 32

unfoldable pub lower : ℕ → ℕ
lower c = if leb 65 c && leb c 90 then c + 32 else c

unfoldable pub skip_spaces : List ℕ → List ℕ
skip_spaces [] = []
skip_spaces (c ∷ rest) = let more = skip_spaces rest in if matches_space c then more else c ∷ rest

-- What follows a word, in any case; the word is in lower case.
unfoldable pub after_word : List ℕ → List ℕ → Option (List ℕ)
after_word [] text = some text
after_word (w ∷ word) [] = none
after_word (w ∷ word) (c ∷ rest) =
    let more = after_word word rest in if lower c == w then more else none

-- `\s*:\s*`.
unfoldable pub after_colon : List ℕ → Option (List ℕ)
after_colon [] = none
after_colon (c ∷ rest) = if c == 58 then some (skip_spaces rest) else none

unfoldable pub then_colon : Option (List ℕ) → Option (List ℕ)
then_colon none = none
then_colon (some rest) = after_colon (skip_spaces rest)

unfoldable pub after_prefix : List ℕ → List ℕ → Option (List ℕ)
after_prefix word text = then_colon (after_word word text)

-- `subjectPrefixRe` at the start of a text: what is left without the match.
unfoldable pub strip_prefix : List ℕ → Option (List ℕ)
strip_prefix text =
    or_else (after_prefix (codes "re") text)
      (or_else (after_prefix (codes "fwd") text) (after_prefix (codes "fw") text))

-- The loop of `NormalizeSubject`.
unfoldable pub strip_prefixes : (fuel : ℕ) → List ℕ → List ℕ
strip_prefixes zero text = text
strip_prefixes (suc fuel) text = elim (strip_prefix text) [
  | none ↦ text
  | some rest ↦ strip_prefixes fuel (trim_space rest)
]

unfoldable pub normalize_subject : List ℕ → List ℕ
normalize_subject subject = strip_prefixes (length subject) (trim_space subject)

-- What the query of `AssignThread` makes of the subject of a row: one prefix is taken away.
unfoldable pub stored_subject : List ℕ → List ℕ
stored_subject subject = elim (strip_prefix subject) [ none ↦ subject | some rest ↦ rest ]
