-- ===== src/Email/Subjects/Tests.antt =====
-- Subjects with nested prefixes.
use regent_backend.Base.{ℕ, ◌≡◌, refl, none, List, codes}
use regent_backend.Email.Subjects.{
  is_space, trim_start, is_empty, trim_end, trim_space, matches_space, lower, skip_spaces,
  after_word, after_colon, then_colon, after_prefix, strip_prefix, strip_prefixes,
  normalize_subject, stored_subject,
}
use regent_backend.Email.Subjects.Normal.{normalize_subject-Normal}

abbrev nested : List ℕ
nested = codes " RE: Fwd : fw:Lunch "

nested_lunch : normalize_subject nested ≡ codes "Lunch"
unfolding normalize_subject strip_prefixes strip_prefix after_prefix then_colon after_colon
    after_word skip_spaces lower matches_space trim_space trim_end trim_start is_empty is_space
nested_lunch = refl

normalize_subject-Normal_example :
    (strip_prefix (normalize_subject nested) ≡ none)
    × (trim_space (normalize_subject nested) ≡ normalize_subject nested)
    × (normalize_subject (normalize_subject nested) ≡ normalize_subject nested)
normalize_subject-Normal_example = normalize_subject-Normal nested

-- The query takes one prefix away: a row of this subject matches no normalized subject.
stored_nested : stored_subject (codes "Re: Re: Lunch") ≡ codes "Re: Lunch"
unfolding stored_subject strip_prefix after_prefix then_colon after_colon after_word skip_spaces
    lower matches_space
stored_nested = refl
