-- ===== src/Email/Subjects/Normal.antt =====
-- A normalized subject has no prefix and no space around it.
use regent_backend.Base.{
  or_else, if_each, if_false, ℕ, zero, suc, ◌≤◌, ◌<◌, ◌≡◌, refl, sym, ap, ◌∙◌, subst, inl, inr,
  false, ◌&&◌, Option, none, some, List, [], ◌∷◌, arith, ◌==◌, Bool-cases, Option-cases, length,
  codes,
}
use regent_backend.Email.Subjects.{
  is_space, lower, trim_start, is_empty, trim_end, trim_space, skip_spaces, after_word, after_colon,
  then_colon, after_prefix, strip_prefix, strip_prefixes, normalize_subject,
}

-- Lengths.
length-trim_start : (text : List ℕ) → length (trim_start text) ≤ length text
unfolding trim_start
length-trim_start [] = omega arith
length-trim_start (c ∷ rest) = ground (arith, length-trim_start rest)

length-trim_end : (text : List ℕ) → length (trim_end text) ≤ length text
unfolding trim_end
length-trim_end [] = omega arith
length-trim_end (c ∷ rest) = ground (arith, length-trim_end rest)

length-trim_space : (text : List ℕ) → length (trim_space text) ≤ length text
unfolding trim_space
length-trim_space text = omega (arith, length-trim_start text, length-trim_end (trim_start text))

length-skip_spaces : (text : List ℕ) → length (skip_spaces text) ≤ length text
unfolding skip_spaces
length-skip_spaces [] = omega arith
length-skip_spaces (c ∷ rest) = ground (arith, length-skip_spaces rest)

-- What is left is shorter than the text.
Shorter : ℕ → Option (List ℕ) → Type 0
Shorter n none = Unit
Shorter n (some rest) = length rest < n

longer : (n m : ℕ) (o : Option (List ℕ)) → n ≤ m → Shorter n o → Shorter m o
unfolding Shorter
longer n m none le h = tt
longer n m (some rest) le h = omega (arith, le, h)

length-after_word : (word text : List ℕ) → Shorter (suc (length text)) (after_word word text)
unfolding after_word Shorter
length-after_word [] text = omega arith
length-after_word (w ∷ word) [] = tt
length-after_word (w ∷ word) (c ∷ rest) =
    if_each (Shorter (suc (suc (length rest)))) (lower c == w) (after_word word rest) none
      (longer (suc (length rest)) (suc (suc (length rest))) _ (omega arith)
        (length-after_word word rest))
      tt

length-after_colon : (text : List ℕ) → Shorter (length text) (after_colon text)
unfolding after_colon Shorter
length-after_colon [] = tt
length-after_colon (c ∷ rest) =
    if_each (Shorter (suc (length rest))) (c == 58) _ _ (omega (arith, length-skip_spaces rest)) tt

length-then_colon : (n : ℕ) (o : Option (List ℕ)) → Shorter (suc n) o → Shorter n (then_colon o)
unfolding then_colon Shorter
length-then_colon n none h = tt
length-then_colon n (some rest) h =
    longer (length (skip_spaces rest)) n _ (omega (arith, h, length-skip_spaces rest))
      (length-after_colon (skip_spaces rest))

either_Shorter :
    (n : ℕ) (first second : Option (List ℕ))
    → Shorter n first
    → Shorter n second
    → Shorter n (or_else first second)
either_Shorter n none second h k = k
either_Shorter n (some text) second h k = h

length-strip_prefix : (text : List ℕ) → Shorter (length text) (strip_prefix text)
unfolding strip_prefix after_prefix
length-strip_prefix text =
    let by : (word : List ℕ) → Shorter (length text) (then_colon (after_word word text)) =
      λ word. length-then_colon (length text) _ (length-after_word word text) in
    either_Shorter _ _ _ (by (codes "re"))
      (either_Shorter _ _ _ (by (codes "fwd")) (by (codes "fw")))

-- No space at the start.
Starts : List ℕ → Type 0
Starts [] = Unit
Starts (c ∷ rest) = is_space c ≡ false

trim_start-Starts : (text : List ℕ) → Starts (trim_start text)
unfolding trim_start Starts
trim_start-Starts [] = tt
trim_start-Starts (c ∷ rest) = elim (Bool-cases (is_space c)) [
  | inl space ↦ rw space (trim_start-Starts rest)
  | inr letter ↦ if_false Starts (is_space c) _ _ letter letter
]

Starts-trim_end : (text : List ℕ) → Starts text → Starts (trim_end text)
unfolding trim_end Starts
Starts-trim_end [] h = tt
Starts-trim_end (c ∷ rest) h =
    if_false Starts (is_space c && is_empty (trim_end rest)) _ _ (ground (arith, h)) h

trim_start-same : (text : List ℕ) → Starts text → trim_start text ≡ text
unfolding trim_start Starts
trim_start-same [] h = refl
trim_start-same (c ∷ rest) h = if_false (λ t. t ≡ c ∷ rest) (is_space c) _ _ h refl

trim_end_twice : (text : List ℕ) → trim_end (trim_end text) ≡ trim_end text
unfolding trim_end
trim_end_twice [] = refl
trim_end_twice (c ∷ rest) = elim (Bool-cases (is_space c && is_empty (trim_end rest))) [
  | inl gone ↦ rw gone refl
  | inr kept ↦ rw kept (rw (trim_end_twice rest, kept) refl)
]

trim_space_twice : (text : List ℕ) → trim_space (trim_space text) ≡ trim_space text
unfolding trim_space
trim_space_twice text =
    let begins = Starts-trim_end (trim_start text) (trim_start-Starts text) in
    ap trim_end (trim_start-same (trim_end (trim_start text)) begins)
    ∙ trim_end_twice (trim_start text)

-- No prefix is left, and no space around the text.
abbrev pub Normal : List ℕ → Type 0
Normal text = (strip_prefix text ≡ none) × (trim_space text ≡ text)

nothing_left : strip_prefix [] ≡ none
unfolding strip_prefix after_prefix after_word then_colon
nothing_left = refl

strip_prefixes-none :
    (fuel : ℕ) (text : List ℕ) → strip_prefix text ≡ none → strip_prefixes (suc fuel) text ≡ text
unfolding strip_prefixes
strip_prefixes-none fuel text h = rw (strip_prefixes, h) refl

strip_prefixes-some :
    (fuel : ℕ) (text rest : List ℕ)
    → strip_prefix text ≡ some rest
    → strip_prefixes (suc fuel) text ≡ strip_prefixes fuel (trim_space rest)
unfolding strip_prefixes
strip_prefixes-some fuel text rest h = rw (strip_prefixes, h) refl

-- Normal texts stay.
strip_prefixes_done :
    (fuel : ℕ) (text : List ℕ) → strip_prefix text ≡ none → strip_prefixes fuel text ≡ text
unfolding strip_prefixes
strip_prefixes_done zero text h = refl
strip_prefixes_done (suc fuel) text h = strip_prefixes-none fuel text h

strip_prefixes-Normal :
    (fuel : ℕ) (text : List ℕ)
    → length text ≤ fuel
    → trim_space text ≡ text
    → Normal (strip_prefixes fuel text)
unfolding strip_prefixes Shorter
strip_prefixes-Normal zero [] le h = (nothing_left, h)
strip_prefixes-Normal zero (c ∷ rest) le h = absurd (omega (arith, le))
strip_prefixes-Normal (suc fuel) text le h = elim (Option-cases (strip_prefix text)) [
  | inl done ↦ subst Normal (sym (strip_prefixes-none fuel text done)) (done, h)
  | inr (rest, more) ↦
      (let less : length rest < length text =
          subst (Shorter (length text)) more (length-strip_prefix text) in
        let fits : length (trim_space rest) ≤ fuel =
          omega (arith, less, le, length-trim_space rest) in
        subst Normal (sym (strip_prefixes-some fuel text rest more))
          (strip_prefixes-Normal fuel (trim_space rest) fits (trim_space_twice rest)))
]

-- A normalized subject has no reply or forward prefix and no space around it, however many prefixes
-- the subject had, so that to normalize it again changes nothing.
pub normalize_subject-Normal :
    (subject : List ℕ)
    → (strip_prefix (normalize_subject subject) ≡ none)
      × (trim_space (normalize_subject subject) ≡ normalize_subject subject)
      × (normalize_subject (normalize_subject subject) ≡ normalize_subject subject)
unfolding normalize_subject
normalize_subject-Normal subject =
    let trimmed = trim_space subject in
    let clean : Normal (strip_prefixes (length subject) trimmed) =
      strip_prefixes-Normal (length subject) trimmed (length-trim_space subject)
        (trim_space_twice subject) in
    let result = strip_prefixes (length subject) trimmed in
    (
      clean.0,
      clean.1,
      ap (strip_prefixes (length result)) clean.1
          ∙ strip_prefixes_done (length result) result clean.0,
    )
