-- ===== src/Calendar/Conflicts/Pairs.antt =====
-- Pairs of events that the sort and the filter of `DetectConflicts` keep.
use regent_backend.Base.{
  ◌≡◌, refl, sym, ap, ◌∙◌, subst, inl, inr, true, false, List, [], ◌∷◌, ltb, if◌then◌else◌,
  Bool-cases,
}
use mathlib.Core.List.{Memᴰ}
use mathlib.Core.List.Memᴰ
use regent_backend.Calendar.{CalendarEvent}
use regent_backend.Calendar.Conflicts.{filter_active, insert, sort}

-- Two positions of a list, in either order.
pub data Pair (a b : CalendarEvent) : List CalendarEvent → Type 0 where
  first : {c : CalendarEvent} {es : List CalendarEvent} → a ≡ c → Memᴰ b es → Pair a b (c ∷ es)
  second : {c : CalendarEvent} {es : List CalendarEvent} → b ≡ c → Memᴰ a es → Pair a b (c ∷ es)
  further : {e : CalendarEvent} {es : List CalendarEvent} → Pair a b es → Pair a b (e ∷ es)

keep_active :
    (e : CalendarEvent) (es : List CalendarEvent)
    → e.is_cancelled ≡ false
    → filter_active (e ∷ es) ≡ e ∷ filter_active es
unfolding filter_active
keep_active e es h = ap (λ b. if b then filter_active es else e ∷ filter_active es) h

drop_cancelled :
    (e : CalendarEvent) (es : List CalendarEvent)
    → e.is_cancelled ≡ true
    → filter_active (e ∷ es) ≡ filter_active es
unfolding filter_active
drop_cancelled e es h = ap (λ b. if b then filter_active es else e ∷ filter_active es) h

filter_active-Mem :
    (a : CalendarEvent) (es : List CalendarEvent)
    → a.is_cancelled ≡ false
    → Memᴰ a es
    → Memᴰ a (filter_active es)
filter_active-Mem a [] h m = elim m [ ]
filter_active-Mem a (e ∷ es) h (Memᴰ.head q) =
    rw (keep_active e es (sym (ap (λ x. x.is_cancelled) q) ∙ h)) (Memᴰ.head q)
filter_active-Mem a (e ∷ es) h (Memᴰ.tail m) = elim (Bool-cases e.is_cancelled) [
  | inl y ↦ rw (drop_cancelled e es y) (filter_active-Mem a es h m)
  | inr n ↦ rw (keep_active e es n) (Memᴰ.tail (filter_active-Mem a es h m))
]

insert-self : (e : CalendarEvent) (es : List CalendarEvent) → Memᴰ e (insert e es)
unfolding insert
insert-self e [] = Memᴰ.head refl
insert-self e (f ∷ fs) = elim (Bool-cases (ltb f.start_time e.start_time)) [
  | inl y ↦ rw y (Memᴰ.tail (insert-self e fs))
  | inr n ↦ rw n (Memᴰ.head refl)
]

insert-Mem : (a e : CalendarEvent) (es : List CalendarEvent) → Memᴰ a es → Memᴰ a (insert e es)
unfolding insert
insert-Mem a e [] m = elim m [ ]
insert-Mem a e (f ∷ fs) (Memᴰ.head q) = elim (Bool-cases (ltb f.start_time e.start_time)) [
  | inl y ↦ rw y (Memᴰ.head q)
  | inr n ↦ rw n (Memᴰ.tail (Memᴰ.head q))
]
insert-Mem a e (f ∷ fs) (Memᴰ.tail m) = elim (Bool-cases (ltb f.start_time e.start_time)) [
  | inl y ↦ rw y (Memᴰ.tail (insert-Mem a e fs m))
  | inr n ↦ rw n (Memᴰ.tail (Memᴰ.tail m))
]

sort-Mem : (a : CalendarEvent) (es : List CalendarEvent) → Memᴰ a es → Memᴰ a (sort es)
unfolding sort
sort-Mem a [] m = elim m [ ]
sort-Mem a (e ∷ es) (Memᴰ.head h) = Memᴰ.cast h (insert-self e (sort es))
sort-Mem a (e ∷ es) (Memᴰ.tail m) = insert-Mem a e (sort es) (sort-Mem a es m)

Pair-swap : {a b : CalendarEvent} {es : List CalendarEvent} → Pair a b es → Pair b a es
Pair-swap (first q m) = second q m
Pair-swap (second q m) = first q m
Pair-swap (further p) = further (Pair-swap p)

new-Pair : (a b : CalendarEvent) (es : List CalendarEvent) → Memᴰ b es → Pair a b (insert a es)
unfolding insert
new-Pair a b [] m = elim m [ ]
new-Pair a b (f ∷ fs) (Memᴰ.head q) = elim (Bool-cases (ltb f.start_time a.start_time)) [
  | inl y ↦ rw y (second q (insert-self a fs))
  | inr n ↦ rw n (first refl (Memᴰ.head q))
]
new-Pair a b (f ∷ fs) (Memᴰ.tail m) = elim (Bool-cases (ltb f.start_time a.start_time)) [
  | inl y ↦ rw y (further (new-Pair a b fs m))
  | inr n ↦ rw n (first refl (Memᴰ.tail m))
]

past_head :
    (e f a b : CalendarEvent) (fs : List CalendarEvent)
    → (Pair a b fs → Pair a b (insert e fs))
    → Pair a b (f ∷ fs)
    → Pair a b (f ∷ insert e fs)
past_head e f a b fs k (first q m) = first q (insert-Mem b e fs m)
past_head e f a b fs k (second q m) = second q (insert-Mem a e fs m)
past_head e f a b fs k (further p) = further (k p)

insert-Pair :
    (e a b : CalendarEvent) (es : List CalendarEvent) → Pair a b es → Pair a b (insert e es)
unfolding insert
insert-Pair e a b [] p = elim p [ ]
insert-Pair e a b (f ∷ fs) p = elim (Bool-cases (ltb f.start_time e.start_time)) [
  | inl y ↦ rw y (past_head e f a b fs (insert-Pair e a b fs) p)
  | inr n ↦ rw n (further p)
]

pub sort-Pair : (a b : CalendarEvent) (es : List CalendarEvent) → Pair a b es → Pair a b (sort es)
unfolding sort
sort-Pair a b [] p = elim p [ ]
sort-Pair a b (e ∷ es) (first q m) =
    subst (λ x. Pair a b (insert x (sort es))) q (new-Pair a b (sort es) (sort-Mem b es m))
sort-Pair a b (e ∷ es) (second q m) =
    subst (λ x. Pair a b (insert x (sort es))) q
      (Pair-swap (new-Pair b a (sort es) (sort-Mem a es m)))
sort-Pair a b (e ∷ es) (further p) = insert-Pair e a b (sort es) (sort-Pair a b es p)

pub filter_active-Pair :
    (a b : CalendarEvent) (es : List CalendarEvent)
    → a.is_cancelled ≡ false
    → b.is_cancelled ≡ false
    → Pair a b es
    → Pair a b (filter_active es)
filter_active-Pair a b [] h k p = elim p [ ]
filter_active-Pair a b (e ∷ es) h k (first q m) =
    rw (keep_active e es (sym (ap (λ x. x.is_cancelled) q) ∙ h))
      (first q (filter_active-Mem b es k m))
filter_active-Pair a b (e ∷ es) h k (second q m) =
    rw (keep_active e es (sym (ap (λ x. x.is_cancelled) q) ∙ k))
      (second q (filter_active-Mem a es h m))
filter_active-Pair a b (e ∷ es) h k (further p) = elim (Bool-cases e.is_cancelled) [
  | inl y ↦ rw (drop_cancelled e es y) (filter_active-Pair a b es h k p)
  | inr n ↦ rw (keep_active e es n) (further (filter_active-Pair a b es h k p))
]
