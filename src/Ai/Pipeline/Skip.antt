-- ===== src/Ai/Pipeline/Skip.antt =====
-- `shouldSkipDraft` of internal/ai/queue/pipeline.go. The texts that the source lowers first, the
-- sender, the category and the direction, are held in lower case.
use regent_backend.Base.{ℕ, ◌-◌, Bool, true, false, none, some, List, [], ◌∷◌, ◌&&◌, ◌||◌, not, ltb}
use Prim.Native.String.{String, len}
use text.Mathlib.Text.{◌==◌, find?, get?}

pub record Email : Type 0 where
  pub id : ℕ
  pub from_address : String
  pub direction : String

-- The results are opaque; one that has no getter for what is asked is `cat_opaque` or `sum_opaque`.
pub data Categorized : Type 0 where
  cat_failed no_category cat_opaque : Categorized
  category : String → Categorized

pub data Summarized : Type 0 where
  sum_failed no_summary sum_opaque : Summarized
  action_required : Bool → Summarized

abbrev pub no_reply_patterns : List String
no_reply_patterns =
    "noreply@" ∷ "no-reply@" ∷ "donotreply@" ∷ "do-not-reply@" ∷ "do_not_reply@" ∷ "mailer-daemon@"
    ∷ "postmaster@" ∷ "notifications@" ∷ "notification@" ∷ "updates@" ∷ "news@" ∷ "newsletter@"
    ∷ "marketing@" ∷ "promo@" ∷ "promotions@" ∷ "info@" ∷ "support@" ∷ "billing@" ∷ "receipts@"
    ∷ "receipt@" ∷ "bounce@" ∷ "auto-confirm@" ∷ "autoconfirm@" ∷ "verify@" ∷ "alert@" ∷ "alerts@"
    ∷ "digest@" ∷ "feedback@" ∷ "hello@" ∷ "deals@" ∷ "offer@" ∷ "offers@" ∷ "shop@" ∷ "store@"
    ∷ "order@" ∷ "orders@" ∷ "campaign@" ∷ "announce@" ∷ "announcements@" ∷ "automated@" ∷ "system@"
    ∷ "unsubscribe@" ∷ "subscription@" ∷ "subscriptions@" ∷ []

abbrev pub skip_categories : List String
skip_categories =
    "newsletter" ∷ "newsletters" ∷ "spam" ∷ "promotions" ∷ "promotion" ∷ "marketing" ∷ "updates"
    ∷ "social" ∷ "shopping" ∷ "advertising" ∷ "shipping" ∷ "events" ∷ "subscriptions" ∷ []

unfoldable pub contains : String → String → Bool
contains text pattern = elim (find? text pattern) [ none ↦ false | some i ↦ true ]

unfoldable pub contains_any : String → List String → Bool
unfolding contains
contains_any text [] = false
contains_any text (p ∷ ps) = contains text p || contains_any text ps

unfoldable pub is_one_of : String → List String → Bool
is_one_of text [] = false
is_one_of text (p ∷ ps) = text == p || is_one_of text ps

-- The slice [from, to), empty where it is out of range.
unfoldable pub slice_of : String → (from to : ℕ) → String
slice_of s from to = elim (get? s from to) [ none ↦ "" | some t ↦ t ]

-- The category, or the category without a final "s".
unfoldable pub is_skip_category : String → Bool
unfolding is_one_of slice_of
is_skip_category cat =
    is_one_of cat skip_categories
    || (ltb 1 (len cat)
        && slice_of cat (len cat - 1) (len cat) == "s"
        && is_one_of (slice_of cat 0 (len cat - 1)) skip_categories)

unfoldable pub skips_category : Categorized → Bool
unfolding is_skip_category
skips_category (category cat) = is_skip_category cat
skips_category cat_failed = false
skips_category no_category = false
skips_category cat_opaque = false

unfoldable pub skips_summary : Summarized → Bool
skips_summary (action_required b) = not b
skips_summary sum_failed = false
skips_summary no_summary = false
skips_summary sum_opaque = false

-- Whether a reason is given.
unfoldable pub should_skip_draft : Email → Categorized → Summarized → Bool
unfolding contains_any skips_category skips_summary
should_skip_draft email cat sum =
    contains_any email.from_address no_reply_patterns
    || skips_category cat
    || skips_summary sum
    || email.direction == "outbound"
