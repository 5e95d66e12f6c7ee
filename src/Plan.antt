-- ===== src/Plan.antt =====
-- The billing plans, which the source names by text (internal/billing/config.go).
use regent_backend.Base.{ℕ}

pub data Plan : Type 0 where
  free attache privy_council estate : Plan
  -- Any other text, numbered.
  unlisted : ℕ → Plan
