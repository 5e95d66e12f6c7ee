-- ===== src/Ai/Router/Tests.antt =====
-- A draft for an email of an important sender.
use regent_backend.Base.{◌≡◌, refl, true, false}
use regent_backend.Ai.Router.{
  draft_reply, premium_draft, other_category, EmailMeta, is_sensitive, is_draft, should_upgrade,
  config_or_default, route,
}

abbrev vip : EmailMeta
vip = record {
  priority = 10;
  category = other_category 0;
  sender_is_vip = true;
  user_requested_premium = false;
}

vip_draft : route draft_reply vip ≡ config_or_default premium_draft
unfolding route is_draft should_upgrade is_sensitive
vip_draft = refl
