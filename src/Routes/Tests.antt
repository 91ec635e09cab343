-- ===== src/Routes/Tests.antt =====
-- route-config.mjs: patterns at work, and the theorem at one of them.
use tokligence_gateway.Prelude.{◌≡◌, refl, ◌↔◌, true, false, codes, lower_case, to_lower}
use tokligence_gateway.Routes.Wildcard.{
  matches_wildcard, Matches, glob, star, is_terminator, matches_wildcard_iff,
}

sonnet : matches_wildcard (codes "Claude-*-4*") (codes "claude-sonnet-4-5") ≡ true
unfolding matches_wildcard glob star is_terminator lower_case to_lower
sonnet = refl

opus : matches_wildcard (codes "claude-sonnet*") (codes "claude-opus-4") ≡ false
unfolding matches_wildcard glob star is_terminator lower_case to_lower
opus = refl

matches_wildcard_iff_example :
    (matches_wildcard (codes "Claude-*") (codes "claude-opus") ≡ true)
    ↔ Matches (lower_case (codes "Claude-*")) (codes "claude-opus")
matches_wildcard_iff_example = matches_wildcard_iff (codes "Claude-*") (codes "claude-opus")
