-- ===== src/Identifier/Tests.antt =====
-- Identifiers that internal/identifier/identifier.go accepts and refuses.
use lts_agent.Base.{◌≡◌, refl, true, false, all, lit}
use lts_agent.Go.Regexp.{matches}
use lts_agent.Go.Strings.{split}
use lts_agent.Identifier.{valid}
use lts_agent.Identifier.Words.{is_word, valid-eq-all-split}

valid-eq-all-split_example : valid (lit "web-1") ≡ all is_word (split b'-' (lit "web-1"))
valid-eq-all-split_example = valid-eq-all-split (lit "web-1")

valid-accepts : valid (lit "web-1") ≡ true
unfolding valid matches lit
valid-accepts = refl

valid-refuses : valid (lit "web--1") ≡ false
unfolding valid matches lit
valid-refuses = refl
