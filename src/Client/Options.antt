-- ===== src/Client/Options.antt =====
-- The options of `New` of internal/core/client.go, and the tests on them.
use lts_agent.Base.{not, Bytes, lit, is_empty}
use lts_agent.Go.Errors.{text, Result, ok, require, ◌>>=◌, ◌>>◌}
use lts_agent.Go.Numbers.{ℤ, pos, int_lt}
use lts_agent.Go.Strings.{trim_space, contains_any}
use lts_agent.Client.Net.{Url}
use lts_agent.Client.{parse_base_url}

pub record Options : Type 0 where
  pub base_url : Bytes
  pub timeout : ℤ
  pub ca_file : Bytes
  pub user_agent : Bytes

-- `New` up to the certificates.
unfoldable pub check_options : (Bytes → Result Url) → Options → Result Url
check_options parse_url options = do
  base_url ← parse_base_url parse_url options.base_url
  require (int_lt (pos 0) options.timeout) (text (lit "timeout must be greater than zero"))
  require (not (is_empty (trim_space options.user_agent)))
      (text (lit "user agent must not be empty"))
  require (not (contains_any options.user_agent (lit "\r\n")))
      (text (lit "user agent must not contain line breaks"))
  ok base_url
