-- ===== src/Client/Net.antt =====
-- `net/url`, `net/http` and `io`, as internal/core/client.go uses them: the network and the
-- parsing of URLs are the client's parameters.
use lts_agent.Base.{ℕ, Bool, Bytes, List, Option, none, some, leb, length, take, if◌then◌else◌}
use lts_agent.Go.Errors.{Error, Result, ok, err}

pub record Url : Type 0 where
  pub scheme : Bytes
  pub host : Bytes
  pub has_user : Bool
  pub path : Bytes
  pub raw_query : Bytes
  pub fragment : Bytes

-- A body: the bytes that it yields, then an error or its end.
pub record Reader : Type 0 where
  pub available : Bytes
  pub failure : Option Error

pub record Request : Type 0 where
  pub method : Bytes
  pub address : Bytes
  pub headers : List (Bytes × Bytes)
  pub body : Option Bytes

pub record Response : Type 0 where
  pub status : ℕ
  pub body : Reader

-- `parse_url` is `url.Parse`, `resolve_reference` and `url_string` are methods of `*url.URL`,
-- `check_request` is the error of `http.NewRequestWithContext`, and `send` is `http.Client.Do`.
pub record Web (W : Type 0) : Type 0 where
  pub parse_url : Bytes → Result Url
  pub resolve_reference : Url → Url → Url
  pub url_string : Url → Bytes
  pub check_request : Bytes → Bytes → Result (Unit {0})
  pub send : Request → W → Result Response × W

-- `io.ReadAll(io.LimitReader(reader, limit))`: an error is met only where less than `limit` bytes
-- come before it.
unfoldable pub read_limited : ℕ → Reader → Result Bytes
read_limited limit reader =
    if leb limit (length reader.available)
    then ok (take limit reader.available)
    else elim reader.failure [ none ↦ ok reader.available | some e ↦ err e ]
