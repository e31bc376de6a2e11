-- ===== src/Models.antt =====
-- src/models/link_data.cc, include/models/link_data.h. A point in time is a number of seconds.
use bit_link.Prelude.{ℕ}
use bit_link.Str.{Bytes}
use bit_link.StrMap.{StrMap}

pub record LinkData : Type 0 where
  pub code : Bytes
  pub destination : Bytes
  -- "url" or "file"
  pub kind : Bytes
  pub created : ℕ

pub record ClickStats : Type 0 where
  pub total_clicks : ℕ
  pub daily_clicks : StrMap ℕ
  pub last_accessed : ℕ

pub record ClickRecord : Type 0 where
  pub code : Bytes
  pub ip_truncated : Bytes
  pub user_agent : Bytes
  pub referrer : Bytes
  pub timestamp : ℕ
