-- ===== src/Worker/Env.antt =====
-- What the writes of one transaction take from outside: the clock, which they read within one
-- millisecond; nanoid's ids, one for each event; Math.random; and toFixed(4).
use nano_symphony.Common.{ℕ, String, Option, length}
use nano_symphony.Json.{Json}
use nano_symphony.Tracker.Types.{Database}
use nano_symphony.Tracker.Events.{record_event}
use nano_symphony.Backoff.{Doubles}

pub record Env : Type 0 where
  pub now : ℕ
  pub fresh_id : ℕ → String
  pub doubles : Doubles
  pub random : ℕ
  pub show_usd : ℕ → String

-- `tracker.recordEvent`
unfoldable pub log_event : Env → String → String → String → Option Json → Database → Database
log_event env u kind message payload d =
    record_event (env.fresh_id (length d.events)) env.now u kind message payload d
