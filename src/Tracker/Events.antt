-- ===== src/Tracker/Events.antt =====
-- Events and calls of language models: src/db/tracker-events.ts and src/db/tracker-llm-calls.ts. The
-- rows stand in the order of their row numbers.
pub mod Latest
use nano_symphony.Common.{
  ℕ, suc, ◌+◌, String, Bool, ◌&&◌, Option, none, some, List, [], ◌∷◌, ◌++◌, ◌==◌, ltb, leb,
  if◌then◌else◌, get_or, keep, sort_by,
}
use nano_symphony.Json.{Json}
use nano_symphony.Tracker.Types.{Event, LlmCall, Database, BusMessage, emit}

unfoldable pub record_event :
    String → ℕ → String → String → String → Option Json → Database → Database
record_event id now issue_uuid kind message payload d =
    let e : Event = record {
      id = id;
      issue_uuid = issue_uuid;
      ts = now;
      kind = kind;
      message = message;
      payload_json = payload;
    } in
    emit (BusMessage.event e) (record d { events = d.events ++ e ∷ [] })

unfoldable pub get_events : Option ℕ → Database → List Event
get_events none d = sort_by (λ e. e.ts) d.events
get_events (some since) d = sort_by (λ e. e.ts) (keep (λ e. ltb since e.ts) d.events)

abbrev pub is_of : String → String → Event → Bool
is_of issue_uuid kind e = e.issue_uuid == issue_uuid && e.kind == kind

-- the row with the last time, and of those with one time the last
unfoldable pub later : Option Event → Event → Option Event
later none e = some e
later (some best) e = if leb best.ts e.ts then some e else some best

unfoldable pub latest_from : Option Event → List Event → Option Event
unfolding later
latest_from best [] = best
latest_from best (e ∷ es) = latest_from (later best e) es

unfoldable pub get_latest_event_by_kind : String → String → Database → Option Event
get_latest_event_by_kind issue_uuid kind d =
    latest_from none (keep (is_of issue_uuid kind) d.events)

unfoldable pub get_events_by_kind : String → String → Database → List Event
get_events_by_kind issue_uuid kind d = sort_by (λ e. e.ts) (keep (is_of issue_uuid kind) d.events)

unfoldable pub record_llm_call : LlmCall → Database → Database
record_llm_call c d = record d { llm_calls = d.llm_calls ++ c ∷ [] }

pub record LlmCallSummary : Type 0 where
  pub input_tokens : ℕ
  pub output_tokens : ℕ
  pub cost_usd : ℕ
  pub duration_ms : ℕ
  pub call_count : ℕ

abbrev add_call : LlmCall → LlmCallSummary → LlmCallSummary
add_call c s = record {
  input_tokens = c.input_tokens + s.input_tokens;
  output_tokens = c.output_tokens + s.output_tokens;
  cost_usd = get_or c.cost_usd 0 + s.cost_usd;
  duration_ms = get_or c.duration_ms 0 + s.duration_ms;
  call_count = suc s.call_count;
}

unfoldable pub summarise : List LlmCall → LlmCallSummary
summarise [] = record {
  input_tokens = 0;
  output_tokens = 0;
  cost_usd = 0;
  duration_ms = 0;
  call_count = 0;
}
summarise (c ∷ cs) = add_call c (summarise cs)

abbrev pub is_call_of : String → LlmCall → Bool
is_call_of issue_uuid c = c.issue_uuid == issue_uuid

unfoldable pub get_llm_call_summary : String → Database → LlmCallSummary
get_llm_call_summary issue_uuid d = summarise (keep (is_call_of issue_uuid) d.llm_calls)
