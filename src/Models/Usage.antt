-- ===== src/Models/Usage.antt =====
-- models/usage.ts: the token counts of two dialects, in one form. The zod schemas are the records; a key
-- that is null or absent is `none`. The provider's cost is in micro-USD, rounded up, as cost.ts reads it.
use mr_robot.Common.{ℕ, ◌+◌, ◌-◌, ◌||◌, Option, none, some, is_some, if◌then◌else◌}

pub record NormalUsage : Type 0 where
  pub input_tokens : ℕ
  pub output_tokens : ℕ
  pub cache_write_5m_tokens : ℕ
  pub cache_write_1h_tokens : ℕ
  pub cache_read_tokens : ℕ
  pub reported_cost : Option ℕ

pub record CacheCreation : Type 0 where
  pub ephemeral_5m_input_tokens : Option ℕ
  pub ephemeral_1h_input_tokens : Option ℕ

pub record AnthropicUsage : Type 0 where
  pub input_tokens : ℕ
  pub output_tokens : ℕ
  pub cache_creation_input_tokens : Option ℕ
  pub cache_read_input_tokens : Option ℕ
  pub cache_creation : Option CacheCreation

pub record ChatUsage : Type 0 where
  pub prompt_tokens : ℕ
  pub completion_tokens : ℕ
  -- `prompt_tokens_details?.cached_tokens`
  pub cached_tokens : Option ℕ
  pub cost : Option ℕ

unfoldable pub or_zero : Option ℕ → ℕ
or_zero none = 0
or_zero (some n) = n

unfoldable pub write_5m : Option CacheCreation → Option ℕ
write_5m none = none
write_5m (some c) = c.ephemeral_5m_input_tokens

unfoldable pub write_1h : Option CacheCreation → Option ℕ
write_1h none = none
write_1h (some c) = c.ephemeral_1h_input_tokens

unfoldable pub normalise_anthropic_usage : AnthropicUsage → NormalUsage
normalise_anthropic_usage u =
    let w5 = write_5m u.cache_creation in
    let w1 = write_1h u.cache_creation in
    let has = is_some w5 || is_some w1 in
    record {
      input_tokens = u.input_tokens;
      output_tokens = u.output_tokens;
      cache_write_5m_tokens = if has then or_zero w5 else or_zero u.cache_creation_input_tokens;
      cache_write_1h_tokens = if has then or_zero w1 else 0;
      cache_read_tokens = or_zero u.cache_read_input_tokens;
      reported_cost = none;
    }

-- The subtraction stops at 0, as `Math.max(0, …)` does.
unfoldable pub normalise_chat_usage : ChatUsage → NormalUsage
normalise_chat_usage u = record {
  input_tokens = u.prompt_tokens - or_zero u.cached_tokens;
  output_tokens = u.completion_tokens;
  cache_write_5m_tokens = 0;
  cache_write_1h_tokens = 0;
  cache_read_tokens = or_zero u.cached_tokens;
  reported_cost = u.cost;
}

unfoldable pub billable_input_tokens : NormalUsage → ℕ
billable_input_tokens u =
    u.input_tokens + u.cache_write_5m_tokens + u.cache_write_1h_tokens + u.cache_read_tokens
