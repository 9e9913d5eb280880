-- ===== src/Models/Cost/Rounding.antt =====
-- Costs are rounded up once: models/cost.ts and usage.ts.
use mr_robot.Common.{ℕ, ◌+◌, ◌*◌, ◌≤◌, ◌<◌, ◌≡◌, refl, sym, Option, none, some, get_or, arith}
use mr_robot.Models.Usage.{
  NormalUsage, ChatUsage, or_zero, normalise_chat_usage, billable_input_tokens,
}
use mr_robot.Models.Cost.{Prices, price_or, numerator, ceil_mtok, compute_cost}

-- What the tokens are worth in millionths of a micro-USD: each kind of token at its own price, and cached
-- tokens that have no price of their own at the price of input.
abbrev pub worth : NormalUsage → Prices → ℕ
worth u p =
    u.output_tokens * p.output
    + u.input_tokens * p.input
    + u.cache_read_tokens * get_or p.cache_read p.input
    + u.cache_write_5m_tokens * get_or p.cache_write_5m p.input
    + u.cache_write_1h_tokens * get_or p.cache_write_1h p.input

price_or-get_or : (o : Option ℕ) (plain : ℕ) → price_or o plain ≡ get_or o plain
unfolding price_or
price_or-get_or none plain = refl
price_or-get_or (some p) plain = refl

numerator-worth : (u : NormalUsage) (p : Prices) → numerator u p ≡ worth u p
unfolding numerator
numerator-worth u p =
    rw
      (
        price_or-get_or p.cache_write_5m p.input,
        price_or-get_or p.cache_write_1h p.input,
        price_or-get_or p.cache_read p.input,
      )
      (omega arith)

-- A cost covers its tokens: a million times it is at least the sum, over input, output and the three kinds of
-- cached tokens, of tokens times the price for a million of them, and more by less than a million, where a
-- kind of cached token without a price has the price of input.
pub cost_never_underbills :
    (u : NormalUsage) (p : Prices)
    → (worth u p ≤ compute_cost u p * 1000000) × (compute_cost u p * 1000000 < worth u p + 1000000)
unfolding compute_cost ceil_mtok
cost_never_underbills u p = rw (sym (numerator-worth u p)) (omega arith, omega arith)

-- The usage of two calls taken together.
abbrev pub both : NormalUsage → NormalUsage → NormalUsage
both u v = record {
  input_tokens = u.input_tokens + v.input_tokens;
  output_tokens = u.output_tokens + v.output_tokens;
  cache_write_5m_tokens = u.cache_write_5m_tokens + v.cache_write_5m_tokens;
  cache_write_1h_tokens = u.cache_write_1h_tokens + v.cache_write_1h_tokens;
  cache_read_tokens = u.cache_read_tokens + v.cache_read_tokens;
  reported_cost = none;
}

numerator-both :
    (u v : NormalUsage) (p : Prices) → numerator (both u v) p ≡ numerator u p + numerator v p
unfolding numerator
numerator-both u v p = omega arith

-- Two calls billed apart cost as much as one call with the tokens of both, or one micro-USD more: rounding
-- each call up loses nothing to the budget and little to the operator.
pub rounding_per_call :
    (u v : NormalUsage) (p : Prices)
    → (compute_cost (both u v) p ≤ compute_cost u p + compute_cost v p)
      × (compute_cost u p + compute_cost v p ≤ compute_cost (both u v) p + 1)
unfolding compute_cost ceil_mtok
rounding_per_call u v p = (omega (arith, numerator-both u v p), omega (arith, numerator-both u v p))

-- Cached tokens of the chat dialect are inside its prompt tokens: if there are no more of them than of
-- those, what is billed as input is the prompt tokens, each counted once.
pub chat_bills_prompt_once :
    (u : ChatUsage)
    → or_zero u.cached_tokens ≤ u.prompt_tokens
    → billable_input_tokens (normalise_chat_usage u) ≡ u.prompt_tokens
unfolding billable_input_tokens normalise_chat_usage
chat_bills_prompt_once u le = omega arith
