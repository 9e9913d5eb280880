-- ===== src/Models/Cost.antt =====
-- models/cost.ts: the cost of a call in micro-USD, from token counts and a price table.
pub mod Rounding
use mr_robot.Common.{ℕ, ◌+◌, ◌*◌, ◌/◌, Bool, true, false, ◌&&◌, Option, none, some}
use mr_robot.Models.Usage.{NormalUsage, billable_input_tokens}

pub record Prices : Type 0 where
  pub input : ℕ
  pub output : ℕ
  pub cache_write_5m : Option ℕ
  pub cache_write_1h : Option ℕ
  pub cache_read : Option ℕ

pub data CostSource : Type 0 where
  table provider : CostSource

pub record CostResult : Type 0 where
  pub cost_micro_usd : ℕ
  pub cost_source : CostSource
  pub billable_input_tokens : ℕ

-- `price ?? plain`
unfoldable pub price_or : Option ℕ → ℕ → ℕ
price_or none plain = plain
price_or (some p) plain = p

unfoldable pub numerator : NormalUsage → Prices → ℕ
numerator u p =
    u.input_tokens * p.input
    + u.cache_write_5m_tokens * price_or p.cache_write_5m p.input
    + u.cache_write_1h_tokens * price_or p.cache_write_1h p.input
    + u.cache_read_tokens * price_or p.cache_read p.input
    + u.output_tokens * p.output

-- `Math.ceil(n / PER_MTOK)`
unfoldable pub ceil_mtok : ℕ → ℕ
ceil_mtok n = (n + 999999) / 1000000

unfoldable pub compute_cost : NormalUsage → Prices → ℕ
compute_cost u p = ceil_mtok (numerator u p)

-- `reports` is the card's `pricing.source === 'usage.cost'`.
unfoldable pub cost_for_card : NormalUsage → Bool → Prices → CostResult
cost_for_card u false prices = record {
  cost_micro_usd = compute_cost u prices;
  cost_source = table;
  billable_input_tokens = billable_input_tokens u;
}
cost_for_card u true prices = elim u.reported_cost [
  | some cost ↦ record {
    cost_micro_usd = cost;
    cost_source = provider;
    billable_input_tokens = billable_input_tokens u;
  }
  | none ↦ record {
    cost_micro_usd = compute_cost u prices;
    cost_source = table;
    billable_input_tokens = billable_input_tokens u;
  }
]
