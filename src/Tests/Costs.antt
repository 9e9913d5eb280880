-- ===== src/Tests/Costs.antt =====
-- Costs at a concrete call.
use mr_robot.Common.{◌+◌, ◌*◌, ◌≤◌, ◌<◌, none, some, arith}
use mr_robot.Models.Usage.{NormalUsage, ChatUsage, or_zero, normalise_chat_usage}
use mr_robot.Models.Cost.{Prices, compute_cost}
use mr_robot.Models.Cost.Rounding.{worth, cost_never_underbills, both, rounding_per_call}

abbrev prompt : ChatUsage
prompt = record {
  prompt_tokens = 120;
  completion_tokens = 7;
  cached_tokens = some 100;
  cost = none;
}

abbrev usage : NormalUsage
usage = normalise_chat_usage prompt

abbrev prices : Prices
prices = record {
  input = 3000001;
  output = 15000000;
  cache_write_5m = none;
  cache_write_1h = none;
  cache_read = some 300000;
}

cost_never_underbills_example :
    (worth usage prices ≤ compute_cost usage prices * 1000000)
    × (compute_cost usage prices * 1000000 < worth usage prices + 1000000)
cost_never_underbills_example = cost_never_underbills usage prices

rounding_per_call_example :
    (compute_cost (both usage usage) prices ≤ compute_cost usage prices + compute_cost usage prices)
    × (compute_cost usage prices + compute_cost usage prices
        ≤ compute_cost (both usage usage) prices + 1)
rounding_per_call_example = rounding_per_call usage usage prices

cached_are_prompt : or_zero prompt.cached_tokens ≤ prompt.prompt_tokens
unfolding or_zero
cached_are_prompt = omega arith
