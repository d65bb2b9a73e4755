-- ===== src/Usage/Pricing.antt =====
-- internal/usage/pricing.go: the cost of a request. The amounts that the code keeps as float64 are
-- exact here: rates in units of 10^-9 dollars for a million tokens, so that tokens times rate is in
-- units of 10^-15 dollars, and costs in units of 10^-8 dollars.
use ollama_gateway.Common.{
  ℕ, ◌+◌, ◌*◌, ◌/◌, ◌≤◌, Text, Option, none, some, List, [], ◌∷◌, length, arith, if◌then◌else◌,
}
use ollama_gateway.Common.Int.{ℤ, pos, pos_part, neg_part, sub_ℕ, ◌+ℤ◌, +ℤ_parts, is_zero}
use ollama_gateway.Common.Table.{Table, lookup}

pub record ModelPricing : Type 0 where
  pub input_cost : ℤ
  pub output_cost : ℤ

pub record PricingConfig : Type 0 where
  pub default_input : ℤ
  pub default_output : ℤ
  pub model_pricing : Table ModelPricing

-- A model that the table has not is priced as zero.
abbrev pub price_of : Option ModelPricing → ModelPricing
price_of none = record { input_cost = pos 0; output_cost = pos 0 }
price_of (some p) = p

abbrev or_default : ℤ → ℤ → ℤ
or_default d rate = if is_zero rate then d else rate

unfoldable pub rates : PricingConfig → Text → ModelPricing
rates c model =
    let p = price_of (lookup model c.model_pricing) in
    record {
      input_cost = or_default c.default_input p.input_cost;
      output_cost = or_default c.default_output p.output_cost;
    }

-- a times b
infixl 70 ◌*ℤ◌
unfoldable pub ◌*ℤ◌ : ℤ → ℤ → ℤ
a *ℤ b =
    sub_ℕ (pos_part a * pos_part b + neg_part a * neg_part b)
      (pos_part a * neg_part b + neg_part a * pos_part b)

-- `math.Round` of an amount in units of 10^-15 dollars, to units of 10^-8: halves go away from zero.
unfoldable pub round : ℤ → ℤ
round amount =
    sub_ℕ ((pos_part amount + 5000000) / 10000000) ((neg_part amount + 5000000) / 10000000)

-- The cost before it is rounded.
unfoldable pub exact_cost : PricingConfig → Text → ℤ → ℤ → ℤ
unfolding rates ◌*ℤ◌
exact_cost c model prompt completion =
    let r = rates c model in prompt *ℤ r.input_cost +ℤ completion *ℤ r.output_cost

-- `CalculateCost`
unfoldable pub calculate_cost : PricingConfig → Text → ℤ → ℤ → ℤ
unfolding round exact_cost
calculate_cost c model prompt completion = round (exact_cost c model prompt completion)

round_bounds :
    (a : ℤ)
    → (pos_part (round a) * 10000000 + neg_part a
        ≤ pos_part a + neg_part (round a) * 10000000 + 5000000)
      × (pos_part a + neg_part (round a) * 10000000
          ≤ pos_part (round a) * 10000000 + neg_part a + 5000000)
unfolding round
round_bounds a = ground arith

-- A request by its model and its tokens.
abbrev pub Billed : Type 0
Billed = Text × ℤ × ℤ

-- The sum that a table of usage records gives, and the same without rounding.
unfoldable pub total_cost : PricingConfig → List Billed → ℤ
unfolding calculate_cost
total_cost c [] = pos 0
total_cost c ((model, prompt, completion) ∷ rs) =
    calculate_cost c model prompt completion +ℤ total_cost c rs

unfoldable pub exact_total : PricingConfig → List Billed → ℤ
exact_total c [] = pos 0
exact_total c ((model, prompt, completion) ∷ rs) =
    exact_cost c model prompt completion +ℤ exact_total c rs

-- A total of costs is within so many units of 10^-15 dollars of an exact total.
abbrev pub Within : ℕ → ℤ → ℤ → Type 0
Within d cost exact =
    (pos_part cost * 10000000 + neg_part exact ≤ pos_part exact + neg_part cost * 10000000 + d)
    × (pos_part exact + neg_part cost * 10000000 ≤ pos_part cost * 10000000 + neg_part exact + d)

-- The costs of any requests add up to what their tokens cost exactly, but for half a unit of 10^-8
-- dollars at most for each request.
pub total_cost-Within :
    (c : PricingConfig) (rs : List Billed)
    → Within (length rs * 5000000) (total_cost c rs) (exact_total c rs)
unfolding total_cost exact_total calculate_cost
total_cost-Within c [] = omega arith
total_cost-Within c ((model, prompt, completion) ∷ rs) =
    let e = exact_cost c model prompt completion in
    omega (
      arith,
      round_bounds e,
      total_cost-Within c rs,
      +ℤ_parts (round e) (total_cost c rs),
      +ℤ_parts e (exact_total c rs),
    )
