-- ===== src/Tests/Pricing.antt =====
-- The theorem on the price table, at one model with a date in its name.

use zkapi_ef_collab.Server.Pricing.{PriceFloats, openai_prices, openai_price, trim}
use zkapi_ef_collab.Server.PriceLaws.{IsPriced, openai_price-IsPriced}

abbrev floats : PriceFloats
floats = record {
  hundredths = λ n. n;
  over_million = λ x. x;
  from_u64 = λ n. n;
  times = λ x y. x;
  plus = λ x y. x;
}

openai_price-IsPriced_example :
    IsPriced
      (trim "gpt-4o-mini-2024-07-18")
      (openai_prices floats)
      (openai_price floats "gpt-4o-mini-2024-07-18")
openai_price-IsPriced_example = openai_price-IsPriced floats "gpt-4o-mini-2024-07-18"
