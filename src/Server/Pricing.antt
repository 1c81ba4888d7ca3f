-- ===== src/Server/Pricing.antt =====
-- zkapi-serverd/src/pricing.rs: the price table of the OpenAI models and its lookup. A float is its
-- bit pattern, and the operations on floats are parameters; the conversions to credits are in
-- Server.Lease.

use Prim.Native.Char.{Char, code}
use Prim.Native.String.{len}
use text.Mathlib.Text.{starts_with}
use zkapi_ef_collab.Base.{
  ℕ, String, List, [], ◌∷◌, Bool, true, false, ◌&&◌, Option, none, some, ltb, if◌then◌else◌,
}
use zkapi_ef_collab.Indexer.Poller.Text.{is_whitespace}

-- The f64 operations of the table. A literal is a number of hundredths.
pub record PriceFloats : Type 0 where
  pub hundredths : ℕ → ℕ
  pub over_million : ℕ → ℕ
  pub from_u64 : ℕ → ℕ
  pub times : ℕ → ℕ → ℕ
  pub plus : ℕ → ℕ → ℕ

pub record ModelPrice : Type 0 where
  pub prompt_usd_per_token : ℕ
  pub completion_usd_per_token : ℕ

-- `str::trim`
unfoldable pub trim_start : String → String
trim_start String.[] = String.[]
trim_start (String.◌∷◌ c rest) =
    let trimmed = trim_start rest in if is_whitespace (code c) then trimmed else String.◌∷◌ c rest

abbrev trimmed_end : Char → String → String
trimmed_end c String.[] = if is_whitespace (code c) then String.[] else String.◌∷◌ c String.[]
trimmed_end c (String.◌∷◌ d rest) = String.◌∷◌ c (String.◌∷◌ d rest)

unfoldable pub trim_end : String → String
trim_end String.[] = String.[]
trim_end (String.◌∷◌ c rest) = trimmed_end c (trim_end rest)

abbrev pub trim : String → String
trim s = trim_end (trim_start s)

abbrev pub Entry : Type 0
Entry = String × ModelPrice

-- `best.map(|(b, _)| id.len() > b.len()).unwrap_or(true)`
abbrev pub is_longer : String → Option Entry → Bool
is_longer id none = true
is_longer id (some best) = ltb (len best.0) (len id)

-- The loop of `openai_price`.
unfoldable pub longest_match : String → List Entry → Option Entry → Option Entry
longest_match model [] best = best
longest_match model ((id, price) ∷ rest) best =
    longest_match model rest
      (if starts_with model id && is_longer id best then some (id, price) else best)

module _ (floats : PriceFloats) where
  open floats use {hundredths, over_million, from_u64, times, plus}

  abbrev pub per_million : ℕ → ℕ → ModelPrice
  per_million prompt completion = record {
    prompt_usd_per_token = over_million (hundredths prompt);
    completion_usd_per_token = over_million (hundredths completion);
  }

  unfoldable pub cost_usd : ModelPrice → ℕ → ℕ → ℕ
  cost_usd price prompt_tokens completion_tokens =
      plus (times (from_u64 prompt_tokens) price.prompt_usd_per_token)
        (times (from_u64 completion_tokens) price.completion_usd_per_token)

  abbrev pub openai_prices : List Entry
  openai_prices =
      ("gpt-4o-mini", per_million 15 60)
      ∷ ("gpt-4o", per_million 250 1000)
      ∷ ("gpt-4.1-nano", per_million 10 40)
      ∷ ("gpt-4.1-mini", per_million 40 160)
      ∷ ("gpt-4.1", per_million 200 800)
      ∷ ("gpt-4-turbo", per_million 1000 3000)
      ∷ ("gpt-4", per_million 3000 6000)
      ∷ ("gpt-3.5-turbo", per_million 50 150)
      ∷ ("o4-mini", per_million 110 440)
      ∷ ("o3-mini", per_million 110 440)
      ∷ ("o3", per_million 200 800)
      ∷ ("o1-mini", per_million 110 440)
      ∷ ("o1", per_million 1500 6000)
      ∷ []

  abbrev pub fallback_price : ModelPrice
  fallback_price = per_million 15 60

  abbrev pub priced : Option Entry → ModelPrice × Bool
  priced none = (fallback_price, false)
  priced (some best) = (best.1, true)

  unfoldable pub openai_price : String → ModelPrice × Bool
  openai_price model = priced (longest_match (trim model) openai_prices none)

  unfoldable pub openai_cost_usd : String → ℕ → ℕ → ℕ × Bool
  openai_cost_usd model prompt_tokens completion_tokens =
      let found = openai_price model in (cost_usd found.0 prompt_tokens completion_tokens, found.1)
