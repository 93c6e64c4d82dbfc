-- ===== src/Toss/Caching.antt =====
-- The cache of candles (server/app/toss/caching.py). The repository is a dictionary from a symbol
-- and an interval to the time of the call and its answer; `fetch` is the broker's `get_candles`,
-- where `none` stands for an exception. Times are in microseconds.
use Prim.Native.Nat.{◌-◌}
use auto_trade_stock_demo.Prelude.{
  ℕ, String, Option, none, some, List, ltb, Dict, lookup, insert, lookup-insert, ◌≡◌, ◌<◌, ◌≤◌,
  arith, eq_iff, if◌then◌else◌,
}
use auto_trade_stock_demo.Toss.{Candle}

-- The repository's `get_cached_candles` and `save_cached_candles`, for one interval.
abbrev pub CandleCache : Type 0 → Type 0
CandleCache D = Dict (ℕ × List (Candle D))

module _ {D : Type 0} where
  abbrev fetched :
      CandleCache D
      → String
      → ℕ
      → Option (List (Candle D))
      → CandleCache D × Option (List (Candle D))
  fetched repo symbol now none = (repo, none)
  fetched repo symbol now (some candles) = (insert symbol (now, candles) repo, some candles)

  -- The answer of the cache, if it is younger than `ttl`, or else that of the broker.
  abbrev cached_or :
      CandleCache D
      → String
      → ℕ
      → ℕ
      → Option (ℕ × List (Candle D))
      → Option (List (Candle D))
      → CandleCache D × Option (List (Candle D))
  cached_or repo symbol ttl now none answer = fetched repo symbol now answer
  cached_or repo symbol ttl now (some (fetched_at, payload)) answer =
      if ltb (now - fetched_at) ttl then (repo, some payload) else fetched repo symbol now answer

  -- `get_candles`, for the answer that the broker would give.
  unfoldable pub get_candles :
      CandleCache D
      → String
      → ℕ
      → ℕ
      → Option (List (Candle D))
      → CandleCache D × Option (List (Candle D))
  get_candles repo symbol ttl now answer = cached_or repo symbol ttl now (lookup symbol repo) answer

  -- For a symbol that is not cached, the answer of the broker is given again until it is as
  -- old as the time to live, whatever the broker would answer then, and from that age on the
  -- answer of the broker; an exception of the broker leaves the cache alone.
  pub get_candles_fresh :
      (repo : CandleCache D) (symbol : String) (ttl now later : ℕ) (candles : List (Candle D))
      (answer : Option (List (Candle D)))
      → lookup symbol repo ≡ none
      → (later - now < ttl
          → (get_candles
              (get_candles repo symbol ttl now (some candles)).0
              symbol
              ttl
              later
              answer).1
            ≡ some candles)
        × (ttl ≤ later - now
            → (get_candles
                (get_candles repo symbol ttl now (some candles)).0
                symbol
                ttl
                later
                answer).1
              ≡ answer)
        × ((get_candles repo symbol ttl now none).0 ≡ repo)
  unfolding get_candles
  get_candles_fresh repo symbol ttl now later candles answer h =
      ground (arith, lookup-insert symbol symbol (now, candles) repo, eq_iff symbol symbol)
