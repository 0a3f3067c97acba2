-- ===== src/Decimal.antt =====
-- `decimal.Decimal`, without a sign and without the rounding to 28 digits.
use model_route.Base.{ℕ, ◌+◌, ◌-◌, ◌*◌, ◌^◌, max}
use model_route.Runtime.{Decimal}

-- `Decimal(n)`
unfoldable pub of_nat : ℕ → Decimal
of_nat n = record { coefficient = n; scale = 0 }

-- The coefficient at a scale that is not smaller.
unfoldable pub at_scale : ℕ → Decimal → ℕ
at_scale s d = d.coefficient * 10 ^ (s - d.scale)

unfoldable pub add : Decimal → Decimal → Decimal
unfolding at_scale
add a b =
    let s = max a.scale b.scale in record { coefficient = at_scale s a + at_scale s b; scale = s }

unfoldable pub mul : Decimal → Decimal → Decimal
mul a b = record { coefficient = a.coefficient * b.coefficient; scale = a.scale + b.scale }

-- `d / Decimal(1_000_000)`
unfoldable pub per_million : Decimal → Decimal
per_million d = record d { scale = d.scale + 6 }
