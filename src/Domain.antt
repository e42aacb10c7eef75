-- ===== src/Domain.antt =====
-- include/swirly/elm/Types.hpp, src/elm/Types.cpp and the exact part of include/swirly/elm/Conv.hpp:
-- the enumerations, the units and the cost of a trade. `Lots`, `Ticks` and `Cost` wrap `int64_t`;
-- they are integers here, so a result past 64 bits (undefined in C++) is a larger integer.
use swirlyc.Common.{ℕ, ℤ, pos, ◌-ℤ◌, ◌*ℤ◌, ◌≡◌, int_laws, parts_of_eq}
pub mod Names

abbrev pub Lots : Type 0
Lots = ℤ

abbrev pub Ticks : Type 0
Ticks = ℤ

abbrev pub Cost : Type 0
Cost = ℤ

-- Identifiers start at 1, days and times at 0; 0 stands for "not set".
abbrev pub Iden : Type 0
Iden = ℕ

abbrev pub Jday : Type 0
Jday = ℕ

abbrev pub Millis : Type 0
Millis = ℕ

pub data AssetType : Type 0 where
  commodity corporate currency equity government index : AssetType

pub data Direct : Type 0 where
  paid given : Direct

pub data RecType : Type 0 where
  asset contr market trader : RecType

pub data Role : Type 0 where
  none maker taker : Role

pub data Side : Type 0 where
  buy sell : Side

pub data State : Type 0 where
  none new revise cancel trade : State

-- The key of a price level: the best price of either side has the least key.
unfoldable pub compose_key : Side → Ticks → ℤ
compose_key Side.buy ticks = pos 0 -ℤ ticks
compose_key Side.sell ticks = ticks

unfoldable pub cost : Lots → Ticks → Cost
cost lots ticks = lots *ℤ ticks

pub compose_key-injective :
    (side : Side) (s t : Ticks) → compose_key side s ≡ compose_key side t → s ≡ t
unfolding compose_key
compose_key-injective Side.buy s t e = omega (int_laws, parts_of_eq _ _ e)
compose_key-injective Side.sell s t e = e
