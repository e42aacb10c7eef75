-- ===== src/Domain/Names.antt =====
-- src/elm/Types.cpp: the names by which the enumerations are printed in executions and replies.
use Prim.Native.String.{String}
use swirlyc.Domain.{AssetType, Direct, RecType, Role, Side, State}

unfoldable pub asset_type_string : AssetType → String
asset_type_string AssetType.commodity = "COMMODITY"
asset_type_string AssetType.corporate = "CORPORATE"
asset_type_string AssetType.currency = "CURRENCY"
asset_type_string AssetType.equity = "EQUITY"
asset_type_string AssetType.government = "GOVERNMENT"
asset_type_string AssetType.index = "INDEX"

unfoldable pub direct_string : Direct → String
direct_string Direct.paid = "PAID"
direct_string Direct.given = "GIVEN"

unfoldable pub rec_type_string : RecType → String
rec_type_string RecType.asset = "ASSET"
rec_type_string RecType.contr = "CONTR"
rec_type_string RecType.market = "MARKET"
rec_type_string RecType.trader = "TRADER"

unfoldable pub role_string : Role → String
role_string Role.none = "NONE"
role_string Role.maker = "MAKER"
role_string Role.taker = "TAKER"

unfoldable pub side_string : Side → String
side_string Side.buy = "BUY"
side_string Side.sell = "SELL"

unfoldable pub state_string : State → String
state_string State.none = "NONE"
state_string State.new = "NEW"
state_string State.revise = "REVISE"
state_string State.cancel = "CANCEL"
state_string State.trade = "TRADE"
