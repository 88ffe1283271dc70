-- ===== src/Entities/Fees.antt =====
-- src/jobs/services/network-fee.service.ts: the fees of a network as the process reads and keeps them.
use nestjs_ex.Prelude.{Option, String}

-- A fee: the number 0, `DEFAULT_GAS_PRICE.eurus`, or the text that the gas tracker gave.
pub data Fee : Type 0 where
  free eurus_price : Fee
  quoted : String → Fee

-- `NetworkFeesOutput`, with `none` for a level that is `undefined`.
pub record NetworkFees : Type 0 where
  pub fast : Option Fee
  pub medium : Option Fee
  pub slow : Option Fee

-- `response?.data?.result` of a gas tracker: `undefined` or `null`, another value that counts as false, or
-- a value with the three properties that are read.
pub data GasResult : Type 0 where
  absent falsy : GasResult
  gas : Option String → Option String → Option String → GasResult
