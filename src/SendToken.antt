-- ===== src/SendToken.antt =====
-- src/transaction/services/transaction.service.ts, lines 334 to 437: sending a token outside of a room.
pub mod Sent
use nestjs_ex.ChatHelper.{input_decimal}
use nestjs_ex.Entities.{
  Fee, Transaction, TransactionStatus, TransactionType, UserToken, UserWallet, WalletJob,
}
use nestjs_ex.Network.{
  fee_amount, get_by_id, get_network_fee_by_level, get_network_fee_symbol, is_shared_networks,
}
use nestjs_ex.Prelude.{Option, String, [], none, some, ℕ, ◌++◌, ◌∷◌}
use nestjs_ex.RedPacket.{find_user_wallet_by_address_and_user_id, get_token_by_id, save_transaction}
use nestjs_ex.UserContacts.{is_valid_address}
use nestjs_ex.World.{
  Env, Exec, address_not_valid, gets, guard, modify, need, network_not_shared, pure,
  wallet_not_found, ◌>>=◌, ◌>>◌,
}

-- `SendTokenInput`
pub record SendTokenInput : Type 0 where
  pub network_id : ℕ
  pub amount : String
  pub from_address : String
  pub to_address : String
  pub fee_level : String
  pub token_id : ℕ

abbrev pub withdrawal : SendTokenInput → ℕ → UserWallet → UserToken → Env → ℕ → Transaction
withdrawal input user_id wallet token env id = record {
  id = id;
  kind = TransactionType.withdraw;
  user_id = user_id;
  user_wallet_id = wallet.id;
  network_id = input.network_id;
  tx_hash = none;
  blockchain_tx_id = none;
  from_address = input.from_address;
  to_address = input.to_address;
  token_symbol = some token.token_symbol;
  token_address = some token.token_address;
  fee_level = some input.fee_level;
  amount = env.raw_amount input.amount token.token_decimal;
  memo_code = none;
  transaction_status = TransactionStatus.pending;
  created_at = env.now;
  updated_at = env.now;
}

-- The job for `walletQueue.add`
abbrev pub wallet_job : SendTokenInput → UserToken → Fee → Option String → ℕ → WalletJob
wallet_job input token fee symbol transaction_id = record {
  transaction_id = transaction_id;
  token_id = input.token_id;
  fee_amount = fee;
  fee_symbol = symbol;
  amount = input.amount;
  token_decimal = input_decimal (some token.token_decimal);
}

-- The wallet from which the caller may send.
unfoldable pub check_send_token : ℕ → SendTokenInput → Exec UserWallet
check_send_token user_id input = do
  found ← gets (find_user_wallet_by_address_and_user_id input.from_address user_id)
  wallet ← need found wallet_not_found
  get_by_id input.network_id
  get_by_id wallet.network_id
  can_send ← is_shared_networks wallet.network_id input.network_id
  guard can_send network_not_shared
  is_address ← gets (is_valid_address input.to_address)
  guard is_address address_not_valid
  pure wallet

-- `sendTokenTransaction`; its answer shows the row with the amount of the request.
unfoldable pub send_token_transaction : ℕ → SendTokenInput → Exec Transaction
send_token_transaction user_id input = do
  wallet ← check_send_token user_id input
  token ← get_token_by_id input.token_id
  fee ← get_network_fee_by_level input.network_id input.fee_level
  symbol ← get_network_fee_symbol input.network_id
  env ← gets (λ w. w.env)
  paid ← save_transaction (withdrawal input user_id wallet token env)
  modify (λ w. record w {
    wallet_queue = w.wallet_queue ++ wallet_job input token fee symbol paid.id ∷ [];
  })
  pure (record paid { amount = input.amount })
