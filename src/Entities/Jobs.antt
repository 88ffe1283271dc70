-- ===== src/Entities/Jobs.antt =====
-- What the services put on the Bull queues.
use nestjs_ex.Entities.Fees.{Fee}
use nestjs_ex.Entities.Status.{ChatJobName, SocketType}
use nestjs_ex.Prelude.{List, Option, String, ℕ}

-- The job that `ChatHelperService.sendChatQueueData` adds to the CHAT queue.
pub record ChatJob : Type 0 where
  pub kind : ChatJobName
  pub network_id : ℕ
  pub from_wallet_id : ℕ
  pub chat_room_id : ℕ
  pub fee_amount : Fee
  pub to_addresses : List String
  pub message_id : ℕ
  pub content : String
  -- `none` for the number 0
  pub token_amount : Option String
  pub token_decimal : ℕ

-- The job that `sendTokenTransaction` adds to the WALLET queue.
pub record WalletJob : Type 0 where
  pub transaction_id : ℕ
  pub token_id : ℕ
  pub fee_amount : Fee
  pub fee_symbol : Option String
  pub amount : String
  pub token_decimal : ℕ

-- The argument of `addNotificationToQueue`.
pub record Notification : Type 0 where
  pub user_id : ℕ
  pub kind : SocketType
  pub room_id : ℕ
  pub action : ChatJobName
  pub message_id : Option ℕ
  pub title : Option String
  pub body : String

-- The job that `addToUploadFileQueue` adds to the ENCRYPT_FILE queue.
pub record UploadJob : Type 0 where
  pub message_id : ℕ
  pub chat_room_id : ℕ
  pub file_id : ℕ
  pub user_id : ℕ
  pub network_id : ℕ
  pub from_wallet_id : ℕ
  pub fee_amount : Fee
  pub message_job : ChatJobName
  pub to_wallet_addresses : List String
