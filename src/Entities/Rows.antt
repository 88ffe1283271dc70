-- ===== src/Entities/Rows.antt =====
-- The entities: one record for each table, with the columns that the modelled code reads or writes.
-- A nullable column is an `Option`, a date a number of milliseconds.
use nestjs_ex.Entities.Status.{
  BlockchainTxStatus, ChatJobName, ChatRoomStatus, MemberStatus, MessageStatus, MessageType,
  RefTable, Role, TransactionStatus, TransactionType,
}
use nestjs_ex.Prelude.{Bool, List, Option, String, ℕ}

pub record ChatRoom : Type 0 where
  pub id : ℕ
  pub owner_id : ℕ
  pub name : Option String
  pub is_group : Bool
  pub avatar : Option String
  pub status : ChatRoomStatus
  pub network_id : ℕ
  pub created_at : ℕ
  pub updated_at : ℕ

pub record MemberInRoom : Type 0 where
  pub id : ℕ
  pub chat_room_id : ℕ
  pub user_id : ℕ
  pub wallet_address : String
  pub display_name : Option String
  pub nickname : Option String
  pub role : Role
  pub status : MemberStatus
  pub added_by_user_id : Option ℕ
  pub is_chat_archived : Bool
  pub is_pinned : Bool
  pub mute_duration : Option ℕ
  pub last_viewed_at : ℕ
  pub created_at : ℕ
  pub updated_at : ℕ

pub record Message : Type 0 where
  pub id : ℕ
  pub chat_room_id : ℕ
  pub user_id : ℕ
  pub wallet_address : String
  pub reply_to : Option ℕ
  pub kind : MessageType
  pub content : Option String
  pub is_pinned : Bool
  pub status : MessageStatus
  pub transaction_id : Option ℕ
  pub number_of_txs : ℕ
  pub file_info : Option String
  pub retry_at : Option ℕ
  pub created_at : ℕ
  pub updated_at : ℕ

pub record RoomNotificationTx : Type 0 where
  pub id : ℕ
  pub chat_room_id : ℕ
  pub message_id : ℕ
  pub wallet_address : String
  pub status : MessageStatus
  pub kind : ChatJobName
  pub created_at : ℕ

pub record RoomActionTx : Type 0 where
  pub id : ℕ
  pub chat_room_id : ℕ
  pub message_id : ℕ
  pub wallet_address : String
  pub status : MessageStatus
  pub kind : ChatJobName
  pub content : String
  pub created_at : ℕ

pub record User : Type 0 where
  pub id : ℕ
  pub name : Option String
  pub username : String
  pub avatar : Option String
  pub email : Option String
  pub password : String
  pub roles : List String
  pub is_account_disabled : Bool

pub record UserWallet : Type 0 where
  pub id : ℕ
  pub user_id : ℕ
  pub wallet_name : Option String
  pub address : String
  pub private_key : Option String
  pub is_hd : Bool
  pub hd_path : Option String
  pub kms_data_key_id : Option ℕ
  pub is_external : Bool
  pub current_block_number : Option ℕ
  pub user_hd_wallet_id : ℕ
  pub network_id : ℕ
  pub created_at : ℕ
  pub updated_at : ℕ

pub record UserHdWallet : Type 0 where
  pub id : ℕ
  pub user_id : ℕ
  pub wallet_name : Option String
  pub seed_phrase : Option String
  pub is_hd : Bool
  pub hd_path : Option String
  pub kms_data_key_id : Option ℕ
  pub is_external : Bool
  pub network_id : ℕ
  pub created_at : ℕ
  pub updated_at : ℕ

pub record UserContact : Type 0 where
  pub id : ℕ
  pub user_id : ℕ
  pub address : String
  pub name : Option String
  pub avatar : Option String
  pub created_at : ℕ
  pub updated_at : ℕ

pub record UserSetting : Type 0 where
  pub id : ℕ
  pub user_id : ℕ
  pub language : String
  pub display_currency : String
  pub biometrics : Bool
  pub use_user_wallet_id : ℕ
  pub use_network_id : ℕ
  pub gas_fee_level : String
  pub is_enable_autosign_message : Bool
  pub created_at : ℕ
  pub updated_at : ℕ

pub record Network : Type 0 where
  pub id : ℕ
  pub chain_id : String
  pub rpc_endpoint : String
  pub native_token_symbol : String

pub record UserBlock : Type 0 where
  pub id : ℕ
  pub user_id : ℕ
  pub blocked_user_id : ℕ
  pub blocked_wallet_address : String
  pub status : Bool
  pub report_content : Option String
  pub kind : String

pub record RemoveMessage : Type 0 where
  pub id : ℕ
  pub user_id : ℕ
  pub message_id : ℕ

pub record SpamReport : Type 0 where
  pub id : ℕ
  pub user_id : ℕ
  pub message_id : ℕ
  pub content : String

pub record RoomKey : Type 0 where
  pub id : ℕ
  pub room_id : ℕ
  pub shared_key : String
  pub public_key : String
  pub private_key : String
  pub side : String
  pub iv : String

pub record Device : Type 0 where
  pub id : ℕ
  pub user_id : ℕ
  pub device_id : String
  pub fcm_token : String
  pub os : String
  pub created_at : ℕ
  pub updated_at : ℕ

pub record UserToken : Type 0 where
  pub id : ℕ
  pub user_id : ℕ
  pub network_id : ℕ
  pub token_name : String
  pub token_symbol : String
  pub token_address : String
  pub token_decimal : ℕ

pub record Transaction : Type 0 where
  pub id : ℕ
  pub kind : TransactionType
  pub user_id : ℕ
  pub user_wallet_id : ℕ
  pub network_id : ℕ
  pub tx_hash : Option String
  pub blockchain_tx_id : Option ℕ
  pub from_address : String
  pub to_address : String
  pub token_symbol : Option String
  pub token_address : Option String
  pub fee_level : Option String
  pub amount : String
  pub memo_code : Option String
  pub transaction_status : TransactionStatus
  pub created_at : ℕ
  pub updated_at : ℕ

pub record File : Type 0 where
  pub id : ℕ
  pub owner_id : ℕ
  pub kind : String
  pub driver : String
  pub path : String
  pub ipfs_path : Option String
  pub s3key : Option String
  pub bucket : Option String
  pub file_info : Option String

pub record BlockchainTx : Type 0 where
  pub id : ℕ
  pub fee_amount : Option String
  pub tx_hash : Option String
  pub tx_status : BlockchainTxStatus
  pub ref_table : RefTable
  pub ref_id : ℕ
