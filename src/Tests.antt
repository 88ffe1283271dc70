-- ===== src/Tests.antt =====
-- A small database on which the theorems and the handlers are run.
pub mod Accounts
pub mod Sessions
pub mod Rooms
pub mod Owners
pub mod Messages
pub mod Services
pub mod Users
pub mod Payments
pub mod Histories
pub mod Views
use nestjs_ex.Api.{blocks}
use nestjs_ex.Entities.{
  ChatJobName, ChatRoom, ChatRoomStatus, Fee, GasResult, MemberInRoom, MemberStatus, Message,
  MessageStatus, MessageType, NetworkFees, Role, RoomNotificationTx, User, UserSetting, UserWallet,
  member_status_eq, message_status_eq, message_type_eq, role_eq, room_status_eq,
}
use nestjs_ex.Prelude.{
  Bool, String, [], false, if◌then◌else◌, nat_eq, none, or_else, some, text_eq, true, ℕ, ◌==◌, ◌∷◌,
}
use nestjs_ex.Sending.{number_of_txs}
use nestjs_ex.Store.{Table}
use nestjs_ex.Users.{hashed}
use nestjs_ex.World.{Env, World}

abbrev pub env0 : Env
env0 = record {
  now = 1000;
  same_text = λ a b. text_eq.same_as a b;
  lower = λ a. a;
  to_lower_case = λ a. if a == "Eurus" then "eurus" else a;
  to_upper_case = λ a. if a == "fast" then "FAST" else a;
  gas_result = λ name. some (GasResult.gas (some "75") (some "36.3") (some "33"));
  chat_network_chain_ids = "137" ∷ "1984" ∷ [];
  is_address = λ address. true;
  raw_amount = λ amount decimals. amount;
  amount_of_raw = λ amount decimals. amount;
  to_number = λ content. none;
  generate_keys = λ n. ("public", "private");
  random_bytes = λ n. "iv";
  compute_secret = λ public_key private_key. "shared";
  from_utf8 = λ text. text;
  to_utf8 = λ bytes. bytes;
  from_base64 = λ text. text;
  to_base64 = λ bytes. bytes;
  from_hex = λ text. text;
  to_hex = λ bytes. bytes;
  cipher_iv = λ bytes secret iv. bytes;
  decipher_iv = λ bytes secret iv. bytes;
  kms_enabled = false;
  aws_data_key = λ region arn n. some ("plain", "cipher");
  aws_decrypt = λ region cipher. some "plain";
  cipher = λ bytes key. bytes;
  decipher = λ bytes key. some bytes;
  password_fits = λ password hashed. password == "right";
  jwt_sign = λ claims seconds now. "token";
  jwt_verify = λ token now. if token == "token" then some (some 1) else none;
  refresh_token_expires_in = 86400;
  access_token_expires_in = 3600;
  upload_strategy = "s3";
  server_address = "server";
  file_extension = λ name. "png";
  uuid_and_time = λ n now. "uuid";
  text_of_number = λ n. "1";
  s3_upload = λ key. some ("location", key, "bucket");
  write_file = λ name. true;
  ipfs_add = λ path. none;
  type_of_file_info = λ text. some MessageType.image;
  format_point = λ amount decimals. or_else amount "NaN";
  sum_of_fees = λ fees. some "1";
  number_of_words = λ text. 12;
  hash = λ password. "hashed";
  squeeze = λ a. a;
  random_word = λ n. if n == 2 then "Erin" else "Alice";
}

abbrev pub room0 : ℕ → Bool → ChatRoomStatus → ChatRoom
room0 id is_group status = record {
  id = id;
  owner_id = 1;
  name = some "room";
  is_group = is_group;
  avatar = none;
  status = status;
  network_id = 1;
  created_at = 10;
  updated_at = 10;
}

abbrev pub member0 : ℕ → ℕ → ℕ → String → Role → MemberStatus → MemberInRoom
member0 id room_id user_id address role status = record {
  id = id;
  chat_room_id = room_id;
  user_id = user_id;
  wallet_address = address;
  display_name = some "name";
  nickname = none;
  role = role;
  status = status;
  added_by_user_id = some 1;
  is_chat_archived = false;
  is_pinned = false;
  mute_duration = none;
  last_viewed_at = 10;
  created_at = 10;
  updated_at = 10;
}

abbrev pub message0 : Message
message0 = record {
  id = 1;
  chat_room_id = 1;
  user_id = 2;
  wallet_address = "0xb";
  reply_to = none;
  kind = MessageType.text;
  content = some "hello";
  is_pinned = false;
  status = MessageStatus.completed;
  transaction_id = none;
  number_of_txs = 1;
  file_info = none;
  retry_at = none;
  created_at = 10;
  updated_at = 10;
}

abbrev pub setting0 : ℕ → UserSetting
setting0 user_id = record {
  id = user_id;
  user_id = user_id;
  language = "en";
  display_currency = "USD";
  biometrics = false;
  use_user_wallet_id = user_id;
  use_network_id = 1;
  gas_fee_level = "medium";
  is_enable_autosign_message = true;
  created_at = 10;
  updated_at = 10;
}

abbrev pub user0 : ℕ → String → User
user0 id name = record {
  id = id;
  name = some name;
  username = name;
  avatar = none;
  email = none;
  password = "hashed";
  roles = "USER" ∷ [];
  is_account_disabled = false;
}

abbrev pub wallet0 : ℕ → String → UserWallet
wallet0 id address = record {
  id = id;
  user_id = id;
  wallet_name = some "";
  address = address;
  private_key = some "key";
  is_hd = false;
  hd_path = none;
  kms_data_key_id = none;
  is_external = false;
  current_block_number = some 0;
  user_hd_wallet_id = id;
  network_id = 1;
  created_at = 10;
  updated_at = 10;
}

abbrev empty0 : {A : Type 0} → Table A
empty0 = record { rows = []; next_id = 1 }

abbrev pub prices0 : NetworkFees
prices0 = record {
  fast = some (Fee.quoted "75");
  medium = some (Fee.quoted "36.3");
  slow = some (Fee.quoted "33");
}

-- Alice (1), Bob (2) and Carol (3); a group, the room of Alice and Bob, and a group that failed.
abbrev pub world0 : World
world0 = record {
  env = env0;
  rooms = record {
    rows =
        room0 1 true ChatRoomStatus.deployed
        ∷ room0 2 false ChatRoomStatus.deployed
        ∷ room0 3 true ChatRoomStatus.failed
        ∷ [];
    next_id = 4;
  };
  members = record {
    rows =
        member0 1 1 1 "0xa" Role.owner MemberStatus.joined
        ∷ member0 2 1 2 "0xb" Role.member MemberStatus.joined
        ∷ member0 3 1 3 "0xc" Role.member MemberStatus.invited
        ∷ member0 4 2 1 "0xa" Role.owner MemberStatus.joined
        ∷ member0 5 2 2 "0xb" Role.member MemberStatus.joined
        ∷ member0 6 3 1 "0xa" Role.owner MemberStatus.joined
        ∷ [];
    next_id = 7;
  };
  messages = record { rows = message0 ∷ []; next_id = 2 };
  notification_txs = empty0;
  action_txs = empty0;
  users = record {
    rows = user0 1 "Alice" ∷ user0 2 "Bob" ∷ user0 3 "Carol" ∷ user0 4 "Dave" ∷ [];
    next_id = 5;
  };
  wallets = record {
    rows = wallet0 1 "0xa" ∷ wallet0 2 "0xb" ∷ wallet0 3 "0xc" ∷ wallet0 4 "0xd" ∷ [];
    next_id = 5;
  };
  contacts = empty0;
  settings = record { rows = setting0 1 ∷ setting0 2 ∷ setting0 3 ∷ setting0 4 ∷ []; next_id = 5 };
  networks =
      record { id = 1; chain_id = "137"; rpc_endpoint = "rpc"; native_token_symbol = "MATIC" } ∷ [];
  room_keys = empty0;
  blocks = empty0;
  removed = empty0;
  reports = empty0;
  devices = empty0;
  tokens = empty0;
  transactions = empty0;
  fees_cache = ("polygon", prices0) ∷ [];
  chat_queue = [];
  socket_queue = [];
  hd_wallets = empty0;
  cmks = record { id = 1; region = "eu"; arn = "arn"; id_enabled = true } ∷ [];
  files = empty0;
  data_keys = empty0;
  wallet_queue = [];
  blockchain_txs = empty0;
  encrypt_file_queue = [];
}

-- The same, while transactions for Bob and Carol are in progress in the group.
abbrev lock0 : ℕ → String → RoomNotificationTx
lock0 id address = record {
  id = id;
  chat_room_id = 1;
  message_id = 1;
  wallet_address = address;
  status = MessageStatus.in_progress;
  kind = ChatJobName.accept_join_group;
  created_at = 900;
}

abbrev pub locked0 : World
locked0 = record world0 {
  notification_txs = record { rows = lock0 1 "0xb" ∷ lock0 2 "0xc" ∷ []; next_id = 3 };
}
