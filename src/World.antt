-- ===== src/World.antt =====
-- The state that the services share, and the monad of their methods.
pub mod Laws
pub mod Outcome
pub mod Refusal
pub mod Running
pub mod Agreement
use nestjs_ex.Entities.{
  BlockchainTx, ChatJob, ChatRoom, Device, File, GasResult, KmsCmk, KmsDataKey, MemberInRoom,
  Message, MessageType, Network, NetworkFees, Notification, RemoveMessage, RoomActionTx, RoomKey,
  RoomNotificationTx, SpamReport, TokenClaims, Transaction, UploadJob, User, UserBlock, UserContact,
  UserHdWallet, UserSetting, UserToken, UserWallet, WalletJob,
}
use nestjs_ex.Prelude.{Bool, List, Option, String, [], false, none, some, true, ℕ, ◌∷◌}
use nestjs_ex.Store.{Table}

-- The bytes of a node `Buffer`, each written as the character of that number.
abbrev pub Buffer : Type 0
Buffer = String

-- What the process reads and does not implement: the clock, MySQL's comparison of a text column with a
-- value under the column's collation and its `lower`, JavaScript's `toLowerCase`, its reading of a
-- number, and what the packages for requests, addresses and big numbers answer.
pub record Env : Type 0 where
  pub now : ℕ
  pub same_text : String → String → Bool
  pub lower : String → String
  pub to_lower_case : String → String
  pub to_upper_case : String → String
  -- the gas tracker's answer for a network, `none` where the request fails
  pub gas_result : String → Option GasResult
  -- `CHAT_NETWORK_CHAINIDS` of the environment
  pub chat_network_chain_ids : List String
  -- `web3.utils.isAddress`
  pub is_address : String → Bool
  -- `calcRawAmountOfTransaction`, in the big numbers of a package
  pub raw_amount : String → ℕ → String
  -- `calcAmountOfTransaction`
  pub amount_of_raw : String → ℕ → String
  -- `Number(text)`, where it is a number
  pub to_number : String → Option ℕ
  -- node's `crypto`: the key pair (public, private) of prime192v1 and the random bytes that the n-th draw gives, and
  -- ECDH on a public and a private key.
  pub generate_keys : ℕ → Buffer × Buffer
  pub random_bytes : ℕ → Buffer
  pub compute_secret : Buffer → Buffer → Buffer
  -- The encodings of node's buffers: from a text to bytes, and back.
  pub from_utf8 : String → Buffer
  pub to_utf8 : Buffer → String
  pub from_base64 : String → Buffer
  pub to_base64 : Buffer → String
  pub from_hex : String → Buffer
  pub to_hex : Buffer → String
  -- aes-256-ctr of node's `crypto`, on the bytes, the secret and the initialization vector.
  pub cipher_iv : Buffer → String → Buffer → Buffer
  pub decipher_iv : Buffer → String → Buffer → Buffer
  -- `KMS_ENABLED` of the environment
  pub kms_enabled : Bool
  -- AWS: the data key (plain, cipher) that a region makes for an ARN on the n-th draw, and the plain key of a
  -- cipher; `none` where the request fails.
  pub aws_data_key : String → String → ℕ → Option (String × String)
  pub aws_decrypt : String → String → Option String
  -- node's AES with a password, on the bytes and the key; `none` where the padding does not fit
  pub cipher : Buffer → Buffer → Buffer
  pub decipher : Buffer → Buffer → Option Buffer
  -- bcrypt's `compare`, of a password with a hash
  pub password_fits : String → String → Bool
  -- `JwtService`: `sign` at a time, with the seconds till the end; `verify` at a time is `none` where it throws,
  -- and the inner `none` stands for a payload without a subject.
  pub jwt_sign : TokenClaims → ℕ → ℕ → String
  pub jwt_verify : String → ℕ → Option (Option ℕ)
  pub refresh_token_expires_in : ℕ
  pub access_token_expires_in : ℕ
  -- `UPLOAD_STRATEGY` and `SERVER_ADDRESS` of the environment
  pub upload_strategy : String
  pub server_address : String
  -- `originalname.split('.').pop()`
  pub file_extension : String → String
  -- A new name: the n-th draw of `uuid` with the time.
  pub uuid_and_time : ℕ → ℕ → String
  -- `String(number)`
  pub text_of_number : ℕ → String
  -- The object store: (location, key, bucket) for a key; the disk: whether a file of that name is written; IPFS: the
  -- path. `none` and `false` where the request fails.
  pub s3_upload : String → Option (String × String × String)
  pub write_file : String → Bool
  pub ipfs_add : Option String → Option String
  -- `JSON.parse(text).type`, where it is a kind of message
  pub type_of_file_info : String → Option MessageType
  -- `formatPoint(amount, decimals).toString()`, in JavaScript's numbers
  pub format_point : Option String → ℕ → String
  -- MySQL's `sum(cast(fee as DECIMAL(10,6)))` of a column, NULL where every fee is
  pub sum_of_fees : List (Option String) → Option String
  -- `split(' ').length`
  pub number_of_words : String → ℕ
  -- bcrypt's `hash(password, 10)`
  pub hash : String → String
  -- `replace(/  +/g, ' ').trim()`
  pub squeeze : String → String
  -- The words that `generateRandomWord` draws.
  pub random_word : ℕ → String

pub record World : Type 0 where
  pub env : Env
  pub rooms : Table ChatRoom
  pub members : Table MemberInRoom
  pub messages : Table Message
  pub notification_txs : Table RoomNotificationTx
  pub action_txs : Table RoomActionTx
  pub users : Table User
  pub wallets : Table UserWallet
  pub contacts : Table UserContact
  pub settings : Table UserSetting
  pub networks : List Network
  pub room_keys : Table RoomKey
  pub blocks : Table UserBlock
  pub removed : Table RemoveMessage
  pub reports : Table SpamReport
  pub devices : Table Device
  pub tokens : Table UserToken
  pub transactions : Table Transaction
  -- `networkFees` in Redis
  pub fees_cache : List (String × NetworkFees)
  pub chat_queue : List ChatJob
  pub socket_queue : List Notification
  pub hd_wallets : Table UserHdWallet
  pub files : Table File
  pub cmks : List KmsCmk
  pub data_keys : Table KmsDataKey
  pub wallet_queue : List WalletJob
  pub blockchain_txs : Table BlockchainTx
  pub encrypt_file_queue : List UploadJob

-- The errors that the methods throw, by their messages.
pub data Error : Type 0 where
  unauthorized type_error : Error
  room_not_found member_not_found message_not_found network_not_found wallet_not_found : Error
  user_not_found user_blocked autosign_disabled chat_person_not_valid : Error
  user_not_in_room user_not_invited user_not_owner no_permission : Error
  chat_room_not_found not_deployed_fail room_blocked room_not_deployed : Error
  address_in_progress max_member_per_group no_other_member : Error
  already_in_room not_registered had_joined had_been_invited different_roles : Error
  message_type_not_valid message_not_failed message_not_yours no_execute_permission : Error
  address_not_valid users_blocking address_has_no_user contact_added contact_not_found : Error
  gas_fee_level_not_valid device_id_required room_key_not_found : Error
  column_not_nullable password_mismatch hd_wallet_exists wallet_exists user_id_not_valid : Error
  kms_failed kms_not_enabled data_key_not_found out_of_fuel duplicate_entry : Error
  token_not_valid refresh_token_not_valid network_not_supported upload_failed file_not_found : Error
  username_not_valid password_not_valid account_disabled token_added token_info_failed : Error
  no_red_packet_on_network receiver_not_in_room token_not_found : Error
  transaction_not_found history_detail_not_found : Error
  network_not_shared cannot_remove cannot_report own_message already_removed already_reported :
      Error

pub data Result {ℓ} (A : Type ℓ) : Type ℓ where
  ok : A → Result A
  err : Error → Result A

-- A method runs on the state and returns or throws. There is no transaction round it, so what was
-- written before a throw stays written.
abbrev pub Exec : Type 0 → Type 0
Exec A = World → Result A × World

module _ {A : Type 0} where
  unfoldable pub pure : A → Exec A
  pure a w = (ok a, w)

  unfoldable pub raise : Error → Exec A
  raise e w = (err e, w)

  unfoldable pub gets : (World → A) → Exec A
  gets f w = (ok (f w), w)

  -- A value that must not be `undefined`.
  unfoldable pub need : Option A → Error → Exec A
  need none e w = (err e, w)
  need (some a) e w = (ok a, w)

unfoldable pub modify : (World → World) → Exec (Unit {0})
modify f w = (ok tt, f w)

-- `if (!b) throw e`
unfoldable pub guard : Bool → Error → Exec (Unit {0})
guard true e w = (ok tt, w)
guard false e w = (err e, w)

module _ {A B : Type 0} where
  abbrev pub continue : Result A → (A → Exec B) → Exec B
  continue (ok a) f w = f a w
  continue (err e) f w = (err e, w)

  infixl 5 ◌>>=◌ ◌>>◌
  -- Opening this opens the other actions too.
  unfoldable pub ◌>>=◌ : Exec A → (A → Exec B) → Exec B
  unfolding pure raise gets need modify guard
  ◌>>=◌ m f w = let (r, w') = m w in continue r f w'

  abbrev pub ◌>>◌ : Exec A → Exec B → Exec B
  m >> n = m >>= λ _. n

-- `list.map(async …)` under `Promise.all`, on the schedule that runs the calls one after another.
unfoldable pub for_each : {A B : Type 0} → List B → (B → Exec A) → Exec (List A)
for_each [] f = pure []
for_each (b ∷ bs) f = do let rest = for_each bs f; a ← f b; results ← rest; pure (a ∷ results)

-- A call whose promise is not awaited: what it throws does not reach the caller.
unfoldable pub not_awaited : Exec (Unit {0}) → Exec (Unit {0})
not_awaited m w = (ok tt, (m w).1)

abbrev pub rolled_back : World → Result (Unit {0}) × World → Result (Unit {0}) × World
rolled_back w (ok r, w') = (ok r, w')
rolled_back w (err e, w') = (err e, w)

-- `connection.transaction`: what the body wrote is undone where it throws.
unfoldable pub transaction : Exec (Unit {0}) → Exec (Unit {0})
transaction m w = rolled_back w (m w)

-- The same state, read at another time.
abbrev pub at_time : ℕ → World → World
at_time t w = record w { env = record w.env { now = t } }
