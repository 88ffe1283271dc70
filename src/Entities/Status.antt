-- ===== src/Entities/Status.antt =====
-- src/shared/constants/common.ts and queue.constant.ts: the words that the columns `status`, `role`
-- and `type` hold, as enumerations. A column holds no other word.
use nestjs_ex.Prelude.{ℕ, ◌≡◌, ◌↔◌, Bool, true, arith, Equality, nat_beq}

pub data ChatRoomStatus : Type 0 where
  created deployed paused failed cancel blocked : ChatRoomStatus

pub data MemberStatus : Type 0 where
  joined pending_approval invited cancel out : MemberStatus

pub data Role : Type 0 where
  member admin owner : Role

pub data MessageType : Type 0 where
  text attachments image video voice_record send_token : MessageType
  room_notification room_action system file : MessageType

pub data MessageStatus : Type 0 where
  in_progress completed failed hidden pending_retry retrying : MessageStatus

-- `SOCKET_TYPE`, as far as the modelled services send them.
pub data SocketType : Type 0 where
  room_invitation pin_message message_retrieve : SocketType

pub data ChatJobName : Type 0 where
  create_group_chat change_group_name send_message_to_group invite_member : ChatJobName
  accept_invite accept_join_group add_members remove_members join_room leave_room : ChatJobName
  reject_join_group set_admin remove_admin send_message_to_peer redeploy_group_chat : ChatJobName
  send_red_packet pin_message unpin_message retrieve_message : ChatJobName

-- `TRANSACTION_STATUS` and `TRANSACTION_TYPE` of src/transaction/constants/transaction.constant.ts
pub data TransactionStatus : Type 0 where
  pending sent success failed completed pending_retry retrying : TransactionStatus

pub data TransactionType : Type 0 where
  deposit withdraw withdraw_red_packet : TransactionType

-- `BLOCKCHAINTX_REFTABLE` and `BLOCKCHAIN_TX_STATUS`
pub data RefTable : Type 0 where
  of_transaction of_message : RefTable

pub data BlockchainTxStatus : Type 0 where
  unverified verified : BlockchainTxStatus

-- `HISTORY_TITLE`
pub data HistoryTitle : Type 0 where
  received sent recive send add_member remove_member leave_group remove_admin set_admin :
      HistoryTitle
  create_group_chat change_group_name send_message send_attachment send_image : HistoryTitle
  send_video send_voice_record send_multimedia send_red_packet : HistoryTitle

abbrev room_status_code : ChatRoomStatus → ℕ
room_status_code ChatRoomStatus.created = 0
room_status_code ChatRoomStatus.deployed = 1
room_status_code ChatRoomStatus.paused = 2
room_status_code ChatRoomStatus.failed = 3
room_status_code ChatRoomStatus.cancel = 4
room_status_code ChatRoomStatus.blocked = 5

abbrev member_status_code : MemberStatus → ℕ
member_status_code MemberStatus.joined = 0
member_status_code MemberStatus.pending_approval = 1
member_status_code MemberStatus.invited = 2
member_status_code MemberStatus.cancel = 3
member_status_code MemberStatus.out = 4

abbrev role_code : Role → ℕ
role_code Role.member = 0
role_code Role.admin = 1
role_code Role.owner = 2

abbrev message_type_code : MessageType → ℕ
message_type_code MessageType.text = 0
message_type_code MessageType.attachments = 1
message_type_code MessageType.image = 2
message_type_code MessageType.video = 3
message_type_code MessageType.voice_record = 4
message_type_code MessageType.send_token = 5
message_type_code MessageType.room_notification = 6
message_type_code MessageType.room_action = 7
message_type_code MessageType.system = 8
message_type_code MessageType.file = 9

abbrev message_status_code : MessageStatus → ℕ
message_status_code MessageStatus.in_progress = 0
message_status_code MessageStatus.completed = 1
message_status_code MessageStatus.failed = 2
message_status_code MessageStatus.hidden = 3
message_status_code MessageStatus.pending_retry = 4
message_status_code MessageStatus.retrying = 5

abbrev pub room_status_beq : ChatRoomStatus → ChatRoomStatus → Bool
room_status_beq a b = nat_beq (room_status_code a) (room_status_code b)

abbrev pub member_status_beq : MemberStatus → MemberStatus → Bool
member_status_beq a b = nat_beq (member_status_code a) (member_status_code b)

abbrev pub role_beq : Role → Role → Bool
role_beq a b = nat_beq (role_code a) (role_code b)

abbrev pub message_type_beq : MessageType → MessageType → Bool
message_type_beq a b = nat_beq (message_type_code a) (message_type_code b)

abbrev pub message_status_beq : MessageStatus → MessageStatus → Bool
message_status_beq a b = nat_beq (message_status_code a) (message_status_code b)

pub room_status_beq_iff : (a b : ChatRoomStatus) → (room_status_beq a b ≡ true) ↔ (a ≡ b)
room_status_beq_iff a b = ground arith

pub member_status_beq_iff : (a b : MemberStatus) → (member_status_beq a b ≡ true) ↔ (a ≡ b)
member_status_beq_iff a b = ground arith

pub role_beq_iff : (a b : Role) → (role_beq a b ≡ true) ↔ (a ≡ b)
role_beq_iff a b = ground arith

pub message_type_beq_iff : (a b : MessageType) → (message_type_beq a b ≡ true) ↔ (a ≡ b)
message_type_beq_iff a b = ground arith

pub message_status_beq_iff : (a b : MessageStatus) → (message_status_beq a b ≡ true) ↔ (a ≡ b)
message_status_beq_iff a b = ground arith

instance abbrev pub room_status_eq : Equality ChatRoomStatus
room_status_eq = record { same_as = room_status_beq; same_iff = room_status_beq_iff }

instance abbrev pub member_status_eq : Equality MemberStatus
member_status_eq = record { same_as = member_status_beq; same_iff = member_status_beq_iff }

instance abbrev pub role_eq : Equality Role
role_eq = record { same_as = role_beq; same_iff = role_beq_iff }

instance abbrev pub message_type_eq : Equality MessageType
message_type_eq = record { same_as = message_type_beq; same_iff = message_type_beq_iff }

instance abbrev pub message_status_eq : Equality MessageStatus
message_status_eq = record { same_as = message_status_beq; same_iff = message_status_beq_iff }

abbrev ref_table_code : RefTable → ℕ
ref_table_code RefTable.of_transaction = 0
ref_table_code RefTable.of_message = 1

abbrev history_title_code : HistoryTitle → ℕ
history_title_code HistoryTitle.received = 0
history_title_code HistoryTitle.sent = 1
history_title_code HistoryTitle.recive = 2
history_title_code HistoryTitle.send = 3
history_title_code HistoryTitle.add_member = 4
history_title_code HistoryTitle.remove_member = 5
history_title_code HistoryTitle.leave_group = 6
history_title_code HistoryTitle.remove_admin = 7
history_title_code HistoryTitle.set_admin = 8
history_title_code HistoryTitle.create_group_chat = 9
history_title_code HistoryTitle.change_group_name = 10
history_title_code HistoryTitle.send_message = 11
history_title_code HistoryTitle.send_attachment = 12
history_title_code HistoryTitle.send_image = 13
history_title_code HistoryTitle.send_video = 14
history_title_code HistoryTitle.send_voice_record = 15
history_title_code HistoryTitle.send_multimedia = 16
history_title_code HistoryTitle.send_red_packet = 17

abbrev pub ref_table_beq : RefTable → RefTable → Bool
ref_table_beq a b = nat_beq (ref_table_code a) (ref_table_code b)

abbrev pub history_title_beq : HistoryTitle → HistoryTitle → Bool
history_title_beq a b = nat_beq (history_title_code a) (history_title_code b)
