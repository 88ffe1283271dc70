-- ===== src/Tests/Views.antt =====
-- src/transaction: a red packet in the group, seen by a member.
use nestjs_ex.Entities.{
  MessageType, Transaction, TransactionStatus, TransactionType, UserToken, member_status_eq,
  message_type_eq,
}
use nestjs_ex.Member.{find_joined_member_by_user_id, find_room_member_with_status}
use nestjs_ex.Prelude.{[], find_first, nat_eq, none, refl, some, text_eq, ◌==◌, ◌∷◌, ◌≡◌}
use nestjs_ex.Tests.{message0, world0}
use nestjs_ex.TransactionView.{
  check_room_of_transaction, find_by_token_address_and_user_id, find_message_by_transaction_id,
  get_transaction_by_id,
}
use nestjs_ex.TransactionView.Shown.{IsMemberAt, get_transaction_by_id-ok}
use nestjs_ex.World.{World, err, ok, user_not_in_room, ◌>>=◌}

abbrev packet0 : Transaction
packet0 = record {
  id = 7;
  kind = TransactionType.withdraw_red_packet;
  user_id = 1;
  user_wallet_id = 1;
  network_id = 1;
  tx_hash = none;
  blockchain_tx_id = none;
  from_address = "0xa";
  to_address = "0xb";
  token_symbol = some "MATIC";
  token_address = some "0x0";
  fee_level = some "fast";
  amount = "5";
  memo_code = none;
  transaction_status = TransactionStatus.pending;
  created_at = 20;
  updated_at = 20;
}

abbrev matic0 : UserToken
matic0 = record {
  id = 1;
  user_id = 1;
  network_id = 1;
  token_name = "Matic";
  token_symbol = "MATIC";
  token_address = "0x0";
  token_decimal = 18;
}

abbrev packets0 : World
packets0 = record world0 {
  transactions = record { rows = packet0 ∷ []; next_id = 8 };
  tokens = record { rows = matic0 ∷ []; next_id = 2 };
  messages = record {
    rows = record message0 { kind = MessageType.send_token; transaction_id = some 7 } ∷ [];
    next_id = 2;
  };
}

seen_by_bob : get_transaction_by_id 2 7 packets0 ≡ (ok packet0, packets0)
unfolding get_transaction_by_id find_first find_by_token_address_and_user_id
    find_message_by_transaction_id check_room_of_transaction find_joined_member_by_user_id
    find_room_member_with_status ◌>>=◌
seen_by_bob = refl

-- Carol is only invited to the group.
not_seen_by_carol : get_transaction_by_id 3 7 packets0 ≡ (err user_not_in_room, packets0)
unfolding get_transaction_by_id find_first find_by_token_address_and_user_id
    find_message_by_transaction_id check_room_of_transaction find_joined_member_by_user_id
    find_room_member_with_status ◌>>=◌
not_seen_by_carol = refl

get_transaction_by_id-ok_example :
    (t : Transaction) × (token : UserToken) × (packets0 ≡ packets0)
    × (find_first (λ x. x.id == 7) packets0.transactions.rows ≡ some t)
    × (find_by_token_address_and_user_id t.token_address t.user_id packets0 ≡ some token)
    × (packet0 ≡ record t { amount = packets0.env.amount_of_raw t.amount token.token_decimal })
    × (t.kind ≡ TransactionType.withdraw_red_packet → IsMemberAt 2 packets0 t)
get_transaction_by_id-ok_example =
    get_transaction_by_id-ok 2 7 packets0 packets0 packet0 seen_by_bob
