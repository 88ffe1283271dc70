-- ===== src/TransactionView.antt =====
-- src/transaction/services/transaction.service.ts, lines 1203 to 1239: one transaction by its key.
pub mod Shown
use nestjs_ex.Entities.{Message, Transaction, TransactionType, UserToken, message_type_eq}
use nestjs_ex.Member.{find_joined_member_by_user_id}
use nestjs_ex.Prelude.{
  Option, String, false, find_first, is_some, nat_eq, none, some, text_eq, ℕ, ◌&&◌, ◌==◌,
}
use nestjs_ex.World.{
  Exec, World, gets, guard, message_not_found, need, pure, type_error, user_not_in_room, ◌>>=◌,
  ◌>>◌,
}

-- `findMessageByTransactionId`
unfoldable pub find_message_by_transaction_id : ℕ → World → Option Message
find_message_by_transaction_id id w =
    find_first (λ m. elim m.transaction_id [ none ↦ false | some n ↦ n == id ]) w.messages.rows

-- `findByTokenAddressAndUserId`; no row is at the address NULL.
unfoldable pub find_by_token_address_and_user_id : Option String → ℕ → World → Option UserToken
find_by_token_address_and_user_id none user_id w = none
find_by_token_address_and_user_id (some address) user_id w =
    find_first (λ x. w.env.same_text x.token_address address && (x.user_id == user_id))
      w.tokens.rows

-- A red packet is shown to the joined members of its room.
unfoldable pub check_room_of_transaction : ℕ → TransactionType → Option Message → Exec (Unit {0})
check_room_of_transaction user_id TransactionType.deposit message = pure tt
check_room_of_transaction user_id TransactionType.withdraw message = pure tt
check_room_of_transaction user_id TransactionType.withdraw_red_packet message = do
  m ← need message message_not_found
  member ← gets (find_joined_member_by_user_id user_id m.chat_room_id)
  guard (is_some member) user_not_in_room

-- `getTransactionById`; its answer shows the row with the amount in whole tokens.
unfoldable pub get_transaction_by_id : ℕ → ℕ → Exec Transaction
get_transaction_by_id user_id id = do
  found ← gets (λ w. find_first (λ t. t.id == id) w.transactions.rows)
  t ← need found type_error
  user_token ← gets (find_by_token_address_and_user_id t.token_address t.user_id)
  message ← gets (find_message_by_transaction_id t.id)
  check_room_of_transaction user_id t.kind message
  token ← need user_token type_error
  gets (λ w. record t { amount = w.env.amount_of_raw t.amount token.token_decimal })
