-- ===== src/TransactionView/Shown.antt =====
-- Who is shown a red packet.
use mathlib.Core.Path.{subst}
use nestjs_ex.Entities.{
  MemberInRoom, Message, Transaction, TransactionType, UserToken, message_type_eq,
}
use nestjs_ex.Member.{find_joined_member_by_user_id}
use nestjs_ex.Prelude.{
  Option, Option-cases, ap, find_first, inl, inr, is_some, nat_eq, some, sym, text_eq, ℕ, ◌==◌, ◌∙◌,
  ◌≡◌,
}
use nestjs_ex.TransactionView.{
  check_room_of_transaction, find_by_token_address_and_user_id, find_message_by_transaction_id,
  get_transaction_by_id,
}
use nestjs_ex.World.{World, gets, ok, pure}
use nestjs_ex.World.Outcome.{bind-ok, gets-bind-ok, guard-ok, need-bind-ok, same_outcome}

abbrev pub IsMemberAt : ℕ → World → Transaction → Type 0
IsMemberAt user_id w t =
    (m : Message) × (row : MemberInRoom) × (find_message_by_transaction_id t.id w ≡ some m)
    × (find_joined_member_by_user_id user_id m.chat_room_id w ≡ some row)

check_room_of_transaction-same :
    (user_id : ℕ) (kind : TransactionType) (message : Option Message) (w v : World)
    → check_room_of_transaction user_id kind message w ≡ (ok tt, v)
    → v ≡ w
unfolding check_room_of_transaction pure
check_room_of_transaction-same user_id TransactionType.deposit message w v h = (same_outcome h).1
check_room_of_transaction-same user_id TransactionType.withdraw message w v h = (same_outcome h).1
check_room_of_transaction-same user_id TransactionType.withdraw_red_packet message w v h =
    let (m, found, h1) = need-bind-ok message _ _ w v tt h in
    (guard-ok _ _ w v (gets-bind-ok _ _ w v tt h1)).1

check_room_of_transaction-ok :
    (user_id : ℕ) (message : Option Message) (w v : World)
    → check_room_of_transaction user_id TransactionType.withdraw_red_packet message w ≡ (ok tt, v)
    → (m : Message) × (row : MemberInRoom) × (message ≡ some m)
      × (find_joined_member_by_user_id user_id m.chat_room_id w ≡ some row)
unfolding check_room_of_transaction
check_room_of_transaction-ok user_id message w v h =
    let (m, found, h1) = need-bind-ok message _ _ w v tt h in
    let here = (guard-ok _ _ w v (gets-bind-ok _ _ w v tt h1)).0 in
    elim (Option-cases (find_joined_member_by_user_id user_id m.chat_room_id w)) [
      | inl lost ↦ absurd (cc (sym here ∙ ap is_some lost))
      | inr (row, e) ↦ (m, row, found, e)
    ]

-- Where getTransactionById returned, nothing was written, the transaction is stored under that key with a token of its
-- owner, the answer differs in the amount alone, and the caller of a red packet's transaction has joined the room of
-- the message that names it.
pub get_transaction_by_id-ok :
    (user_id id : ℕ) (w v : World) (shown : Transaction)
    → get_transaction_by_id user_id id w ≡ (ok shown, v)
    → (t : Transaction) × (token : UserToken) × (v ≡ w)
      × (find_first (λ x. x.id == id) w.transactions.rows ≡ some t)
      × (find_by_token_address_and_user_id t.token_address t.user_id w ≡ some token)
      × (shown ≡ record t { amount = w.env.amount_of_raw t.amount token.token_decimal })
      × (t.kind ≡ TransactionType.withdraw_red_packet → IsMemberAt user_id w t)
unfolding get_transaction_by_id gets
get_transaction_by_id-ok user_id id w v shown h =
    let h1 = gets-bind-ok _ _ w v shown h in
    let (t, found, h2) = need-bind-ok _ _ _ w v shown h1 in
    let h3 = gets-bind-ok _ _ w v shown h2 in
    let h4 = gets-bind-ok _ _ w v shown h3 in
    let (_, u, checked, h5) = bind-ok _ _ w v shown h4 in
    let u_is = check_room_of_transaction-same user_id t.kind _ w u checked in
    let (token, has, h6) = need-bind-ok _ _ _ u v shown h5 in
    let (answer, v_is) = same_outcome h6 in
    (
      t,
      token,
      v_is ∙ u_is,
      found,
      has,
      sym answer
          ∙ ap
              (λ (x : World). record t {
                amount = x.env.amount_of_raw t.amount token.token_decimal;
              })
              u_is,
      λ red. check_room_of_transaction-ok user_id _ w u (
          subst
            (λ kind.
              check_room_of_transaction user_id kind (find_message_by_transaction_id t.id w) w
              ≡ (ok tt, u))
            red checked),
    )
