-- ===== src/RedPacket/Sent.antt =====
-- src/message/services/message.service.ts, lines 1170 to 1312: what a red packet that was sent leaves.
use mathlib.Core.Path.{ap₂, subst}
use nestjs_ex.Api.Leaving.{get_data_for_chat_queue-ok}
use nestjs_ex.Api.Rooms.{get_sender-At}
use nestjs_ex.ChatHelper.{
  ChatQueueData, chat_job, job_message_id, send_chat_queue_data, write_records,
}
use nestjs_ex.ChatHelper.Frame.{SameWorld}
use nestjs_ex.Entities.{
  ChatJob, ChatJobName, Message, Network, Transaction, TransactionStatus, UserToken, UserWallet,
  member_status_eq, message_type_eq,
}
use nestjs_ex.Member.{find_invited_or_joined_member_by_address, find_joined_member_by_user_id}
use nestjs_ex.Message.{save_message}
use nestjs_ex.Network.Found.{get_by_id-ok}
use nestjs_ex.Prelude.{
  Bool, Has, String, [], ap, arith, find_first, find_first-Has, includes, is_some, nat_beq_iff,
  nat_eq, refl, some, sym, text_eq, true, ℕ, ◌&&◌, ◌++◌, ◌==◌, ◌∙◌, ◌∷◌, ◌≡◌,
}
use nestjs_ex.RedPacket.{
  SendTokenChatInput, check_red_packet, find_user_wallet_by_address_and_user_id, get_token_by_id,
  red_packet, red_packet_chains, red_packet_delivery, red_packet_message, save_transaction,
  send_red_packet,
}
use nestjs_ex.Sender.{Sender}
use nestjs_ex.Sending.Delivery.{get_deployed_room_by_id-ok, get_sender-id}
use nestjs_ex.Store.{insert}
use nestjs_ex.World.{Env, Exec, Result, World, modify, ok, pure, ◌>>=◌, ◌>>◌}
use nestjs_ex.World.Laws.{At}
use nestjs_ex.World.Outcome.{bind-ok, gets-bind-ok, guard-bind-ok, need-bind-ok, need-ok, pure-ok}

abbrev pub HasReceiver : SendTokenChatInput → World → Type 0
HasReceiver input w =
    is_some (find_invited_or_joined_member_by_address input.to_address input.chat_room_id w) ≡ true

and_right : (a b : Bool) → (a && b) ≡ true → b ≡ true
and_right a b h = ground arith

-- What the checks found.
abbrev pub IsAllowed : ℕ → SendTokenChatInput → UserWallet → World → Type 0
IsAllowed user_id input wallet w =
    (Has wallet w.wallets.rows × (wallet.user_id ≡ user_id))
    × ((network : Network) × (find_first (λ n. n.id == input.network_id) w.networks ≡ some network)
        × (includes red_packet_chains network.chain_id ≡ true))
    × (is_some (find_joined_member_by_user_id user_id input.chat_room_id w) ≡ true)
    × HasReceiver input w

check_red_packet-ok :
    (user_id : ℕ) (address : String) (input : SendTokenChatInput) (w v : World)
    (wallet : UserWallet)
    → check_red_packet user_id address input w ≡ (ok wallet, v)
    → IsAllowed user_id input wallet w × (v ≡ w)
unfolding check_red_packet find_user_wallet_by_address_and_user_id
check_red_packet-ok user_id address input w v wallet h =
    let (room, u, hr, h1) = bind-ok _ _ w v wallet h in
    let (_, _, u_is) = get_deployed_room_by_id-ok input.chat_room_id w u room hr in
    let (joined, h2) = guard-bind-ok _ _ _ u v wallet (gets-bind-ok _ _ u v wallet h1) in
    let (x, ex, h3) = need-bind-ok _ _ _ u v wallet (gets-bind-ok _ _ u v wallet h2) in
    let (network, u2, hn, h4) = bind-ok _ _ u v wallet h3 in
    let (en, u2_is) = get_by_id-ok input.network_id u u2 network hn in
    let (chain, h5) = guard-bind-ok _ _ _ u2 v wallet h4 in
    let (_, h6) = guard-bind-ok _ _ _ u2 v wallet (gets-bind-ok _ _ u2 v wallet h5) in
    let (receiver, h7) = guard-bind-ok _ _ _ u2 v wallet (gets-bind-ok _ _ u2 v wallet h6) in
    let (x_is, v_is) = pure-ok x wallet u2 v h7 in
    let (stored, fits) = find_first-Has _ u.wallets.rows x ex in
    let allowed : IsAllowed user_id input x u = (
      (stored, (nat_beq_iff x.user_id user_id).0 (and_right _ (x.user_id == user_id) fits)),
      (network, en, chain),
      joined,
      subst (λ z. HasReceiver input z) u2_is receiver,
    ) in
    (
      subst (λ z. IsAllowed user_id input wallet z) u_is
          (subst (λ z. IsAllowed user_id input z u) x_is allowed),
      v_is ∙ u2_is ∙ u_is,
    )

abbrev queued : SendTokenChatInput → Sender → UserToken → ℕ → ChatQueueData → ℕ → World → World
queued input user token message_id q id w = record w {
  chat_queue = w.chat_queue ++ chat_job (red_packet_delivery input user token message_id) q id ∷ [];
}

-- The delivery writes no message: it puts one job on the queue.
delivered :
    (input : SendTokenChatInput) (user : Sender) (token : UserToken) (message_id : ℕ) (w v : World)
    → send_chat_queue_data (red_packet_delivery input user token message_id) w ≡ (ok tt, v)
    → (q : ChatQueueData) × (v ≡ record w {
      chat_queue =
          w.chat_queue ++ chat_job (red_packet_delivery input user token message_id) q 0 ∷ [];
    })
unfolding send_chat_queue_data write_records modify
delivered input user token message_id w v h =
    let (q, u, hq, h1) = bind-ok _ _ w v tt h in
    let (_, u_is) =
      get_data_for_chat_queue-ok (red_packet_delivery input user token message_id) w u q hq in
    let (id, u2, hp, h2) = bind-ok _ _ u v tt h1 in
    let (id_is, u2_is) = pure-ok 0 id u u2 hp in
    let put : v ≡ queued input user token message_id q id u2 =
      sym (ap (λ (z : Result (Unit {0}) × World). z.1) h2) in
    (
      q,
      put
          ∙ ap₂ (queued input user token message_id q) (sym id_is) u2_is
          ∙ ap (queued input user token message_id q 0) u_is,
    )

-- The transaction, the message and the job of a red packet, and that they belong together.
pub record IsSent (user_id : ℕ) (input : SendTokenChatInput) (w v : World) (m : Message)
    : Type 0 where
  pub wallet : UserWallet
  pub allowed : IsAllowed user_id input wallet w
  pub token : UserToken
  pub token_found : find_first (λ t. t.id == input.token_id) w.tokens.rows ≡ some token
  pub token_fits : token.network_id ≡ input.network_id
  pub paid : Transaction
  pub transactions : v.transactions.rows ≡ w.transactions.rows ++ paid ∷ []
  pub pending : paid.transaction_status ≡ TransactionStatus.pending
  pub payer : (paid.user_id ≡ user_id) × (paid.user_wallet_id ≡ wallet.id)
  pub receiver : paid.to_address ≡ input.to_address
  pub amount : paid.amount ≡ w.env.raw_amount input.amount token.token_decimal
  pub messages : v.messages.rows ≡ w.messages.rows ++ m ∷ []
  pub announces : m.transaction_id ≡ some paid.id
  pub sender : (m.user_id ≡ user_id) × (m.chat_room_id ≡ input.chat_room_id)
  pub job : ChatJob
  pub chat_queue : v.chat_queue ≡ w.chat_queue ++ job ∷ []
  pub job_kind : job.kind ≡ ChatJobName.send_red_packet
  pub job_message : job.message_id ≡ m.id

job_message_id-same : (id : ℕ) → job_message_id (some id) 0 ≡ id
job_message_id-same id = ground arith

abbrev payment : SendTokenChatInput → Sender → UserWallet → UserToken → World → Transaction
payment input user wallet token w = red_packet input user wallet token w.env w.transactions.next_id

abbrev announcement : SendTokenChatInput → Sender → World → Message
announcement input user w =
    red_packet_message input user w.transactions.next_id w.env.now w.messages.next_id

-- The state after all three writes.
abbrev after_sending :
    SendTokenChatInput → Sender → UserWallet → UserToken → ChatQueueData → World → World
after_sending input user wallet token q w =
    queued input user token w.messages.next_id q 0 (record w {
      transactions = insert (red_packet input user wallet token w.env) w.transactions;
      messages = insert (red_packet_message input user w.transactions.next_id w.env.now) w.messages;
    })

-- The method after its checks.
abbrev send_checked : SendTokenChatInput → Sender → UserWallet → UserToken → Env → Exec Message
send_checked input user wallet token env = do
  paid ← save_transaction (red_packet input user wallet token env)
  message ← save_message (red_packet_message input user paid.id env.now)
  send_chat_queue_data (red_packet_delivery input user token message.id)
  pure message

send_checked-ok :
    (input : SendTokenChatInput) (user : Sender) (wallet : UserWallet) (token : UserToken)
    (w v : World) (m : Message)
    → send_checked input user wallet token w.env w ≡ (ok m, v)
    → (m ≡ announcement input user w)
      × ((q : ChatQueueData) × (v ≡ after_sending input user wallet token q w))
unfolding save_transaction save_message ◌>>=◌
send_checked-ok input user wallet token w v m h =
    let msg = announcement input user w in
    let written : World = record w {
      transactions = insert (red_packet input user wallet token w.env) w.transactions;
      messages = insert (red_packet_message input user w.transactions.next_id w.env.now) w.messages;
    } in
    let (_, u, hd, h1) =
      bind-ok (send_chat_queue_data (red_packet_delivery input user token msg.id)) (λ _. pure msg)
        written v m h in
    let (m_is, v_is) = pure-ok msg m u v h1 in
    let (q, u_is) = delivered input user token msg.id written u hd in (sym m_is, (q, v_is ∙ u_is))

after_sending-IsSent :
    (user_id : ℕ) (input : SendTokenChatInput) (user : Sender) (wallet : UserWallet)
    (token : UserToken) (q : ChatQueueData) (w : World)
    → user.id ≡ user_id
    → IsAllowed user_id input wallet w
    → find_first (λ t. t.id == input.token_id) w.tokens.rows ≡ some token
    → token.network_id ≡ input.network_id
    → IsSent user_id input w (after_sending input user wallet token q w) (announcement input user w)
after_sending-IsSent user_id input user wallet token q w caller allowed found fits = record {
  wallet = wallet;
  allowed = allowed;
  token = token;
  token_found = found;
  token_fits = fits;
  paid = payment input user wallet token w;
  transactions = refl;
  pending = refl;
  payer = (caller, refl);
  receiver = refl;
  amount = refl;
  messages = refl;
  announces = refl;
  sender = (caller, refl);
  job = chat_job (red_packet_delivery input user token w.messages.next_id) q 0;
  chat_queue = refl;
  job_kind = refl;
  job_message = job_message_id-same w.messages.next_id;
}

-- Where `sendRedpacket` returns, the caller is joined, the receiver is invited or joined, and the network of the
-- request is one of Eurus and that of the token; one pending transaction is added, which the caller pays from a
-- wallet of its own to the address of the request, one message of the caller that names the transaction, and one job
-- for that message.
pub send_red_packet-ok :
    (user_id : ℕ) (input : SendTokenChatInput) (w v : World) (m : Message)
    → send_red_packet user_id input w ≡ (ok m, v)
    → IsSent user_id input w v m
unfolding send_red_packet get_token_by_id
send_red_packet-ok user_id input w v m h =
    let (user, u, hu, h1) = bind-ok _ _ w v m h in
    let u_is =
      sym (ap (λ (z : Result Sender × World). z.1) hu)
      ∙ At.holds (get_sender-At {F = SameWorld} {w = w} user_id) in
    let (wallet, u1, hw, h2) = bind-ok _ _ u v m h1 in
    let (allowed, u1_is) = check_red_packet-ok user_id user.address input u u1 wallet hw in
    let (token, u2, ht, h3) = bind-ok _ _ u1 v m h2 in
    let (found, u2_is) = need-ok _ _ u1 u2 token (gets-bind-ok _ _ u1 u2 token ht) in
    let (fits, h4) = guard-bind-ok _ _ _ u2 v m h3 in
    let h5 = gets-bind-ok _ _ u2 v m h4 in
    let (m_is, (q, v_is)) = send_checked-ok input user wallet token u2 v m h5 in
    let sent =
      after_sending-IsSent user_id input user wallet token q u2 (get_sender-id user_id w u user hu)
        (subst (λ z. IsAllowed user_id input wallet z) (sym (u2_is ∙ u1_is)) allowed)
        (subst
          (λ z. find_first (λ (t : UserToken). t.id == input.token_id) z.tokens.rows ≡ some token)
          (sym u2_is) found)
        ((nat_beq_iff token.network_id input.network_id).0 fits) in
    subst (λ z. IsSent user_id input z v m) (u2_is ∙ u1_is ∙ u_is)
      (subst (λ z. IsSent user_id input u2 z m) (sym v_is)
        (subst (λ z. IsSent user_id input u2 (after_sending input user wallet token q u2) z)
          (sym m_is) sent))
