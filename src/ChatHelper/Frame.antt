-- ===== src/ChatHelper/Frame.antt =====
-- src/shared/chat-helper/services/chat-helper.service.ts: what a chat transaction leaves alone.
use nestjs_ex.ChatHelper.{
  SendChatQueueDataInput, create_room_action_tx, find_room_by_id, get_data_for_chat_queue,
  notify_receiver, send_chat_queue_data, write_action, write_leave, write_notifications,
  write_records,
}
use nestjs_ex.Entities.{ChatJobName, message_type_eq}
use nestjs_ex.Message.{
  CreateNotificationMessageInput, create_action_type_message, create_notification_message,
}
use nestjs_ex.Network.{
  get_by_id, get_network_fee_by_level, get_parent_network_by_chain_id, is_shared_networks,
  same_name,
}
use nestjs_ex.NetworkFee.{get_network_fees}
use nestjs_ex.Prelude.{
  Option, String, ap, nat_eq, none, refl, some, sym, text_eq, true, ℕ, ◌==◌, ◌∙◌, ◌≡◌,
}
use nestjs_ex.RoomNotificationTx.{create_notification_tx}
use nestjs_ex.World.{Exec, Result, World, ok}
use nestjs_ex.World.Laws.{
  At, At-bind, At-for_each, At-gets, At-gets-bind, At-guard-bind, At-if, At-modify, At-need,
  At-need-bind, At-not_awaited, At-pure, At-raise, Frame,
}

-- The tables of rooms and members stay as they are, and so do the outside values.
abbrev pub SameRooms : Frame
SameRooms = record {
  Rel = λ v w.
      (w.members ≡ v.members) × (w.rooms ≡ v.rooms) × (w.env ≡ v.env) × (w.blocks ≡ v.blocks);
  same = λ w. (refl, refl, refl, refl);
  trans = λ u v w p q. (q.0 ∙ p.0, q.1 ∙ p.1, q.2 ∙ p.2, q.3 ∙ p.3);
}

-- The whole state stays as it is.
abbrev pub SameWorld : Frame
SameWorld = record { Rel = λ v w. w ≡ v; same = λ w. refl; trans = λ u v w p q. q ∙ p }

pub get_by_id-At : {F : Frame} {w : World} (id : ℕ) → At F w (get_by_id id)
unfolding get_by_id
get_by_id-At id = At-gets-bind _ _ (At-need _ _)

pub is_shared_networks-At : {F : Frame} {w : World} (a b : ℕ) → At F w (is_shared_networks a b)
unfolding is_shared_networks
is_shared_networks-At a b =
    At-if (a == b) (λ _. At-pure true)
      (λ _. At-bind _ _ (get_by_id-At a) λ na u. At-bind _ _ (get_by_id-At b) λ nb v.
        At-if
          (same_name (get_parent_network_by_chain_id na.chain_id)
            (get_parent_network_by_chain_id nb.chain_id))
          (λ _. At-pure true) (λ _. At-pure _))

get_network_fees-At :
    {F : Frame} {w : World} (name : Option String) → At F w (get_network_fees name)
unfolding get_network_fees
get_network_fees-At none = At-raise _
get_network_fees-At (some name) = At-gets _

pub get_network_fee_by_level-At :
    {F : Frame} {w : World} (id : ℕ) (level : String) → At F w (get_network_fee_by_level id level)
unfolding get_network_fee_by_level
get_network_fee_by_level-At id level =
    At-bind _ _ (get_by_id-At id) λ n u. At-bind _ _ (get_network_fees-At _) λ fees v. At-gets _

-- Preparing a transaction only reads.
pub get_data_for_chat_queue-At :
    {F : Frame} {w : World} (input : SendChatQueueDataInput)
    → At F w (get_data_for_chat_queue input)
unfolding get_data_for_chat_queue find_room_by_id
get_data_for_chat_queue-At input = At-bind _ _ (At-gets-bind _ _ (At-need _ _)) λ room u.
    At-gets-bind _ _ (
      At-need-bind _ _ _ λ wallet e. At-bind _ _ (is_shared_networks-At _ _) λ can v.
        At-guard-bind _ _ _
          λ shared. At-bind _ _ (get_network_fee_by_level-At _ _) λ fee x. At-pure _)

create_notification_tx-At :
    {w : World} (room_id : ℕ) (address : String) (kind : ChatJobName) (message_id : ℕ)
    → At SameRooms w (create_notification_tx room_id address kind message_id)
unfolding create_notification_tx
create_notification_tx-At room_id address kind message_id = record {
  holds = (refl, refl, refl, refl);
}

create_room_action_tx-At :
    {w : World} (room_id : ℕ) (address : String) (kind : ChatJobName) (content : String)
    (message_id : ℕ)
    → At SameRooms w (create_room_action_tx room_id address kind content message_id)
unfolding create_room_action_tx
create_room_action_tx-At room_id address kind content message_id = record {
  holds = (refl, refl, refl, refl);
}

create_notification_message-At :
    {w : World} (input : CreateNotificationMessageInput)
    → At SameRooms w (create_notification_message input)
unfolding create_notification_message
create_notification_message-At input = record { holds = (refl, refl, refl, refl) }

create_action_type_message-At :
    {w : World} (input : CreateNotificationMessageInput)
    → At SameRooms w (create_action_type_message input)
unfolding create_action_type_message
create_action_type_message-At input = record { holds = (refl, refl, refl, refl) }

write_action-At :
    {w : World} (input : SendChatQueueDataInput) (job_name : ChatJobName) (room_id : ℕ)
    → At SameRooms w (write_action input job_name room_id)
unfolding write_action
write_action-At input job_name room_id =
    At-bind _ _ (create_action_type_message-At _)
      λ m u. At-bind _ _ (create_room_action_tx-At _ _ _ _ _) λ tx v. At-pure _

notify_receiver-At :
    {w : World} (room_id : ℕ) (kind : ChatJobName) (message_id : ℕ) (address : String)
    → At SameRooms w (notify_receiver room_id kind message_id address)
unfolding notify_receiver
notify_receiver-At room_id kind message_id address =
    At-not_awaited _ (At-bind _ _ (create_notification_tx-At _ _ _ _) λ _ v. At-pure tt)

write_notifications-At :
    {w : World} (input : SendChatQueueDataInput) (room_id : ℕ)
    → At SameRooms w (write_notifications input room_id)
unfolding write_notifications
write_notifications-At input room_id =
    At-bind _ _ (create_notification_message-At _)
      λ m u. At-bind _ _ (At-for_each _ _ (λ a v. notify_receiver-At _ _ _ a) u) λ txs v. At-pure _

write_leave-At :
    {w : World} (input : SendChatQueueDataInput) (room_id : ℕ)
    → At SameRooms w (write_leave input room_id)
unfolding write_leave
write_leave-At input room_id =
    At-bind _ _ (create_notification_message-At _)
      λ m u. At-bind _ _ (create_notification_tx-At _ _ _ _) λ tx v. At-pure _

write_records-At :
    {w : World} (input : SendChatQueueDataInput) (job_name : ChatJobName) (room_id : ℕ)
    → At SameRooms w (write_records input job_name room_id)
unfolding write_records
write_records-At input ChatJobName.leave_room room_id = write_leave-At input room_id
write_records-At input ChatJobName.change_group_name room_id = write_action-At input _ room_id
write_records-At input ChatJobName.create_group_chat room_id = write_action-At input _ room_id
write_records-At input ChatJobName.redeploy_group_chat room_id = write_action-At input _ room_id
write_records-At input ChatJobName.remove_members room_id = write_notifications-At input room_id
write_records-At input ChatJobName.accept_join_group room_id = write_notifications-At input room_id
write_records-At input ChatJobName.set_admin room_id = write_notifications-At input room_id
write_records-At input ChatJobName.remove_admin room_id = write_notifications-At input room_id
write_records-At input _ room_id = At-pure 0

-- A chat transaction changes no room, no member and no block.
pub send_chat_queue_data-At :
    {w : World} (input : SendChatQueueDataInput) → At SameRooms w (send_chat_queue_data input)
unfolding send_chat_queue_data
send_chat_queue_data-At input = At-bind _ _ (get_data_for_chat_queue-At input) λ queue_data u.
    At-bind _ _ (write_records-At input _ _) λ message_id v. At-modify _ (refl, refl, refl, refl)

-- A method that returned and leaves the state as it is.
pub kept :
    {A : Type 0} (m : Exec A) (w u : World) (a : A) → At SameWorld w m → m w ≡ (ok a, u) → u ≡ w
kept {A} m w u a h e = sym (ap (λ (z : Result A × World). z.1) e) ∙ h.holds
