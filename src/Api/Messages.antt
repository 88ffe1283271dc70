-- ===== src/Api/Messages.antt =====
-- The services of messages, blocks and reports: none of them writes the table `member_in_room`.
use nestjs_ex.Api.Membership.{add_notification_to_queue-Lifecycle, send_chat_queue_data-Lifecycle}
use nestjs_ex.Api.Rooms.{get_sender-At, save_message-Lifecycle}
use nestjs_ex.ChatHelper.Frame.{get_data_for_chat_queue-At}
use nestjs_ex.Entities.{ChatRoomStatus, Message, UserBlock}
use nestjs_ex.Member.Lifecycle.{At-same_members, Lifecycle, Moves, Moves-same}
use nestjs_ex.Moderation.{AddSpamReportInput, add_remove_message, add_spam_report}
use nestjs_ex.Prelude.{Bool, Option, String, [], false, none, refl, some, true, ℕ, ◌∙◌, ◌≡◌}
use nestjs_ex.Sending.{
  SendMessageInput, deliver, get_deployed_room_by_id, send_message, update_message,
}
use nestjs_ex.Sending.Again.{
  add_to_upload_file_queue, deliver_again, get_receivers_addresses, resend_message,
}
use nestjs_ex.Sending.Marks.{retrieve_message, set_pinned}
use nestjs_ex.Store.Keyed.{Evolves-same}
use nestjs_ex.UserBlocks.{
  BlockInput, UnblockInput, block_body, block_user, release_pair, release_rooms, save_block,
  unblock_body, unblock_user, update_block, update_p2p_chat_room_status,
}
use nestjs_ex.World.{Exec, Result, World, err, modify, ok, rolled_back, transaction}
use nestjs_ex.World.Laws.{
  At, At-bind, At-for_each, At-gets-bind, At-guard-bind, At-modify, At-need-bind, At-not_awaited,
  At-pure, Frame,
}

pub get_deployed_room_by_id-At :
    {F : Frame} {w : World} (id : ℕ) → At F w (get_deployed_room_by_id id)
unfolding get_deployed_room_by_id
get_deployed_room_by_id-At id = At-gets-bind _ _ (
    At-need-bind _ _ _ λ room e. At-guard-bind _ _ _ λ fine. At-guard-bind _ _ _ λ ready. At-pure _)

deliver-Lifecycle :
    {w : World} (g : Bool) (user_id : ℕ) (address : String) (content : Option String)
    (room_id message_id : ℕ)
    → At Lifecycle w (deliver g user_id address content room_id message_id)
unfolding deliver
deliver-Lifecycle true user_id address content room_id message_id = send_chat_queue_data-Lifecycle _
deliver-Lifecycle false user_id address content room_id message_id =
    At-gets-bind _ _ (At-need-bind _ _ _ λ other e. send_chat_queue_data-Lifecycle _)

pub send_message-Lifecycle :
    {w : World} (user_id : ℕ) (input : SendMessageInput)
    → At Lifecycle w (send_message user_id input)
unfolding send_message
send_message-Lifecycle user_id input = At-bind _ _ (get_sender-At user_id) λ user u.
    At-bind _ _ (get_deployed_room_by_id-At _) λ room v. At-gets-bind _ _ (
      At-need-bind _ _ _ λ joined e. At-need-bind _ _ _ λ kind e'. At-gets-bind _ _ (
        At-bind _ _ (save_message-Lifecycle _)
          λ m x. At-bind _ _ (deliver-Lifecycle _ _ _ _ _ _) λ _ y. At-pure _))

update_message-Lifecycle : {w : World} (m : Message) → At Lifecycle w (update_message m)
unfolding update_message modify
update_message-Lifecycle m = At-same_members _ refl

get_receivers_addresses-At :
    {F : Frame} {w : World} (user_id room_id : ℕ) (g : Bool)
    → At F w (get_receivers_addresses user_id room_id g)
unfolding get_receivers_addresses
get_receivers_addresses-At user_id room_id true = At-pure []
get_receivers_addresses-At user_id room_id false =
    At-gets-bind _ _ (At-need-bind _ _ _ λ other e. At-pure _)

pub add_to_upload_file_queue-Lifecycle :
    {w : World} (user_id : ℕ) (address : String) (room_id message_id file_id : ℕ)
    → At Lifecycle w (add_to_upload_file_queue user_id address room_id message_id file_id)
unfolding add_to_upload_file_queue
add_to_upload_file_queue-Lifecycle user_id address room_id message_id file_id =
    At-bind _ _ (get_data_for_chat_queue-At _) λ q u.
      At-bind _ _ (get_receivers_addresses-At _ _ _)
        λ rs v. At-modify _ (λ k. (k, Evolves-same Moves Moves-same _))

deliver_again-Lifecycle :
    {w : World} (user_id : ℕ) (address : String) (old updated : Message) (g : Bool) (o : Option ℕ)
    → At Lifecycle w (deliver_again user_id address old updated g o)
unfolding deliver_again
deliver_again-Lifecycle user_id address old updated g (some file_id) =
    At-bind _ _ (At-not_awaited _ (add_to_upload_file_queue-Lifecycle _ _ _ _ _))
      λ _ u. At-pure none
deliver_again-Lifecycle user_id address old updated g none =
    At-bind _ _ (deliver-Lifecycle _ _ _ _ _ _) λ _ u. At-pure _

pub resend_message-Lifecycle :
    {w : World} (user_id id : ℕ) → At Lifecycle w (resend_message user_id id)
unfolding resend_message
resend_message-Lifecycle user_id id = At-bind _ _ (get_sender-At user_id) λ user u.
    At-gets-bind _ _ (
      At-need-bind _ _ _ λ old e. At-guard-bind _ _ _ λ failed. At-guard-bind _ _ _ λ own.
        At-bind _ _ (get_deployed_room_by_id-At _) λ room v.
          At-gets-bind _ _
            (At-bind _ _ (update_message-Lifecycle _) λ _ x. deliver_again-Lifecycle _ _ _ _ _ _))

pub set_pinned-Lifecycle :
    {w : World} (pinned : Bool) (user_id id : ℕ) → At Lifecycle w (set_pinned pinned user_id id)
unfolding set_pinned
set_pinned-Lifecycle pinned user_id id = At-gets-bind _ _ (
    At-need-bind _ _ _ λ m e. At-gets-bind _ _ (
      At-guard-bind _ _ _ λ is_in. At-gets-bind _ _ (
        At-gets-bind _ _ (
          At-bind _ _ (update_message-Lifecycle _) λ _ u.
            At-bind _ _
              (At-for_each _ _
                (λ x v. At-need-bind _ _ _ λ r e'. add_notification_to_queue-Lifecycle _) u)
              λ _ x. At-pure tt))))

pub retrieve_message-Lifecycle :
    {w : World} (user_id id : ℕ) → At Lifecycle w (retrieve_message user_id id)
unfolding retrieve_message
retrieve_message-Lifecycle user_id id = At-gets-bind _ _ (
    At-need-bind _ _ _ λ m e. At-guard-bind _ _ _ λ own.
      At-bind _ _ (At-modify _ (λ k. (k, Evolves-same Moves Moves-same _))) λ _ u.
        At-gets-bind _ _ (
          At-bind _ _ (At-for_each _ _ (λ x v. add_notification_to_queue-Lifecycle _) u)
            λ _ x. At-pure tt))

pub add_remove_message-Lifecycle :
    {w : World} (user_id id : ℕ) → At Lifecycle w (add_remove_message user_id id)
unfolding add_remove_message
add_remove_message-Lifecycle user_id id = At-gets-bind _ _ (
    At-need-bind _ _ _ λ m e. At-guard-bind _ _ _ λ a. At-gets-bind _ _ (
      At-guard-bind _ _ _ λ b. At-gets-bind _ _ (
        At-guard-bind _ _ _ λ c. At-gets-bind _ _ (
          At-bind _ _ (At-modify _ (λ k. (k, Evolves-same Moves Moves-same _))) λ _ u. At-pure _))))

pub add_spam_report-Lifecycle :
    {w : World} (user_id : ℕ) (input : AddSpamReportInput)
    → At Lifecycle w (add_spam_report user_id input)
unfolding add_spam_report
add_spam_report-Lifecycle user_id input = At-gets-bind _ _ (
    At-need-bind _ _ _ λ m e. At-guard-bind _ _ _ λ a. At-guard-bind _ _ _ λ d. At-gets-bind _ _ (
      At-guard-bind _ _ _ λ b. At-gets-bind _ _ (
        At-guard-bind _ _ _ λ c. At-gets-bind _ _ (
          At-bind _ _ (At-modify _ (λ k. (k, Evolves-same Moves Moves-same _))) λ _ u. At-pure _))))

-- A transaction that fails leaves the state as it was.
transaction-members :
    (m : Exec (Unit {0})) (w : World)
    → (m w).1.members ≡ w.members
    → (transaction m w).1.members ≡ w.members
unfolding transaction
transaction-members m w e = rolled (m w).0 (m w).1 e
  where
    rolled :
        (r : Result (Unit {0})) (v : World)
        → v.members ≡ w.members
        → (rolled_back w (r, v)).1.members ≡ w.members
    rolled (ok x) v h = h
    rolled (err x) v h = refl

-- The table of members stays.
abbrev SameMembers : Frame
SameMembers = record {
  Rel = λ v w. w.members ≡ v.members;
  same = λ w. refl;
  trans = λ u v w p q. q ∙ p;
}

update_status-At :
    {w : World} (user_id : ℕ) (address : String) (s : ChatRoomStatus)
    → At SameMembers w (update_p2p_chat_room_status user_id address s)
unfolding update_p2p_chat_room_status
update_status-At user_id address s = At-modify _ refl

update_block-At : {w : World} (b : UserBlock) → At SameMembers w (update_block b)
unfolding update_block
update_block-At b = At-modify _ refl

save_block-At :
    {w : World} (user_id : ℕ) (input : BlockInput) (o : Option UserBlock)
    → At SameMembers w (save_block user_id input o)
unfolding save_block
save_block-At user_id input (some b) = update_block-At _
save_block-At user_id input none =
    At-gets-bind _ _ (At-need-bind _ _ _ λ wallet e. At-modify _ refl)

release_rooms-At :
    {w : World} (user_id : ℕ) (input : UnblockInput) (o : Option UserBlock)
    → At SameMembers w (release_rooms user_id input o)
unfolding release_rooms
release_rooms-At user_id input (some b) = At-pure tt
release_rooms-At user_id input none = update_status-At _ _ _

release_pair-At :
    {w : World} (user_id : ℕ) (input : UnblockInput) (o : Option UserBlock)
    → At SameMembers w (release_pair user_id input o)
unfolding release_pair
release_pair-At user_id input none = At-pure tt
release_pair-At user_id input (some b) =
    At-bind _ _ (update_block-At _) λ _ u. At-gets-bind _ _ (release_rooms-At _ _ _)

pub block_user-members :
    (user_id : ℕ) (input : BlockInput) (w : World)
    → (block_user user_id input w).1.members ≡ w.members
unfolding block_user
block_user-members user_id input w =
    let body : At SameMembers w (block_body user_id input) =
      At-gets-bind _ _ (At-bind _ _ (save_block-At _ _ _) λ _ u. update_status-At _ _ _) in
    transaction-members (block_body user_id input) w body.holds

pub unblock_user-members :
    (user_id : ℕ) (input : UnblockInput) (w : World)
    → (unblock_user user_id input w).1.members ≡ w.members
unfolding unblock_user
unblock_user-members user_id input w =
    let body : At SameMembers w (unblock_body user_id input) =
      At-gets-bind _ _ (release_pair-At _ _ _) in
    transaction-members (unblock_body user_id input) w body.holds
