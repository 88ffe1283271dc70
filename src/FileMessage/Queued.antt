-- ===== src/FileMessage/Queued.antt =====
-- src/message/services/message.service.ts, lines 1338 to 1434: what a message with a file leaves.
use mathlib.Core.Path.{ap₂, subst}
use nestjs_ex.Api.Rooms.{get_sender-At}
use nestjs_ex.ChatHelper.Frame.{SameWorld, kept}
use nestjs_ex.Entities.{
  ChatRoom, ChatRoomStatus, File, Message, MessageStatus, Network, UploadJob, member_status_eq,
  message_status_eq, room_status_beq_iff, room_status_eq,
}
use nestjs_ex.FileMessage.{
  CreateFileMessageInput, check_room_is_deployed_and_in_supported_network, check_user_joined_room,
  create_file_message, file_message, upload_path,
}
use nestjs_ex.FileMessage.Job.{JobOrNone, not_awaited-JobOrNone}
use nestjs_ex.Files.{MulterFile, create_file}
use nestjs_ex.Files.Owned.{create_file-ok}
use nestjs_ex.Member.{find_joined_member_by_user_id}
use nestjs_ex.Message.{save_message}
use nestjs_ex.Network.{get_by_id, is_network_used_on_chat}
use nestjs_ex.Network.Found.{get_by_id-ok}
use nestjs_ex.Prelude.{
  [], ap, find_first, includes, inl, inr, is_some, nat_eq, refl, some, sym, text_eq, true, ℕ, ◌++◌,
  ◌==◌, ◌∙◌, ◌∷◌, ◌≡◌, ◌⊎◌,
}
use nestjs_ex.Sender.{Sender, get_sender}
use nestjs_ex.Sending.Again.{add_to_upload_file_queue}
use nestjs_ex.Sending.Delivery.{get_sender-id}
use nestjs_ex.Store.{insert}
use nestjs_ex.World.{Env, Exec, World, gets, not_awaited, ok, pure, ◌>>=◌, ◌>>◌}
use nestjs_ex.World.Outcome.{
  bind-ok, gets-bind-ok, guard-bind-ok, guard-ok, need-bind-ok, pure-ok, same_outcome,
}

-- The file, the message and the job, and that they belong together.
pub record IsUploaded (user_id : ℕ) (input : CreateFileMessageInput) (w v : World) (m : Message)
    : Type 0 where
  pub room : ChatRoom
  pub room_found : find_first (λ r. r.id == input.chat_room_id) w.rooms.rows ≡ some room
  pub deployed : room.status ≡ ChatRoomStatus.deployed
  pub network : Network
  pub network_found : find_first (λ n. n.id == room.network_id) w.networks ≡ some network
  pub listed : includes w.env.chat_network_chain_ids network.chain_id ≡ true
  pub joined : is_some (find_joined_member_by_user_id user_id input.chat_room_id w) ≡ true
  pub file : File
  pub files : v.files.rows ≡ w.files.rows ++ file ∷ []
  pub owner : file.owner_id ≡ user_id
  pub messages : v.messages.rows ≡ w.messages.rows ++ m ∷ []
  pub content : m.content ≡ some (w.env.text_of_number file.id)
  pub sender : (m.user_id ≡ user_id) × (m.chat_room_id ≡ input.chat_room_id)
  pub status : m.status ≡ MessageStatus.in_progress
  pub queued :
      (v.encrypt_file_queue ≡ w.encrypt_file_queue)
      ⊎ ((job : UploadJob) × (job.message_id ≡ m.id)
          × (job.file_id ≡ file.id)
          × (v.encrypt_file_queue ≡ w.encrypt_file_queue ++ job ∷ []))

-- What the check of the room found.
abbrev RoomFits : ℕ → World → Type 0
RoomFits room_id w =
    (room : ChatRoom) × (network : Network) × (find_first (λ r. r.id == room_id) w.rooms.rows
      ≡ some room)
    × (room.status ≡ ChatRoomStatus.deployed)
    × (find_first (λ n. n.id == room.network_id) w.networks ≡ some network)
    × (includes w.env.chat_network_chain_ids network.chain_id ≡ true)

check_room-ok :
    (room_id : ℕ) (w v : World)
    → check_room_is_deployed_and_in_supported_network room_id w ≡ (ok tt, v)
    → RoomFits room_id w × (v ≡ w)
unfolding check_room_is_deployed_and_in_supported_network is_network_used_on_chat gets
check_room-ok room_id w v h =
    let (room, here, h1) = need-bind-ok _ _ _ w v tt (gets-bind-ok _ _ w v tt h) in
    let (ready, h2) = guard-bind-ok _ _ _ w v tt h1 in
    let (used, u, hu, h3) = bind-ok (is_network_used_on_chat room.network_id) _ w v tt h2 in
    let (network, u1, hg, h4) = bind-ok (get_by_id room.network_id) _ w u used hu in
    let (stored, u1_is) = get_by_id-ok room.network_id w u1 network hg in
    let (listed, u_is) = same_outcome h4 in
    let (fits, v_is) = guard-ok _ _ u v h3 in
    (
      (
        room,
        network,
        here,
        (room_status_beq_iff room.status ChatRoomStatus.deployed).0 ready,
        stored,
        ap (λ (z : World). includes z.env.chat_network_chain_ids network.chain_id) (sym u1_is)
            ∙ listed
            ∙ fits,
      ),
      v_is ∙ u_is ∙ u1_is,
    )

-- The state after the message is saved.
abbrev with_file_message : CreateFileMessageInput → Sender → File → ℕ → World → World
with_file_message input user file next w = record w {
  files = record { rows = w.files.rows ++ file ∷ []; next_id = next };
  messages = insert (file_message input user file.id w.env) w.messages;
}

after_saving-IsUploaded :
    (user_id : ℕ) (input : CreateFileMessageInput) (user : Sender) (file : File) (next : ℕ)
    (w v : World)
    → user.id ≡ user_id
    → file.owner_id ≡ user_id
    → RoomFits input.chat_room_id w
    → is_some (find_joined_member_by_user_id user_id input.chat_room_id w) ≡ true
    → JobOrNone w.messages.next_id file.id (with_file_message input user file next w) v
    → IsUploaded user_id input w v (file_message input user file.id w.env w.messages.next_id)
after_saving-IsUploaded user_id input user file next w v caller owned fits joined job =
    let same = tables job in
    record {
      room = fits.0;
      room_found = fits.2;
      deployed = fits.3;
      network = fits.1;
      network_found = fits.4;
      listed = fits.5;
      joined = joined;
      file = file;
      files = same.0;
      owner = owned;
      messages = same.1;
      content = refl;
      sender = (caller, refl);
      status = refl;
      queued = queue job;
    }
  where
    z : World
    z = with_file_message input user file next w

    tables :
        JobOrNone w.messages.next_id file.id z v
        → (v.files.rows ≡ z.files.rows) × (v.messages.rows ≡ z.messages.rows)
    tables (inl e) = (ap (λ (x : World). x.files.rows) e, ap (λ (x : World). x.messages.rows) e)
    tables (inr (j, _, _, e)) =
        (ap (λ (x : World). x.files.rows) e, ap (λ (x : World). x.messages.rows) e)

    queue :
        JobOrNone w.messages.next_id file.id z v
        → (v.encrypt_file_queue ≡ w.encrypt_file_queue)
          ⊎ ((job : UploadJob) × (job.message_id ≡ w.messages.next_id)
              × (job.file_id ≡ file.id)
              × (v.encrypt_file_queue ≡ w.encrypt_file_queue ++ job ∷ []))
    queue (inl e) = inl (ap World.encrypt_file_queue e)
    queue (inr (j, a, b, e)) = inr (j, a, b, ap World.encrypt_file_queue e)

-- The method after its checks.
abbrev store_and_queue : ℕ → CreateFileMessageInput → MulterFile → Sender → Env → Exec Message
store_and_queue user_id input file user env = do
  file_id ← create_file user_id file (upload_path env input.chat_room_id user_id)
  message ← save_message (file_message input user file_id env)
  not_awaited (add_to_upload_file_queue user_id user.address input.chat_room_id message.id file_id)
  pure message

store_and_queue-ok :
    (user_id : ℕ) (input : CreateFileMessageInput) (f : MulterFile) (user : Sender) (w v : World)
    (m : Message)
    → user.id ≡ user_id
    → RoomFits input.chat_room_id w
    → is_some (find_joined_member_by_user_id user_id input.chat_room_id w) ≡ true
    → store_and_queue user_id input f user w.env w ≡ (ok m, v)
    → IsUploaded user_id input w v m
unfolding save_message
store_and_queue-ok user_id input f user w v m caller fits joined h =
    let (id, u, hf, h1) =
      bind-ok (create_file user_id f (upload_path w.env input.chat_room_id user_id)) _ w v m h in
    let (file, file_id, owned, (next, u_is)) =
      create_file-ok user_id f (upload_path w.env input.chat_room_id user_id) w u id hf in
    let (x, u1, hs, h2) = bind-ok (save_message (file_message input user id w.env)) _ u v m h1 in
    let (x_is, u1_is) = same_outcome hs in
    let (_, u2, hq, h3) = bind-ok (not_awaited _) _ u1 v m h2 in
    let (m_is, v_is) = pure-ok x m u2 v h3 in
    let job = not_awaited-JobOrNone user_id user.address input.chat_room_id x.id id u1 u2 hq in
    let saved : u1 ≡ with_file_message input user file next w =
      u1_is
      ∙ ap₂
          (λ i (z : World). record z {
            messages = insert (file_message input user i w.env) z.messages;
          })
          (sym file_id) u_is in
    let x_id : x.id ≡ w.messages.next_id =
      sym (ap Message.id x_is) ∙ ap (λ (z : World). z.messages.next_id) u_is in
    let there : JobOrNone w.messages.next_id file.id (with_file_message input user file next w) v =
      subst (λ z. JobOrNone w.messages.next_id file.id (with_file_message input user file next w) z)
        (sym v_is)
        (subst (λ z. JobOrNone w.messages.next_id file.id z u2) saved
          (subst (λ i. JobOrNone w.messages.next_id i u1 u2) (sym file_id)
            (subst (λ i. JobOrNone i id u1 u2) x_id job))) in
    let made =
      after_saving-IsUploaded user_id input user file next w v caller owned fits joined there in
    let row_is : file_message input user file.id w.env w.messages.next_id ≡ m =
      ap₂ (λ i j. file_message input user i w.env j) file_id
        (sym (ap (λ (z : World). z.messages.next_id) u_is))
      ∙ x_is
      ∙ m_is in
    subst (IsUploaded user_id input w v) row_is made

-- Where `createFileMessage` returns, the room is deployed, on a network whose chain is one of `CHAT_NETWORK_CHAINIDS`,
-- and the caller has joined it; one file of the caller is added, one message of the caller in progress whose content
-- is the number of this file, and at most one job on the upload queue, which names the message and the file.
pub create_file_message-ok :
    (user_id : ℕ) (input : CreateFileMessageInput) (file : MulterFile) (w v : World) (m : Message)
    → create_file_message user_id input file w ≡ (ok m, v)
    → IsUploaded user_id input w v m
unfolding create_file_message check_user_joined_room
create_file_message-ok user_id input file w v m h =
    let (user, u, hu, h1) = bind-ok (get_sender user_id) _ w v m h in
    let u_is : u ≡ w = kept _ w u user (get_sender-At {F = SameWorld} user_id) hu in
    let (_, u1, hc, h2) =
      bind-ok (check_room_is_deployed_and_in_supported_network input.chat_room_id) _ u v m h1 in
    let (fits, u1_is) = check_room-ok input.chat_room_id u u1 hc in
    let (_, u2, hj, h3) = bind-ok (check_user_joined_room user_id input.chat_room_id) _ u1 v m h2 in
    let (joined, u2_is) = guard-ok _ _ u1 u2 (gets-bind-ok _ _ u1 u2 tt hj) in
    let start : u2 ≡ w = u2_is ∙ u1_is ∙ u_is in
    subst (λ z. IsUploaded user_id input z v m) start
      (store_and_queue-ok user_id input file user u2 v m (get_sender-id user_id w u user hu)
        (subst (RoomFits input.chat_room_id) (sym (u2_is ∙ u1_is)) fits)
        (subst (λ z. is_some (find_joined_member_by_user_id user_id input.chat_room_id z) ≡ true)
          (sym u2_is) joined)
        (gets-bind-ok _ _ u2 v m h3))
