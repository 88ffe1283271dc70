-- ===== src/Member/Approve.antt =====
-- src/member-in-room/services/member-in-room.service.ts, lines 818 to 866 and 927 to 992: what the owner
-- asks the chain to do with members that have accepted or joined.
use nestjs_ex.ChatHelper.{SendChatQueueDataInput, send_chat_queue_data}
use nestjs_ex.Entities.{ChatJobName, MemberInRoom, MemberStatus, Role, member_status_eq, role_eq}
use nestjs_ex.Member.{find_joined_member_by_user_id, in_addresses, show_null}
use nestjs_ex.Prelude.{
  Bool, List, Option, String, [], if◌then◌else◌, includes, leb, length, map, nat_eq, none, not,
  select, some, text_eq, true, ℕ, ◌&&◌, ◌+++◌, ◌==◌, ◌∷◌,
}
use nestjs_ex.RoomNotificationTx.{check_processing_addresses}
use nestjs_ex.World.{
  Env, Exec, address_in_progress, different_roles, gets, guard, need, no_permission, pure,
  type_error, user_not_owner, ◌>>=◌, ◌>>◌,
}

pub record ApproveMembersInput : Type 0 where
  pub addresses : List String
  pub room_id : ℕ

-- `nickname || displayName`
abbrev pub call_name : MemberInRoom → Option String
call_name m = elim m.nickname [ none ↦ m.display_name | some n ↦ some n ]

abbrev pub is_pending_at : Env → ApproveMembersInput → MemberInRoom → Bool
is_pending_at env input m =
    (m.chat_room_id == input.room_id)
    && in_addresses env input.addresses m
    && (m.status == MemberStatus.pending_approval)

-- The receivers are the addresses of the request, not those of the rows that were found.
abbrev pub approval :
    ApproveMembersInput → MemberInRoom → List MemberInRoom → SendChatQueueDataInput
approval input sender pending = record {
  room_id = input.room_id;
  from_user_id = sender.user_id;
  from_wallet_address = sender.wallet_address;
  to_wallet_addresses = input.addresses;
  message_contents = map (λ m. show_null (call_name m) +++ " joined the room") pending;
  job_name = ChatJobName.accept_join_group;
  token_amount = none;
  token_decimal = none;
  content = none;
  message_id = none;
}

unfoldable pub approve_member : ℕ → ApproveMembersInput → Exec (List MemberInRoom)
approve_member user_id input = do
  found ← gets (find_joined_member_by_user_id user_id input.room_id)
  sender ← need found type_error
  guard (not (sender.role == Role.member)) no_permission
  pending ← gets (λ w. select (is_pending_at w.env input) w.members.rows)
  in_progress ← gets (check_processing_addresses input.room_id input.addresses)
  guard (not in_progress) address_in_progress
  send_chat_queue_data (approval input sender pending)
  pure pending

-- `role` is the text of the request, which the DTO does not restrict.
pub record EditMemberRoleInput : Type 0 where
  pub room_id : ℕ
  pub user_ids : List ℕ
  pub role : String

-- `MEMBER_IN_ROOM_ROLE`
abbrev pub role_text : Role → String
role_text Role.member = "member"
role_text Role.admin = "admin"
role_text Role.owner = "owner"

-- `[...new Set(roles)]`
unfoldable pub distinct : List Role → List Role
distinct [] = []
distinct (r ∷ rs) = r ∷ select (λ x. not (x == r)) (distinct rs)

-- `role !== currentRole[0]`, where the latter may be undefined.
abbrev pub differs_from_first : String → List Role → Bool
differs_from_first role [] = true
differs_from_first role (r ∷ rs) = not (role == role_text r)

abbrev is_joined_among : EditMemberRoleInput → MemberInRoom → Bool
is_joined_among input m =
    (m.chat_room_id == input.room_id)
    && includes input.user_ids m.user_id
    && (m.status == MemberStatus.joined)

abbrev pub edit_role_job : String → ChatJobName
edit_role_job role =
    if role == role_text Role.admin then ChatJobName.set_admin else ChatJobName.remove_admin

abbrev edition : EditMemberRoleInput → MemberInRoom → List MemberInRoom → SendChatQueueDataInput
edition input owner members = record {
  room_id = input.room_id;
  from_user_id = owner.user_id;
  from_wallet_address = owner.wallet_address;
  to_wallet_addresses = map (λ m. m.wallet_address) members;
  message_contents = map (λ m. show_null (call_name m) +++ " is now " +++ input.role) members;
  job_name = edit_role_job input.role;
  token_amount = none;
  token_decimal = none;
  content = none;
  message_id = none;
}

-- `if (role !== currentRole[0] && role !== OWNER)`
unfoldable pub request_edition :
    EditMemberRoleInput → MemberInRoom → List MemberInRoom → List Role → Exec (Unit {0})
request_edition input owner members current_role =
    if differs_from_first input.role current_role && not (input.role == role_text Role.owner)
    then send_chat_queue_data (edition input owner members)
    else pure tt

unfoldable pub edit_member_role : ℕ → EditMemberRoleInput → Exec (List MemberInRoom)
edit_member_role user_id input = do
  found ← gets (find_joined_member_by_user_id user_id input.room_id)
  owner ← need found user_not_owner
  guard (owner.role == Role.owner) user_not_owner
  members ← gets (λ w. select (is_joined_among input) w.members.rows)
  let current_role = distinct (map (λ m. m.role) members)
  guard (leb (length current_role) 1) different_roles
  in_progress ←
      gets (check_processing_addresses input.room_id (map (λ m. m.wallet_address) members))
  guard (not in_progress) address_in_progress
  request_edition input owner members current_role
  pure members
