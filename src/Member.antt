-- ===== src/Member.antt =====
-- src/member-in-room/services/member-in-room.service.ts, lines 64 to 259 and 563 to 591: the reads of the
-- table `member_in_room`, the test of a role, and the text of an invitation's notification.
-- `findOne` returns the first matching row in the order of the primary key.
pub mod Preferences
pub mod Invite
pub mod Remove
pub mod Approve
pub mod Lifecycle
pub mod Capacity
use nestjs_ex.Entities.{
  ChatRoom, MemberInRoom, MemberStatus, Notification, Role, User, UserContact, member_status_eq,
  role_eq,
}
use nestjs_ex.Prelude.{
  Bool, List, Option, String, [], any, count_where, false, find_first, includes, nat_eq, none, not,
  or_else, select, some, text_eq, ℕ, ◌&&◌, ◌++◌, ◌==◌, ◌∷◌,
}
use nestjs_ex.Store.{insert, update_rows}
use nestjs_ex.World.{Env, Exec, World, modify, ok}

-- `Object.values(ObjectTool.omit(MEMBER_IN_ROOM_STATUS, [OUT, CANCEL]))`
abbrev pub active_statuses : List MemberStatus
active_statuses = MemberStatus.joined ∷ MemberStatus.pending_approval ∷ MemberStatus.invited ∷ []

abbrev pub is_active : MemberInRoom → Bool
is_active m = includes active_statuses m.status

abbrev has_role : List Role → Option MemberInRoom → Bool
has_role roles none = false
has_role roles (some m) = includes roles m.role

unfoldable pub check_role : ℕ → ℕ → List Role → World → Bool
check_role user_id room_id roles w =
    has_role roles
      (find_first (λ m. (m.chat_room_id == room_id) && (m.user_id == user_id)) w.members.rows)

unfoldable pub is_room_owner_or_admin : ℕ → ℕ → World → Bool
is_room_owner_or_admin user_id room_id = check_role user_id room_id (Role.admin ∷ Role.owner ∷ [])

unfoldable pub is_room_owner : ℕ → ℕ → World → Bool
is_room_owner user_id room_id = check_role user_id room_id (Role.owner ∷ [])

abbrev pub is_member_with_status : ℕ → ℕ → MemberStatus → MemberInRoom → Bool
is_member_with_status user_id room_id status m =
    (m.chat_room_id == room_id) && (m.user_id == user_id) && (m.status == status)

unfoldable pub find_room_member_with_status : ℕ → ℕ → MemberStatus → World → Option MemberInRoom
find_room_member_with_status user_id room_id status w =
    find_first (is_member_with_status user_id room_id status) w.members.rows

unfoldable pub find_joined_member_by_user_id : ℕ → ℕ → World → Option MemberInRoom
find_joined_member_by_user_id user_id room_id =
    find_room_member_with_status user_id room_id MemberStatus.joined

unfoldable pub find_invited_member_by_user_id : ℕ → ℕ → World → Option MemberInRoom
find_invited_member_by_user_id user_id room_id =
    find_room_member_with_status user_id room_id MemberStatus.invited

abbrev pub is_active_at_address : Env → String → ℕ → MemberInRoom → Bool
is_active_at_address env address room_id m =
    env.same_text m.wallet_address address && (m.chat_room_id == room_id) && is_active m

unfoldable pub find_invited_or_joined_member_by_address : String → ℕ → World → Option MemberInRoom
find_invited_or_joined_member_by_address address room_id w =
    find_first (is_active_at_address w.env address room_id) w.members.rows

-- `walletAddress: In(addresses)`
abbrev pub in_addresses : Env → List String → MemberInRoom → Bool
in_addresses env addresses m = any (λ address. env.same_text m.wallet_address address) addresses

unfoldable pub find_invited_or_joined_member_by_list_address :
    List String → ℕ → World → Option MemberInRoom
find_invited_or_joined_member_by_list_address addresses room_id w =
    find_first (λ m. in_addresses w.env addresses m && (m.chat_room_id == room_id) && is_active m)
      w.members.rows

unfoldable pub find_invited_or_joined_member_by_user_id : ℕ → ℕ → World → Option MemberInRoom
find_invited_or_joined_member_by_user_id user_id room_id w =
    find_first (λ m. (m.user_id == user_id) && (m.chat_room_id == room_id) && is_active m)
      w.members.rows

unfoldable pub find_opposite_member : ℕ → ℕ → World → Option MemberInRoom
find_opposite_member current_user_id room_id w =
    find_first (λ m. (m.chat_room_id == room_id) && not (m.user_id == current_user_id))
      w.members.rows

unfoldable pub find_room_member : ℕ → MemberStatus → World → List MemberInRoom
find_room_member room_id status w =
    select (λ m. (m.chat_room_id == room_id) && (m.status == status)) w.members.rows

unfoldable pub find_room_owner : ℕ → World → Option MemberInRoom
find_room_owner room_id w =
    find_first (λ m. (m.chat_room_id == room_id) && (m.role == Role.owner)) w.members.rows

abbrev pub is_active_in_room : ℕ → MemberInRoom → Bool
is_active_in_room room_id m = (m.chat_room_id == room_id) && is_active m

unfoldable pub get_number_of_members_in_room : ℕ → World → ℕ
get_number_of_members_in_room room_id w = count_where (is_active_in_room room_id) w.members.rows

unfoldable pub get_joined_members_in_room : ℕ → World → List MemberInRoom
get_joined_members_in_room room_id = find_room_member room_id MemberStatus.joined

-- `repository.save` or `repository.update` of a row that was read: the row with its key is rewritten.
unfoldable pub update_member_in_room : MemberInRoom → Exec MemberInRoom
update_member_in_room m w =
    (ok m, record w { members = update_rows (λ x. x.id == m.id) (λ x. m) w.members })

-- `repository.save` of a new row.
unfoldable pub insert_member : (ℕ → MemberInRoom) → Exec MemberInRoom
insert_member row w = (ok (row w.members.next_id), record w { members = insert row w.members })

-- `getNotificationInfo`; both are `undefined` where the query has no row, and a column may be null.
pub record NotificationInfo : Type 0 where
  pub chat_room_name : Option (Option String)
  pub show_name : Option (Option String)

abbrev first_present : Option String → Option String → Option String
first_present none b = b
first_present (some a) b = some a

-- `ifnull(uc.name, u.name)` with `uc` from a left join.
abbrev shown_name : Option UserContact → User → Option String
shown_name none u = u.name
shown_name (some c) u = first_present c.name u.name

abbrev notification_row :
    Option MemberInRoom → Option ChatRoom → Option User → Option UserContact → NotificationInfo
notification_row (some m) (some r) (some u) c = record {
  chat_room_name = some r.name;
  show_name = some (shown_name c u);
}
notification_row _ _ _ _ = record { chat_room_name = none; show_name = none }

-- The contact that `get_info_user_id` has for the address, under `lower(…) = lower(…)`.
unfoldable pub find_by_address_query : ℕ → String → World → Option UserContact
find_by_address_query user_id address w =
    find_first (λ c. (c.user_id == user_id) && (w.env.lower c.address == w.env.lower address))
      w.contacts.rows

abbrev contact_of : ℕ → Option MemberInRoom → World → Option UserContact
contact_of user_id none w = none
contact_of user_id (some m) w = find_by_address_query user_id m.wallet_address w

unfoldable pub get_notification_info : ℕ → ℕ → ℕ → MemberStatus → World → NotificationInfo
get_notification_info room_id get_info_user_id show_info_user_id status w =
    notification_row found (find_first (λ r. r.id == room_id) w.rooms.rows)
      (find_first (λ u. u.id == show_info_user_id) w.users.rows)
      (contact_of get_info_user_id found w)
  where
    found : Option MemberInRoom
    found = find_room_member_with_status show_info_user_id room_id status w

-- A column in a template string, where it may be `null`.
abbrev pub show_null : Option String → String
show_null o = or_else o "null"

-- The same, where the row may be missing.
abbrev pub show_undefined : Option (Option String) → String
show_undefined none = "undefined"
show_undefined (some o) = show_null o

abbrev pub flatten : Option (Option String) → Option String
flatten none = none
flatten (some o) = o

-- `SendNotificationService.addNotificationToQueue`, which catches the queue's errors.
unfoldable pub add_notification_to_queue : Notification → Exec (Unit {0})
add_notification_to_queue n = modify (λ w. record w { socket_queue = w.socket_queue ++ n ∷ [] })
