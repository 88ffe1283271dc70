-- ===== src/Member/Preferences.antt =====
-- src/member-in-room/services/member-in-room.service.ts, lines 261 to 349 and 909 to 925: what a member
-- sets for itself.
use nestjs_ex.Entities.{MemberInRoom}
use nestjs_ex.Member.{find_joined_member_by_user_id, update_member_in_room}
use nestjs_ex.Prelude.{false, none, some, true, ℕ}
use nestjs_ex.World.{Error, Exec, World, chat_room_not_found, gets, member_not_found, need, ◌>>=◌}

abbrev pub with_row : ℕ → ℕ → Error → (World → MemberInRoom → MemberInRoom) → Exec MemberInRoom
with_row user_id room_id missing change = do
  found ← gets (find_joined_member_by_user_id user_id room_id)
  m ← need found missing
  updated ← gets (λ w. change w m)
  update_member_in_room updated

unfoldable pub mute_chat_room_by_id : ℕ → ℕ → ℕ → Exec MemberInRoom
mute_chat_room_by_id user_id room_id until =
    with_row user_id room_id chat_room_not_found (λ w m. record m { mute_duration = some until })

unfoldable pub unmute_chat_room_by_id : ℕ → ℕ → Exec MemberInRoom
unmute_chat_room_by_id user_id room_id =
    with_row user_id room_id chat_room_not_found
      (λ w m. record m { mute_duration = none; updated_at = w.env.now })

unfoldable pub pin_chat_room_by_id : ℕ → ℕ → Exec MemberInRoom
pin_chat_room_by_id user_id room_id =
    with_row user_id room_id chat_room_not_found
      (λ w m. record m { is_pinned = true; updated_at = w.env.now })

unfoldable pub unpin_chat_room_by_id : ℕ → ℕ → Exec MemberInRoom
unpin_chat_room_by_id user_id room_id =
    with_row user_id room_id chat_room_not_found
      (λ w m. record m { is_pinned = false; updated_at = w.env.now })

unfoldable pub update_last_time_viewed : ℕ → ℕ → Exec MemberInRoom
update_last_time_viewed user_id room_id =
    with_row user_id room_id member_not_found (λ w m. record m { last_viewed_at = w.env.now })
