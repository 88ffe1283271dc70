-- ===== src/UserBlocks.antt =====
-- src/user-block/services/user-block.service.ts, lines 146 to 291: blocking a user, which closes the
-- rooms of the pair, and unblocking.
pub mod Pair
pub mod Release
use nestjs_ex.ChatHelper.{find_user_wallet_by_address}
use nestjs_ex.Entities.{
  ChatRoom, ChatRoomStatus, UserBlock, member_status_eq, message_type_eq, room_status_eq,
}
use nestjs_ex.Prelude.{
  Bool, Option, String, any, false, find_first, nat_eq, none, not, or_else, some, text_eq, true, ℕ,
  ◌&&◌, ◌==◌,
}
use nestjs_ex.Room.Single.{is_at_address}
use nestjs_ex.Sender.{truthy}
use nestjs_ex.Store.{insert, update_rows}
use nestjs_ex.World.{
  Env, Exec, Result, World, err, gets, modify, need, ok, pure, transaction, type_error, ◌>>=◌, ◌>>◌,
}

pub record BlockInput : Type 0 where
  pub address : String
  pub report_content : Option String
  pub kind : Option String

pub record UnblockInput : Type 0 where
  pub address : String
  pub request_address : String

-- The rooms of `getP2PChatRoomsOfBlockedPair`.
abbrev pub is_room_of_pair : World → ℕ → String → ChatRoom → Bool
is_room_of_pair w user_id address r =
    not r.is_group
    && any (λ m. (m.chat_room_id == r.id) && (m.user_id == user_id)) w.members.rows
    && any (is_at_address w.env r.id address) w.members.rows

unfoldable pub update_p2p_chat_room_status : ℕ → String → ChatRoomStatus → Exec (Unit {0})
update_p2p_chat_room_status user_id address status = modify (λ w. record w {
  rooms =
      update_rows (is_room_of_pair w user_id address) (λ r. record r { status = status }) w.rooms;
})

abbrev pub is_block_of : Env → ℕ → String → UserBlock → Bool
is_block_of env user_id address b =
    (b.user_id == user_id) && env.same_text b.blocked_wallet_address address

-- `manager.update(UserBlock, id, …)`
unfoldable pub update_block : UserBlock → Exec (Unit {0})
update_block b =
    modify (λ w. record w { blocks = update_rows (λ x. x.id == b.id) (λ x. b) w.blocks })

abbrev new_block : ℕ → ℕ → BlockInput → ℕ → UserBlock
new_block user_id blocked_user_id input id = record {
  id = id;
  user_id = user_id;
  blocked_user_id = blocked_user_id;
  blocked_wallet_address = input.address;
  status = true;
  report_content = input.report_content;
  kind = or_else input.kind "spam";
}

unfoldable pub save_block : ℕ → BlockInput → Option UserBlock → Exec (Unit {0})
save_block user_id input (some b) = update_block (record b {
  status = true;
  report_content = some (or_else input.report_content "");
  kind = or_else (truthy input.kind) "spam";
})
save_block user_id input none = do
  found ← gets (find_user_wallet_by_address input.address)
  wallet ← need found type_error
  modify (λ w. record w { blocks = insert (new_block user_id wallet.user_id input) w.blocks })

abbrev pub block_body : ℕ → BlockInput → Exec (Unit {0})
block_body user_id input = do
  existing ← gets (λ w. find_first (is_block_of w.env user_id input.address) w.blocks.rows)
  save_block user_id input existing
  update_p2p_chat_room_status user_id input.address ChatRoomStatus.blocked

-- `catch`: the error is logged.
abbrev pub caught : Option Bool → Result (Unit {0}) → Option Bool
caught failed (ok r) = some true
caught failed (err e) = failed

-- `true`, or `undefined` where the transaction failed.
unfoldable pub block_user : ℕ → BlockInput → World → Option Bool × World
block_user user_id input w =
    let (r, w') = transaction (block_body user_id input) w in (caught none r, w')

-- `if (!unblockingUserBlockedRequestUserRecord)`
unfoldable pub release_rooms : ℕ → UnblockInput → Option UserBlock → Exec (Unit {0})
release_rooms user_id input (some b) = pure tt
release_rooms user_id input none =
    update_p2p_chat_room_status user_id input.address ChatRoomStatus.deployed

-- The block that the other user has on the requesting address.
unfoldable pub find_block_back : ℕ → UnblockInput → UserBlock → World → Option UserBlock
find_block_back user_id input b w =
    find_first (λ x. is_block_of w.env b.blocked_user_id input.request_address x && x.status)
      w.blocks.rows

-- From `if (!existingUserBlock) return;` on.
unfoldable pub release_pair : ℕ → UnblockInput → Option UserBlock → Exec (Unit {0})
release_pair user_id input none = pure tt
release_pair user_id input (some b) = do
  update_block (record b { status = false })
  back ← gets (find_block_back user_id input b)
  release_rooms user_id input back

abbrev pub unblock_body : ℕ → UnblockInput → Exec (Unit {0})
unblock_body user_id input = do
  existing ←
      gets
        (λ w. find_first (λ x. is_block_of w.env user_id input.address x && x.status) w.blocks.rows)
  release_pair user_id input existing

unfoldable pub unblock_user : ℕ → UnblockInput → World → Option Bool × World
unblock_user user_id input w =
    let (r, w') = transaction (unblock_body user_id input) w in (caught (some false) r, w')
