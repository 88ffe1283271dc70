-- ===== src/RoomKey.antt =====
-- src/room-key/services/room-key.service.ts, and src/shared/tools/diffe-hellman.tool.ts, lines 4 to 26: the key pair of a room, one row for each side.
pub mod Agreement
use nestjs_ex.Entities.{Role, RoomKey, role_eq}
use nestjs_ex.Member.{find_joined_member_by_user_id}
use nestjs_ex.Prelude.{
  Option, String, find_first, if◌then◌else◌, nat_eq, suc, text_eq, ℕ, ◌&&◌, ◌==◌,
}
use nestjs_ex.Store.{insert}
use nestjs_ex.World.{Env, Exec, World, gets, need, ok, user_not_in_room, ◌>>=◌, ◌>>◌}

unfoldable pub find_room_key_by_room_id_and_side : ℕ → String → World → Option RoomKey
find_room_key_by_room_id_and_side room_id side w =
    find_first (λ k. (k.room_id == room_id) && (k.side == side)) w.room_keys.rows

abbrev pub side_of : Role → String
side_of role = if role == Role.owner then "originator" else "participant"

unfoldable pub find_room_key_by_user_id_and_room_id : ℕ → ℕ → Exec (Option RoomKey)
find_room_key_by_user_id_and_room_id user_id room_id = do
  found ← gets (find_joined_member_by_user_id user_id room_id)
  m ← need found user_not_in_room
  gets (find_room_key_by_room_id_and_side room_id (side_of m.role))

abbrev pub room_key : ℕ → String → String × String → String → String → ℕ → RoomKey
room_key room_id shared_key (public_key, private_key) side iv id = record {
  id = id;
  room_id = room_id;
  shared_key = shared_key;
  public_key = public_key;
  private_key = private_key;
  side = side;
  iv = iv;
}

-- `DiffeHellmanTool.createKeyPair`, on the n-th draw
abbrev pub create_key_pair : Env → ℕ → String × String
create_key_pair env n =
    (env.to_base64 (env.generate_keys n).0, env.to_base64 (env.generate_keys n).1)

-- `DiffeHellmanTool.generateInitializationVector`
abbrev pub generate_initialization_vector : Env → ℕ → String
generate_initialization_vector env n = env.to_base64 (env.random_bytes n)

-- `DiffeHellmanTool.createSharedKey`
abbrev pub create_shared_key : Env → String → String → String
create_shared_key env public_key private_key =
    env.to_base64 (env.compute_secret (env.from_base64 public_key) (env.from_base64 private_key))

abbrev pub originator_pair : World → String × String
originator_pair w = create_key_pair w.env w.room_keys.next_id

abbrev pub participant_pair : World → String × String
participant_pair w = create_key_pair w.env (suc w.room_keys.next_id)

abbrev pub drawn_shared_key : World → String
drawn_shared_key w = create_shared_key w.env (originator_pair w).0 (participant_pair w).1

abbrev pub drawn_iv : World → String
drawn_iv w = generate_initialization_vector w.env w.room_keys.next_id

-- The draws are numbered by the key of the first row.
unfoldable pub create_room_keys : ℕ → Exec (Unit {0})
create_room_keys room_id w = (
  ok tt,
  record w {
    room_keys =
        insert
          (room_key room_id (drawn_shared_key w) (participant_pair w) "participant" (drawn_iv w))
          (insert
            (room_key room_id (drawn_shared_key w) (originator_pair w) "originator" (drawn_iv w))
            w.room_keys);
  },
)
