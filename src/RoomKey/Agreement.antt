-- ===== src/RoomKey/Agreement.antt =====
-- src/room-key/services/room-key.service.ts: the two rows that a new room gets.
use nestjs_ex.Entities.{RoomKey}
use nestjs_ex.Prelude.{
  Bool, List, String, [], ap, arith, false, find_first, nat_eq, none, refl, some, suc, text_eq,
  true, ℕ, ◌&&◌, ◌++◌, ◌==◌, ◌∙◌, ◌∷◌, ◌≡◌,
}
use nestjs_ex.RoomKey.{
  create_room_keys, create_shared_key, drawn_iv, drawn_shared_key,
  find_room_key_by_room_id_and_side, originator_pair, participant_pair, room_key,
}
use nestjs_ex.Store.Finding.{find_first-append_none, find_first-append_some}
use nestjs_ex.World.{World}

find_first-hit :
    {A : Type 0} (p : A → Bool) (x : A) (xs : List A) → p x ≡ true → find_first p (x ∷ xs) ≡ some x
unfolding find_first
find_first-hit p x xs h = rw (h, find_first) refl

find_first-miss : {A : Type 0} (p : A → Bool) (x : A) → p x ≡ false → find_first p (x ∷ []) ≡ none
unfolding find_first
find_first-miss p x h = rw (h, find_first) refl

same_side : (room_id : ℕ) (side : String) → ((room_id == room_id) && (side == side)) ≡ true
same_side room_id side = ground (arith, text_eq.same_iff side side)

other_side :
    (room_id : ℕ) → ((room_id == room_id) && text_eq.same_as "originator" "participant") ≡ false
other_side room_id = ground arith

abbrev is_key_of : ℕ → String → RoomKey → Bool
is_key_of room_id side k = (k.room_id == room_id) && (k.side == side)

-- The room has no row for the side.
abbrev pub NoKey : ℕ → String → World → Type 0
NoKey room_id side w = find_room_key_by_room_id_and_side room_id side w ≡ none

abbrev originator_row : ℕ → World → RoomKey
originator_row room_id w =
    room_key room_id (drawn_shared_key w) (originator_pair w) "originator" (drawn_iv w)
      w.room_keys.next_id

abbrev participant_row : ℕ → World → RoomKey
participant_row room_id w =
    room_key room_id (drawn_shared_key w) (participant_pair w) "participant" (drawn_iv w)
      (suc w.room_keys.next_id)

pub found_originator :
    (room_id : ℕ) (w : World)
    → NoKey room_id "originator" w
    → find_room_key_by_room_id_and_side room_id "originator" (create_room_keys room_id w).1
      ≡ some (originator_row room_id w)
unfolding find_room_key_by_room_id_and_side create_room_keys find_first
found_originator room_id w none_yet =
    let p = is_key_of room_id "originator" in
    let a = originator_row room_id w in
    find_first-append_some p (w.room_keys.rows ++ a ∷ []) _ a (
      find_first-append_none p w.room_keys.rows (a ∷ []) none_yet
      ∙ find_first-hit p a [] (same_side room_id "originator"))

pub found_participant :
    (room_id : ℕ) (w : World)
    → NoKey room_id "participant" w
    → find_room_key_by_room_id_and_side room_id "participant" (create_room_keys room_id w).1
      ≡ some (participant_row room_id w)
unfolding find_room_key_by_room_id_and_side create_room_keys find_first
found_participant room_id w none_yet =
    let p = is_key_of room_id "participant" in
    let a = originator_row room_id w in
    let b = participant_row room_id w in
    find_first-append_none p (w.room_keys.rows ++ a ∷ []) (b ∷ []) (
      find_first-append_none p w.room_keys.rows (a ∷ []) none_yet
      ∙ find_first-miss p a (other_side room_id))
    ∙ find_first-hit p b [] (same_side room_id "participant")

-- After the keys of a room that had none are drawn, each side finds its own row, with one shared key and
-- one initialization vector for both; and where ECDH agrees on the two pairs, the shared key is also the
-- one that the participant's public key and the originator's private key give.
pub create_room_keys-agree :
    (room_id : ℕ) (w : World)
    → NoKey room_id "originator" w
    → NoKey room_id "participant" w
    → w.env.compute_secret
        (w.env.from_base64 (originator_pair w).0)
        (w.env.from_base64 (participant_pair w).1)
      ≡ w.env.compute_secret
          (w.env.from_base64 (participant_pair w).0)
          (w.env.from_base64 (originator_pair w).1)
    → (a : RoomKey) × (b : RoomKey) × (find_room_key_by_room_id_and_side room_id "originator"
          (create_room_keys room_id w).1
        ≡ some a)
      × (find_room_key_by_room_id_and_side room_id "participant" (create_room_keys room_id w).1
          ≡ some b)
      × (a.shared_key ≡ b.shared_key)
      × (a.iv ≡ b.iv)
      × (a.shared_key ≡ create_shared_key w.env b.public_key a.private_key)
      × (b.shared_key ≡ create_shared_key w.env a.public_key b.private_key)
create_room_keys-agree room_id w no_o no_p agree = (
  originator_row room_id w,
  participant_row room_id w,
  found_originator room_id w no_o,
  found_participant room_id w no_p,
  refl,
  refl,
  ap w.env.to_base64 agree,
  refl,
)
