-- ===== src/UserBlocks/Release.antt =====
-- src/user-block/services/user-block.service.ts, `unBlockUser`: when it opens the rooms again.
use nestjs_ex.Entities.{UserBlock, member_status_eq}
use nestjs_ex.Prelude.{
  Option, find_first, inl, inr, nat_eq, none, refl, some, text_eq, ℕ, ◌&&◌, ◌≡◌, ◌⊎◌,
}
use nestjs_ex.UserBlocks.{
  UnblockInput, find_block_back, is_block_of, release_pair, release_rooms, unblock_user,
  update_block, update_p2p_chat_room_status,
}
use nestjs_ex.World.{Result, World, err, modify, ok, pure, rolled_back, transaction, ◌>>=◌}

-- The rooms stay, or the other user has no block left on the caller's address.
abbrev Careful : ℕ → UnblockInput → UserBlock → World → World → Type 0
Careful user_id input b w v = (v.rooms ≡ w.rooms) ⊎ (find_block_back user_id input b v ≡ none)

release_rooms-Careful :
    (user_id : ℕ) (input : UnblockInput) (b : UserBlock) (w : World) (back : Option UserBlock)
    → find_block_back user_id input b w ≡ back
    → Careful user_id input b w (release_rooms user_id input back w).1
unfolding release_rooms find_block_back update_p2p_chat_room_status modify pure
release_rooms-Careful user_id input b w none e = inr e
release_rooms-Careful user_id input b w (some x) e = inl refl

release_pair-Careful :
    (user_id : ℕ) (input : UnblockInput) (b : UserBlock) (w : World)
    → Careful user_id input b w (release_pair user_id input (some b) w).1
unfolding release_pair update_block ◌>>=◌
release_pair-Careful user_id input b w = release_rooms-Careful user_id input b _ _ refl

rolled_back-Careful :
    (user_id : ℕ) (input : UnblockInput) (b : UserBlock) (w v : World) (r : Result (Unit {0}))
    → Careful user_id input b w v
    → Careful user_id input b w (rolled_back w (r, v)).1
rolled_back-Careful user_id input b w v (ok x) c = c
rolled_back-Careful user_id input b w v (err x) c = inl refl

-- The block of the caller that is to end.
abbrev pub own_block : ℕ → UnblockInput → World → Option UserBlock
own_block user_id input w =
    find_first (λ x. is_block_of w.env user_id input.address x && x.status) w.blocks.rows

settle :
    (user_id : ℕ) (input : UnblockInput) (w : World) (o : Option UserBlock)
    → own_block user_id input w ≡ o
    → ((transaction (release_pair user_id input o) w).1.rooms ≡ w.rooms)
      ⊎ ((b : UserBlock) × (own_block user_id input w ≡ some b)
          × (find_block_back user_id input b (transaction (release_pair user_id input o) w).1
              ≡ none))
unfolding transaction release_pair pure
settle user_id input w none e = inl refl
settle user_id input w (some b) e =
    name_block _
      (rolled_back-Careful user_id input b w _ _ (release_pair-Careful user_id input b w))
  where
    name_block :
        (v : World)
        → Careful user_id input b w v
        → (v.rooms ≡ w.rooms)
          ⊎ ((x : UserBlock) × (own_block user_id input w ≡ some x)
              × (find_block_back user_id input x v ≡ none))
    name_block v (inl same) = inl same
    name_block v (inr none_back) = inr (b, e, none_back)

-- Unblocking leaves the rooms as they are, or the caller had a block on the address and the other user has
-- afterwards no block on the requesting address.
pub unblock_user-rooms :
    (user_id : ℕ) (input : UnblockInput) (w : World)
    → ((unblock_user user_id input w).1.rooms ≡ w.rooms)
      ⊎ ((b : UserBlock) × (own_block user_id input w ≡ some b)
          × (find_block_back user_id input b (unblock_user user_id input w).1 ≡ none))
unfolding unblock_user transaction ◌>>=◌
unblock_user-rooms user_id input w = settle user_id input w (own_block user_id input w) refl
