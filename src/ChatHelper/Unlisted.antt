-- ===== src/ChatHelper/Unlisted.antt =====
-- src/shared/chat-helper/services/chat-helper.service.ts with src/jobs/services/network-fee.service.ts: rooms on a
-- network whose chain NETWORK_CHAINS does not list.
use mathlib.Core.Path.{subst}
use nestjs_ex.ChatHelper.{
  SendChatQueueDataInput, find_room_by_id, get_data_for_chat_queue, send_chat_queue_data,
}
use nestjs_ex.ChatHelper.Frame.{SameWorld, get_by_id-At, is_shared_networks-At}
use nestjs_ex.Entities.{ChatRoom, Network}
use nestjs_ex.Network.{get_network_fee_by_level, get_parent_network_by_chain_id}
use nestjs_ex.Network.Found.{get_by_id-ok}
use nestjs_ex.NetworkFee.{get_network_fees}
use nestjs_ex.Prelude.{
  String, ap, find_first, nat_eq, none, refl, some, some-inj, sym, text_eq, ℕ, ◌==◌, ◌∙◌, ◌≡◌,
}
use nestjs_ex.World.{World, ok, raise, type_error}
use nestjs_ex.World.Laws.{At, At-gets-bind, At-need}
use nestjs_ex.World.Outcome.{gets-bind-ok, need-ok}
use nestjs_ex.World.Refusal.{
  Refuses, Refuses-after, Refuses-after_ok, Refuses-bind, Refuses-gets-bind, Refuses-guard-bind,
  Refuses-need-bind,
}

-- The network of the key is there, and no entry lists its chain.
abbrev pub IsUnlisted : ℕ → World → Type 0
IsUnlisted network_id w =
    (n : Network) × (find_first (λ x. x.id == network_id) w.networks ≡ some n)
    × (get_parent_network_by_chain_id n.chain_id ≡ none)

no_fees_of_none : {w : World} → Refuses w (get_network_fees none)
unfolding get_network_fees raise
no_fees_of_none = record { error = type_error; throws = refl }

get_network_fee_by_level-unlisted :
    (id : ℕ) (level : String) (w : World)
    → IsUnlisted id w
    → Refuses w (get_network_fee_by_level id level)
unfolding get_network_fee_by_level
get_network_fee_by_level-unlisted id level w (n, found, unlisted) =
    Refuses-after_ok _ _ (At.holds (get_by_id-At {F = SameWorld} {w = w} id)) λ x e.
      let same : x ≡ n = some-inj (sym (get_by_id-ok id w w x e).0 ∙ found) in
      Refuses-bind _ _ (
        subst (λ o. Refuses w (get_network_fees o))
          (sym (ap (λ (z : Network). get_parent_network_by_chain_id z.chain_id) same ∙ unlisted))
          no_fees_of_none)

find_room_by_id-At : {w : World} (id : ℕ) → At SameWorld w (find_room_by_id id)
unfolding find_room_by_id
find_room_by_id-At id = At-gets-bind _ _ (At-need _ _)

find_room_by_id-ok :
    (id : ℕ) (w : World) (room : ChatRoom)
    → find_room_by_id id w ≡ (ok room, w)
    → find_first (λ r. r.id == id) w.rooms.rows ≡ some room
unfolding find_room_by_id
find_room_by_id-ok id w room h = (need-ok _ _ w w room (gets-bind-ok _ _ w w room h)).0

-- Where the chain of the room's network is not listed, every chat transaction of the room is refused and writes
-- nothing: the fee of the network cannot be read.
pub send_chat_queue_data-unlisted :
    (input : SendChatQueueDataInput) (w : World) (room : ChatRoom)
    → find_first (λ r. r.id == input.room_id) w.rooms.rows ≡ some room
    → IsUnlisted room.network_id w
    → Refuses w (send_chat_queue_data input)
unfolding send_chat_queue_data get_data_for_chat_queue
send_chat_queue_data-unlisted input w room found unlisted = Refuses-bind _ _ (
    Refuses-after_ok _ _ (At.holds (find_room_by_id-At {w = w} input.room_id)) λ x e.
      let same : room ≡ x = some-inj (sym found ∙ find_room_by_id-ok input.room_id w x e) in
      let unlisted_x : IsUnlisted x.network_id w =
        subst (λ (z : ChatRoom). IsUnlisted z.network_id w) same unlisted in
      Refuses-gets-bind _ _ (
        Refuses-need-bind _ _ _ λ wallet ew.
          Refuses-after _ _
            (At.holds
              (is_shared_networks-At {F = SameWorld} {w = w} x.network_id wallet.network_id))
            λ can. Refuses-guard-bind _ _ _ λ shared.
              Refuses-bind _ _
                (get_network_fee_by_level-unlisted x.network_id "fast" w unlisted_x)))
