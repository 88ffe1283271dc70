-- ===== src/ChatGuard/Passing.antt =====
-- src/shared/guards/chat-network.guard.ts, lines 144 to 170: what a request that passes the guard is about.
use mathlib.Core.Path.{ap₂, subst}
use nestjs_ex.ChatGuard.{
  HttpRequest, RequestId, can_activate, check_network, get_network_id, get_room_id, given_id,
  is_truthy, named_network, network_of_request, network_of_room, id_number, id_text, value_of,
}
use nestjs_ex.ChatGuard.Naming.{Names, named_network_iff, unnamed_iff}
use nestjs_ex.ChatGuard.Reads.{get_room_id-At}
use nestjs_ex.ChatHelper.{find_room_by_id}
use nestjs_ex.ChatHelper.Frame.{kept}
use nestjs_ex.Entities.{ChatRoom, Network}
use nestjs_ex.Network.{get_by_id, is_network_used_on_chat}
use nestjs_ex.Network.Found.{get_by_id-ok}
use nestjs_ex.Prelude.{
  Bool, Option, Option-cases, ap, false, find_first, if◌then◌else◌, includes, inl, inr, nat_eq,
  none, refl, some, some-inj, suc, sym, text_eq, true, zero, ◌↔◌, ◌==◌, ◌∙◌, ◌≡◌, ◌⊎◌,
}
use nestjs_ex.World.{World, gets, ok, pure}
use nestjs_ex.World.Outcome.{
  bind-ok, gets-bind-ok, guard-bind-ok, need-bind-ok, need-ok, pure-ok, same_outcome,
}
use nestjs_ex.World.Running.{bind-run, gets-bind-run, guard-bind-run, need-bind-run, need-run}

given_id-some :
    (o : Option RequestId) (id : RequestId)
    → given_id o ≡ some id
    → (o ≡ some id) × (is_truthy id ≡ true)
given_id-some none id h = absurd (cc h)
given_id-some (some (id_text n)) id h = (h, ap is_truthy (sym (some-inj h)))
given_id-some (some (id_number zero)) id h = absurd (cc h)
given_id-some (some (id_number (suc n))) id h = (h, ap is_truthy (sym (some-inj h)))

truthy-given_id : (id : RequestId) → is_truthy id ≡ true → given_id (some id) ≡ some id
truthy-given_id id h = ap (λ b. if b then some id else none) h

-- The network is given and stored, and its chain is listed.
abbrev pub Serves : RequestId → World → Type 0
Serves id w =
    (network : Network) × (is_truthy id ≡ true)
    × (find_first (λ n. n.id == value_of id) w.networks ≡ some network)
    × (includes w.env.chat_network_chain_ids network.chain_id ≡ true)

-- The room that the guard looks at, and its network.
pub record IsOnChat (req : HttpRequest) (w : World) : Type 0 where
  pub room_id : RequestId
  pub asked : get_room_id req w ≡ (ok (some room_id), w)
  pub given : is_truthy room_id ≡ true
  pub room : ChatRoom
  pub room_found : find_first (λ r. r.id == value_of room_id) w.rooms.rows ≡ some room
  pub serves : Serves (id_number room.network_id) w

check_network-ok :
    (id : RequestId) (w v : World) (b : Bool)
    → check_network id w ≡ (ok b, v)
    → Serves id w × (b ≡ true) × (v ≡ w)
unfolding check_network is_network_used_on_chat gets
check_network-ok id w v b h =
    let (given, h1) = guard-bind-ok _ _ _ w v b h in
    let (used, u1, hu, h2) = bind-ok (is_network_used_on_chat (value_of id)) _ w v b h1 in
    let (network, u2, hg, h3) = bind-ok (get_by_id (value_of id)) _ w u1 used hu in
    let (stored, u2_is) = get_by_id-ok (value_of id) w u2 network hg in
    let (listed, u1_is) = same_outcome h3 in
    let (fits, h4) = guard-bind-ok _ _ _ u1 v b h2 in
    let (b_is, v_is) = pure-ok true b u1 v h4 in
    (
      (
        network,
        given,
        stored,
        ap (λ (z : World). includes z.env.chat_network_chain_ids network.chain_id) (sym u2_is)
            ∙ listed
            ∙ fits,
      ),
      sym b_is,
      v_is ∙ u1_is ∙ u2_is,
    )

check_network-run : (id : RequestId) (w : World) → Serves id w → check_network id w ≡ (ok true, w)
unfolding check_network is_network_used_on_chat get_by_id gets pure
check_network-run id w (network, given, stored, listed) =
    let read : get_by_id (value_of id) w ≡ (ok network, w) =
      gets-bind-run _ _ w ∙ need-run _ _ network w stored in
    let used : is_network_used_on_chat (value_of id) w ≡ (ok true, w) =
      bind-run (get_by_id (value_of id)) _ network w w read ∙ ap (λ c. (ok c, w)) listed in
    guard-bind-run _ _ _ w given
    ∙ bind-run (is_network_used_on_chat (value_of id)) _ true w w used
    ∙ guard-bind-run true _ _ w refl

network_of_room-ok :
    (req : HttpRequest) (w v : World) (id : RequestId)
    → network_of_room req w ≡ (ok id, v)
    → (room_id : RequestId) × (room : ChatRoom) × (get_room_id req w ≡ (ok (some room_id), w))
      × (is_truthy room_id ≡ true)
      × (find_first (λ r. r.id == value_of room_id) w.rooms.rows ≡ some room)
      × (id_number room.network_id ≡ id)
      × (v ≡ w)
unfolding network_of_room find_room_by_id
network_of_room-ok req w v id h =
    let (asked, u, ha, h1) = bind-ok (get_room_id req) _ w v id h in
    let u_is : u ≡ w = kept _ w u asked (get_room_id-At req) ha in
    let (room_id, given, h2) = need-bind-ok _ _ _ u v id h1 in
    let (room, u1, hr, h3) = bind-ok _ _ u v id h2 in
    let (here, u1_is) = need-ok _ _ u u1 room (gets-bind-ok _ _ u u1 room hr) in
    let (net, v_is) = need-ok _ _ u1 v id h3 in
    let (asked_is, truthy) = given_id-some asked room_id given in
    (
      room_id,
      room,
      ha ∙ ap₂ (λ o z. (ok o, z)) asked_is u_is,
      truthy,
      subst (λ (z : World). find_first (λ r. r.id == value_of room_id) z.rooms.rows ≡ some room)
          u_is here,
      some-inj ((given_id-some (some (id_number room.network_id)) id net).0),
      v_is ∙ u1_is ∙ u_is,
    )

-- Where `canActivate` lets a request through that does not name a network itself, and the guard is not switched off,
-- the guard found one room for it, the network of this room is stored and its chain is one of
-- `CHAT_NETWORK_CHAINIDS`; the state is as before.
pub can_activate-ok :
    (req : HttpRequest) (w v : World) (b : Bool)
    → named_network req ≡ none
    → can_activate false req w ≡ (ok b, v)
    → IsOnChat req w × (v ≡ w)
unfolding can_activate get_network_id network_of_request
can_activate-ok req w v b unnamed h =
    let (id, u, hn, h1) = bind-ok (get_network_id req) _ w v b h in
    let (room_id, room, asked, given, room_found, id_is, u_is) =
      network_of_room-ok req w u id
        (subst (λ o. network_of_request req o w ≡ (ok id, u)) unnamed hn) in
    let (serves, _, v_is) = check_network-ok id u v b h1 in
    (
      record {
        room_id = room_id;
        asked = asked;
        given = given;
        room = room;
        room_found = room_found;
        serves = subst (λ z. Serves z w) (sym id_is) (subst (λ z. Serves id z) u_is serves);
      },
      v_is ∙ u_is,
    )

named_passes :
    (req : HttpRequest) (w : World) (id : RequestId)
    → named_network req ≡ some id
    → Serves id w
    → can_activate false req w ≡ (ok true, w)
unfolding can_activate get_network_id network_of_request pure
named_passes req w id named serves =
    bind-run (get_network_id req) _ id w w (ap (λ o. network_of_request req o w) named)
    ∙ check_network-run id w serves

named_network-Serves :
    (req : HttpRequest) (w : World) (id : RequestId)
    → named_network req ≡ some id
    → can_activate false req w ≡ (ok true, w)
    → Serves id w
unfolding can_activate get_network_id network_of_request
named_network-Serves req w id named h =
    let (found, u, hn, h1) = bind-ok (get_network_id req) _ w w true h in
    let (id_is, u_is) =
      pure-ok id found w u (subst (λ o. network_of_request req o w ≡ (ok found, u)) named hn) in
    let (serves, _, _) = check_network-ok found u w true h1 in
    subst (λ z. Serves z w) (sym id_is) (subst (λ z. Serves found z) u_is serves)

room_passes :
    (req : HttpRequest) (w : World)
    → named_network req ≡ none
    → IsOnChat req w
    → can_activate false req w ≡ (ok true, w)
unfolding can_activate get_network_id network_of_request network_of_room find_room_by_id
room_passes req w unnamed on =
    let found : find_room_by_id (value_of on.room_id) w ≡ (ok on.room, w) =
      gets-bind-run _ _ w ∙ need-run _ _ on.room w on.room_found in
    let read : get_network_id req w ≡ (ok (id_number on.room.network_id), w) =
      ap (λ o. network_of_request req o w) unnamed
      ∙ bind-run (get_room_id req) _ (some on.room_id) w w on.asked
      ∙ need-bind-run _ _ _ on.room_id w (truthy-given_id on.room_id on.given)
      ∙ bind-run (find_room_by_id (value_of on.room_id)) _ on.room w w found
      ∙ need-run _ _ (id_number on.room.network_id) w
          (truthy-given_id (id_number on.room.network_id) on.serves.1) in
    bind-run (get_network_id req) _ (id_number on.room.network_id) w w read
    ∙ check_network-run (id_number on.room.network_id) w on.serves

-- Where the guard is not switched off, `canActivate` lets a request through exactly when it is for a chat room and
-- names a network, in its query or else in its body, that serves the chat, whatever its room is on; or when it names
-- none, and the room that the guard finds for it is stored, on a network that serves the chat. A network serves the
-- chat that is stored and whose chain is one of `CHAT_NETWORK_CHAINIDS`.
pub can_activate_iff :
    (req : HttpRequest) (w : World)
    → (can_activate false req w ≡ (ok true, w)) ↔ (
        ((id : RequestId) × Names req id × Serves id w)
        ⊎ ((¬ ((id : RequestId) × Names req id)) × IsOnChat req w))
can_activate_iff req w = (
  λ h. elim (Option-cases (named_network req)) [
    | inl unnamed ↦ inr ((unnamed_iff req).0 unnamed, (can_activate-ok req w w true unnamed h).0)
    | inr (id, named) ↦
        inl (id, (named_network_iff req id).0 named, named_network-Serves req w id named h)
  ],
  λ c. elim c [
    | inl (id, names, serves) ↦ named_passes req w id ((named_network_iff req id).1 names) serves
    | inr (unnamed, on) ↦ room_passes req w ((unnamed_iff req).1 unnamed) on
  ],
)
