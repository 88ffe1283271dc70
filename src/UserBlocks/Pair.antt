-- ===== src/UserBlocks/Pair.antt =====
-- src/user-block/services/user-block.service.ts, `blockUser`: what it closes, and that it is all or
-- nothing.
use mathlib.Core.Path.{subst}
use nestjs_ex.Entities.{ChatRoom, ChatRoomStatus, member_status_eq, room_status_eq}
use nestjs_ex.Prelude.{
  Bool, Bool-cases, Has, List, Option, String, [], ap, false, find_first, find_first-Has, inl, inr,
  nat_eq, none, refl, some, sym, text_eq, true, ℕ, ◌==◌, ◌∙◌, ◌∷◌, ◌≡◌,
}
use nestjs_ex.Sending.{SendMessageInput, send_message}
use nestjs_ex.Sending.Delivery.{send_message-not_deployed}
use nestjs_ex.Store.{update_where}
use nestjs_ex.UserBlocks.{
  BlockInput, block_body, block_user, caught, is_room_of_pair, update_p2p_chat_room_status,
}
use nestjs_ex.World.{Exec, Result, World, err, modify, ok, rolled_back, transaction}
use nestjs_ex.World.Outcome.{bind-ok, gets-bind-ok, same_outcome}
use nestjs_ex.World.Refusal.{Refuses}

update_where-all :
    {A : Type 0} (Q : A → Type 0) (p : A → Bool) (f : A → A) (xs : List A) (y : A)
    → ((x : A) → p x ≡ true → Q (f x))
    → ((x : A) → p x ≡ false → Q x)
    → Has y (update_where p f xs)
    → Q y
unfolding update_where
update_where-all Q p f [] y hit miss m = absurd m
update_where-all Q p f (x ∷ xs) y hit miss (inr m) = update_where-all Q p f xs y hit miss m
update_where-all Q p f (x ∷ xs) y hit miss (inl e) = elim (Bool-cases (p x)) [
  | inl h ↦ subst Q (rw h at e) (hit x h)
  | inr h ↦ subst Q (rw h at e) (miss x h)
]

-- A transaction that was not undone.
committed :
    (m : Exec (Unit {0})) (w v : World)
    → ◌≡◌ {A = Option Bool × World}
        (caught none (transaction m w).0, (transaction m w).1)
        (some true, v)
    → m w ≡ (ok tt, v)
unfolding transaction
committed m w v h = split (m w).0 (m w).1 refl h
  where
    split :
        (r : Result (Unit {0})) (u : World)
        → m w ≡ (r, u)
        → ◌≡◌ {A = Option Bool × World}
            (caught none (rolled_back w (r, u)).0, (rolled_back w (r, u)).1)
            (some true, v)
        → m w ≡ (ok tt, v)
    split (ok tt) u e g =
        e ∙ ap (λ (z : World). (ok tt, z)) (ap (λ (z : Option Bool × World). z.1) g)
    split (err x) u e g = absurd (cc (ap (λ (z : Option Bool × World). z.0) g))

-- Where the transaction of a block fails, nothing is written.
pub block_user-none :
    (user_id : ℕ) (input : BlockInput) (w v : World)
    → block_user user_id input w ≡ (none, v)
    → v ≡ w
unfolding block_user transaction
block_user-none user_id input w v h =
    split (block_body user_id input w).0 (block_body user_id input w).1 h
  where
    split :
        (r : Result (Unit {0})) (u : World)
        → ◌≡◌ {A = Option Bool × World}
            (caught none (rolled_back w (r, u)).0, (rolled_back w (r, u)).1)
            (none, v)
        → v ≡ w
    split (ok tt) u g = absurd (cc (ap (λ (z : Option Bool × World). z.0) g))
    split (err x) u g = sym (ap (λ (z : Option Bool × World). z.1) g)

Shut : World → ℕ → String → ChatRoom → Type 0
Shut w user_id address r =
    is_room_of_pair w user_id address r ≡ true → r.status ≡ ChatRoomStatus.blocked

update_p2p-Shut :
    (user_id : ℕ) (address : String) (w v : World)
    → update_p2p_chat_room_status user_id address ChatRoomStatus.blocked w ≡ (ok tt, v)
    → (r : ChatRoom) → Has r v.rooms.rows
    → Shut v user_id address r
unfolding update_p2p_chat_room_status modify Shut
update_p2p-Shut user_id address w v h =
    let (_, v_is) = same_outcome h in
    subst (λ z. (r : ChatRoom) → Has r z.rooms.rows → Shut z user_id address r) (sym v_is)
      (λ r m.
        update_where-all (Shut w user_id address) (is_room_of_pair w user_id address)
          (λ x. record x { status = ChatRoomStatus.blocked }) w.rooms.rows r (λ x e k. refl)
          (λ x e k. absurd (cc (e, k))) m)

-- After `blockUser` has returned `true`, every room that is not a group and that has a row of the caller
-- and a row at the blocked address has the status `blocked`, and a message to it is refused, whoever
-- sends it.
pub block_user-closes :
    (user_id : ℕ) (input : BlockInput) (w v : World)
    → block_user user_id input w ≡ (some true, v)
    → (id : ℕ) (r : ChatRoom) → find_first (λ x. x.id == id) v.rooms.rows ≡ some r
    → is_room_of_pair v user_id input.address r ≡ true
    → (r.status ≡ ChatRoomStatus.blocked)
      × ((sender_id : ℕ) (m : SendMessageInput)
          → m.chat_room_id ≡ id
          → Refuses v (send_message sender_id m))
unfolding block_user Shut
block_user-closes user_id input w v h id r found pair =
    let (has, _) = find_first-Has (λ x. x.id == id) v.rooms.rows r found in
    let h1 = committed (block_body user_id input) w v h in
    let h2 = gets-bind-ok _ _ w v tt h1 in
    let (_, u, _, h3) = bind-ok _ _ w v tt h2 in
    let shut = update_p2p-Shut user_id input.address u v h3 r has pair in
    (
      shut,
      λ sender_id m e.
          send_message-not_deployed sender_id m v r
            (ap (λ n. find_first (λ (x : ChatRoom). x.id == n) v.rooms.rows) e ∙ found)
            (λ deployed. cc (shut, deployed)),
    )
