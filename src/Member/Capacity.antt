-- ===== src/Member/Capacity.antt =====
-- src/member-in-room/services/member-in-room.service.ts, `addMemberListToRoom`: what it adds, and the
-- limit on the members of a room.
use mathlib.Core.Path.{ap₂, subst}
use nestjs_ex.Entities.{MemberInRoom, MemberStatus, Role, member_status_eq, role_eq}
use nestjs_ex.Member.{
  add_notification_to_queue, get_number_of_members_in_room, insert_member, is_active_in_room,
}
use nestjs_ex.Member.Invite.{
  AddMembersToRoomInput, add_member_list_to_room, add_member_to_room, check_can_add,
  max_member_per_group_count, refuse_existing,
}
use nestjs_ex.Prelude.{
  All, Bool-cases, List, Option, String, [], ap, arith, count_where, count_where-append, includes,
  inl, inr, leb, length, map, nat_eq, none, refl, some, suc, sym, text_eq, true, ℕ, ◌&&◌, ◌++◌, ◌+◌,
  ◌==◌, ◌∙◌, ◌∷◌, ◌≡◌, ◌≤◌,
}
use nestjs_ex.World.{Result, World, for_each, modify, ok, pure, raise}
use nestjs_ex.World.Outcome.{
  bind-ok, gets-bind-ok, guard-bind-ok, guard-ok, need-bind-ok, pure-ok, same_outcome,
}

-- A row that the invitation of `address` adds.
abbrev pub IsInvitation : ℕ → ℕ → MemberInRoom → Type 0
IsInvitation user_id room_id m =
    (m.chat_room_id ≡ room_id)
    × (m.status ≡ MemberStatus.invited)
    × (m.role ≡ Role.member)
    × (m.added_by_user_id ≡ some user_id)

add_member_to_room-ok :
    (user_id room_id : ℕ) (address : String) (w v : World) (m : MemberInRoom)
    → add_member_to_room user_id room_id address w ≡ (ok m, v)
    → (v.members.rows ≡ w.members.rows ++ m ∷ [])
      × (m.wallet_address ≡ address)
      × IsInvitation user_id room_id m
unfolding add_member_to_room insert_member add_notification_to_queue modify
add_member_to_room-ok user_id room_id address w v m h =
    let h1 = gets-bind-ok _ _ w v m h in
    let (_, h2) = guard-bind-ok _ _ _ w v m h1 in
    let h3 = gets-bind-ok _ _ w v m h2 in
    let (wallet, _, h4) = need-bind-ok _ _ _ w v m h3 in
    let h5 = gets-bind-ok _ _ w v m h4 in
    let h6 = gets-bind-ok _ _ w v m h5 in
    let (x, u, hi, h7) = bind-ok _ _ w v m h6 in
    let h8 = gets-bind-ok _ _ u v m h7 in
    let (_, u', hn, hp) = bind-ok _ _ u v m h8 in
    let (row_is, u_is) = same_outcome hi in
    let (_, u'_is) = same_outcome hn in
    let (x_is, v_is) = pure-ok x m u' v hp in
    let rows =
      ap (λ (z : World). z.members.rows) (v_is ∙ u'_is) ∙ ap (λ (z : World). z.members.rows) u_is in
    let m_is = row_is ∙ x_is in
    (
      rows ∙ ap (λ z. w.members.rows ++ z ∷ []) m_is,
      sym (ap (λ (z : MemberInRoom). z.wallet_address) m_is),
      (
        sym (ap (λ (z : MemberInRoom). z.chat_room_id) m_is),
        sym (ap (λ (z : MemberInRoom). z.status) m_is),
        sym (ap (λ (z : MemberInRoom). z.role) m_is),
        sym (ap (λ (z : MemberInRoom). z.added_by_user_id) m_is),
      ),
    )

-- The rows that the invitations of a list of addresses add, one for each address and in their order.
abbrev pub Adds : ℕ → ℕ → List String → List MemberInRoom → World → World → Type 0
Adds user_id room_id addresses ms w v =
    (v.members.rows ≡ w.members.rows ++ ms)
    × (map (λ m. m.wallet_address) ms ≡ addresses)
    × All (IsInvitation user_id room_id) ms

append_assoc : {A : Type 0} (xs ys zs : List A) → (xs ++ ys) ++ zs ≡ xs ++ (ys ++ zs)
append_assoc [] ys zs = refl
append_assoc (x ∷ xs) ys zs = ap (λ l. x ∷ l) (append_assoc xs ys zs)

add_all-ok :
    (user_id room_id : ℕ) (addresses : List String) (w v : World) (ms : List MemberInRoom)
    → for_each addresses (add_member_to_room user_id room_id) w ≡ (ok ms, v)
    → Adds user_id room_id addresses ms w v
unfolding for_each
add_all-ok user_id room_id [] w v ms h =
    let (ms_is, v_is) = pure-ok [] ms w v h in
    let P = λ (l : List MemberInRoom). Adds user_id room_id [] l w v in
    subst P ms_is
      (ap (λ (z : World). z.members.rows) v_is ∙ sym (append_nil w.members.rows), refl, tt)
  where
    append_nil : (xs : List MemberInRoom) → xs ++ [] ≡ xs
    append_nil [] = refl
    append_nil (x ∷ xs) = ap (λ l. x ∷ l) (append_nil xs)
add_all-ok user_id room_id (a ∷ as') w v ms h =
    let (m, u, hf, h1) = bind-ok _ _ w v ms h in
    let (rest, u', hr, h2) = bind-ok _ _ u v ms h1 in
    let (ms_is, v_is) = pure-ok (m ∷ rest) ms u' v h2 in
    let (rows, address, is_new) = add_member_to_room-ok user_id room_id a w u m hf in
    let (rows', addresses, are_new) = add_all-ok user_id room_id as' u u' rest hr in
    let P = λ (l : List MemberInRoom). Adds user_id room_id (a ∷ as') l w v in
    subst P ms_is (
      ap (λ (z : World). z.members.rows) v_is
          ∙ rows'
          ∙ ap (λ l. l ++ rest) rows
          ∙ append_assoc w.members.rows (m ∷ []) rest,
      ap₂ (λ x xs. x ∷ xs) address addresses,
      (is_new, are_new),
    )

leb-le : (a b : ℕ) → leb a b ≡ true → a ≤ b
leb-le a b h = ground arith

pub refuse_existing-state : (o : Option MemberInRoom) (w : World) → (refuse_existing o w).1 ≡ w
unfolding refuse_existing pure raise
refuse_existing-state none w = refl
refuse_existing-state (some m) w = elim (Bool-cases (m.status == MemberStatus.joined)) [
  | inl e ↦ rw e refl
  | inr e ↦ rw e refl
]

refuse_existing-ok :
    (o : Option MemberInRoom) (w v : World) → refuse_existing o w ≡ (ok tt, v) → v ≡ w
refuse_existing-ok o w v h =
    sym (ap (λ (z : Result (Unit {0}) × World). z.1) h) ∙ refuse_existing-state o w

check_can_add-ok :
    (user_id : ℕ) (input : AddMembersToRoomInput) (w v : World)
    → check_can_add user_id input w ≡ (ok tt, v)
    → (v ≡ w)
      × (get_number_of_members_in_room input.room_id w + length input.addresses
          ≤ max_member_per_group_count)
unfolding check_can_add
check_can_add-ok user_id input w v h =
    let (_, h1) = guard-bind-ok _ _ _ w v tt h in
    let h2 = gets-bind-ok _ _ w v tt h1 in
    let (fits, h3) = guard-bind-ok _ _ _ w v tt h2 in
    let h4 = gets-bind-ok _ _ w v tt h3 in
    let (owner, _, h5) = need-bind-ok _ _ _ w v tt h4 in
    let (_, h6) = guard-bind-ok _ _ _ w v tt h5 in
    let h7 = gets-bind-ok _ _ w v tt h6 in
    let (_, u, hx, h8) = bind-ok _ _ w v tt h7 in
    let h9 = gets-bind-ok _ _ u v tt h8 in
    ((guard-ok _ _ u v h9).1 ∙ refuse_existing-ok _ w u hx, leb-le _ _ fits)

active :
    (room_id : ℕ) (m : MemberInRoom)
    → m.chat_room_id ≡ room_id
    → m.status ≡ MemberStatus.invited
    → is_active_in_room room_id m ≡ true
unfolding includes
active room_id m r st = rw (r, st) (is_own room_id)
  where
    is_own : (n : ℕ) → ((n == n) && true) ≡ true
    is_own n = ground arith

count_new :
    (user_id room_id : ℕ) (ms : List MemberInRoom)
    → All (IsInvitation user_id room_id) ms
    → count_where (is_active_in_room room_id) ms ≡ length ms
unfolding count_where
count_new user_id room_id [] h = refl
count_new user_id room_id (m ∷ ms) h =
    rw (active room_id m h.0.0 h.0.1, count_where) (ap suc (count_new user_id room_id ms h.1))

length-map : {A B : Type 0} (f : A → B) (xs : List A) → length (map f xs) ≡ length xs
length-map f [] = refl
length-map f (x ∷ xs) = ap suc (length-map f xs)

-- Where the invitation of a list of addresses returns, it has appended one row to `member_in_room` for
-- each address, in their order: a member of the room with the status `invited`, added by the caller. The
-- number of members of the room that are joined, invited or waiting has grown by the number of addresses
-- and is at most `MAX_MEMBER_PER_GROUP`.
pub add_member_list_to_room-ok :
    (user_id : ℕ) (input : AddMembersToRoomInput) (w v : World) (ms : List MemberInRoom)
    → add_member_list_to_room user_id input w ≡ (ok ms, v)
    → Adds user_id input.room_id input.addresses ms w v
      × (get_number_of_members_in_room input.room_id v
          ≡ get_number_of_members_in_room input.room_id w + length input.addresses)
      × (get_number_of_members_in_room input.room_id v ≤ max_member_per_group_count)
unfolding add_member_list_to_room get_number_of_members_in_room
add_member_list_to_room-ok user_id input w v ms h =
    let (_, u, hc, h1) = bind-ok _ _ w v ms h in
    let (u_is, fits) = check_can_add-ok user_id input w u hc in
    let h2 =
      subst
        (λ z. for_each input.addresses (add_member_to_room user_id input.room_id) z ≡ (ok ms, v))
        u_is h1 in
    let (rows, addresses, new) = add_all-ok user_id input.room_id input.addresses w v ms h2 in
    let count =
      ap (count_where (is_active_in_room input.room_id)) rows
      ∙ count_where-append (is_active_in_room input.room_id) w.members.rows ms
      ∙ ap (λ n. count_where (is_active_in_room input.room_id) w.members.rows + n)
          (count_new user_id input.room_id ms new ∙ sym (length-map _ ms) ∙ ap length addresses) in
    ((rows, addresses, new), count, omega (arith, count, fits))
