-- ===== src/Api/Removal.antt =====
-- `removeMemberFromRoom`: its loop takes back the invitations of the rows that it has read before.
use mathlib.Core.Path.{subst}
use nestjs_ex.Api.Membership.{send_chat_queue_data-Lifecycle}
use nestjs_ex.Entities.{MemberInRoom, MemberStatus, member_status_eq, role_eq}
use nestjs_ex.Member.{add_notification_to_queue, update_member_in_room}
use nestjs_ex.Member.Lifecycle.{
  At-same_members, Lifecycle, Moves, Moves-from, Moves-same, may_become, member_id,
}
use nestjs_ex.Member.Remove.{
  RemoveMemberFromRoomInput, cancel_invitation, is_removable, remove_joined,
  remove_member_from_room,
}
use nestjs_ex.Prelude.{
  Bool, Bool-cases, Has, Has-select, List, Option, String, [], ap, arith, false, inl, inr,
  nat_beq_iff, nat_eq, refl, select, sym, text_eq, true, ℕ, ◌==◌, ◌||◌, ◌∙◌, ◌∷◌, ◌≡◌, ◌⊎◌,
}
use nestjs_ex.Store.{Table, update_rows, update_where}
use nestjs_ex.Store.Keyed.{
  Evolves, Evolves-update_where, Has-update_where, Keyed, Keyed-unique, Keyed-update_where,
}
use nestjs_ex.World.{World, for_each, ok, pure, ◌>>=◌}
use nestjs_ex.World.Laws.{
  At, At-bind, At-gets-bind, At-guard-bind, At-need-bind, At-pure, Frame, for_each-cons-state,
}

abbrev pub cancelled : MemberInRoom → ℕ → MemberInRoom
cancelled m now = record m { status = MemberStatus.out; updated_at = now }

-- An invitation that can be taken back.
abbrev pub is_open : MemberInRoom → Bool
is_open m = (m.status == MemberStatus.invited) || (m.status == MemberStatus.pending_approval)

cancel_invitation-ok :
    (user_id room_id : ℕ) (m : MemberInRoom) (w : World)
    → (cancel_invitation user_id room_id m w).0 ≡ ok tt
unfolding cancel_invitation ◌>>=◌ update_member_in_room add_notification_to_queue
cancel_invitation-ok user_id room_id m w = elim (Bool-cases (is_open m)) [
  | inl e ↦ rw e refl
  | inr e ↦ rw e refl
]

cancel_invitation-open :
    (user_id room_id : ℕ) (m : MemberInRoom) (w : World)
    → is_open m ≡ true
    → (cancel_invitation user_id room_id m w).1.members
      ≡ update_rows (λ x. x.id == m.id) (λ x. cancelled m w.env.now) w.members
unfolding cancel_invitation ◌>>=◌ update_member_in_room add_notification_to_queue
cancel_invitation-open user_id room_id m w e = rw e refl

cancel_invitation-closed :
    (user_id room_id : ℕ) (m : MemberInRoom) (w : World)
    → is_open m ≡ false
    → (cancel_invitation user_id room_id m w).1 ≡ w
unfolding cancel_invitation pure
cancel_invitation-closed user_id room_id m w e = rw e refl

-- Whatever row has the key of `m` may be taken out as `m` is.
abbrev Covers : MemberInRoom → List MemberInRoom → Type 0
Covers m rows =
    is_open m ≡ true
    → (x : MemberInRoom) (now : ℕ) → Has x rows
    → x.id ≡ m.id
    → Moves x (cancelled m now)

is_open-may_become :
    (s : MemberStatus)
    → ((s == MemberStatus.invited) || (s == MemberStatus.pending_approval)) ≡ true
    → may_become s MemberStatus.out ≡ true
is_open-may_become s h = ground arith

Has-Covers :
    (n : ℕ) (rows : List MemberInRoom) (m : MemberInRoom)
    → Keyed member_id n rows
    → Has m rows
    → Covers m rows
Has-Covers n rows m k has open_m x now hx e =
    subst (λ z. Moves z (cancelled m now)) (Keyed-unique member_id n rows m x k has hx (sym e))
      (Moves-from m (cancelled m now) m.status refl (is_open-may_become m.status open_m)
        (refl, refl, refl, refl, refl))

-- Two rows that move to the same kind of row differ in nothing that `Moves` names.
cancelled-Moves :
    (x m m' : MemberInRoom) (now later : ℕ)
    → Moves x (cancelled m now)
    → Moves x (cancelled m' later)
    → Moves (cancelled m now) (cancelled m' later)
cancelled-Moves x m m' now later p q = record {
  same_id = q.same_id ∙ sym p.same_id;
  same_room = q.same_room ∙ sym p.same_room;
  same_user = q.same_user ∙ sym p.same_user;
  same_address = q.same_address ∙ sym p.same_address;
  same_role = q.same_role ∙ sym p.same_role;
  allowed = refl;
}

Covers-update :
    (rows : List MemberInRoom) (m m' : MemberInRoom) (now : ℕ)
    → is_open m ≡ true
    → Covers m rows
    → Covers m' rows
    → Covers m' (update_where (λ x. x.id == m.id) (λ x. cancelled m now) rows)
Covers-update rows m m' now open_m c c' open_m' y later hy e =
    let (x, hx, how) = Has-update_where (λ x. x.id == m.id) (λ x. cancelled m now) rows y hy in
    from_row x hx how
  where
    from_row :
        (x : MemberInRoom)
        → Has x rows
        → ((((x.id == m.id) ≡ true) × (cancelled m now ≡ y)) ⊎ (x ≡ y))
        → Moves y (cancelled m' later)
    from_row x hx (inr same) =
        subst (λ z. Moves z (cancelled m' later)) same
          (c' open_m' x later hx (ap member_id same ∙ e))
    from_row x hx (inl (hit, same)) =
        let id_x = (nat_beq_iff x.id m.id).0 hit in
        let id_m = ap member_id same in
        subst (λ z. Moves z (cancelled m' later)) same
          (cancelled-Moves x m m' now later (c open_m x now hx id_x)
            (c' open_m' x later hx (id_x ∙ id_m ∙ e)))

abbrev AllCovered : List MemberInRoom → World → Type 0
AllCovered ms w = (m : MemberInRoom) → Has m ms → Covers m w.members.rows

module _ (user_id room_id : ℕ) where
  round-Lifecycle :
      (m : MemberInRoom) (w : World)
      → Covers m w.members.rows
      → At Lifecycle w (cancel_invitation user_id room_id m)
  round-Lifecycle m w c = elim (Bool-cases (is_open m)) [
    | inr e ↦
        At-same_members _ (ap (λ v. v.members) (cancel_invitation-closed user_id room_id m w e))
    | inl e ↦ record {
      holds = λ k.
          let P = λ (t : Table MemberInRoom).
            Keyed member_id t.next_id t.rows × Evolves Moves w.members.rows t.rows in
          subst P (sym (cancel_invitation-open user_id room_id m w e)) (
            Keyed-update_where member_id w.members.next_id _ _ w.members.rows
                (λ x hit. sym ((nat_beq_iff x.id m.id).0 hit)) k,
            Evolves-update_where Moves Moves-same _ _ w.members.rows
                (λ x hx hit. c e x w.env.now hx ((nat_beq_iff x.id m.id).0 hit)),
          );
    }
  ]

  round-Covers :
      (m m' : MemberInRoom) (w : World)
      → Covers m w.members.rows
      → Covers m' w.members.rows
      → Covers m' (cancel_invitation user_id room_id m w).1.members.rows
  round-Covers m m' w c c' = elim (Bool-cases (is_open m)) [
    | inr e ↦
        subst (λ (v : World). Covers m' v.members.rows)
          (sym (cancel_invitation-closed user_id room_id m w e)) c'
    | inl e ↦
        subst (λ (t : Table MemberInRoom). Covers m' t.rows)
          (sym (cancel_invitation-open user_id room_id m w e))
          (Covers-update w.members.rows m m' w.env.now e c c')
  ]

  pub cancel_all-Lifecycle :
      (ms : List MemberInRoom) (w : World)
      → AllCovered ms w
      → At Lifecycle w (for_each ms (cancel_invitation user_id room_id))
  unfolding for_each
  cancel_all-Lifecycle [] w c = At-pure []
  cancel_all-Lifecycle (m ∷ ms) w c = record {
    holds =
        let f = cancel_invitation user_id room_id in
        let first = round-Lifecycle m w (c m (inl refl)) in
        let rest =
          cancel_all-Lifecycle ms (f m w).1
            (λ m' h. round-Covers m m' w (c m (inl refl)) (c m' (inr h))) in
        subst (Frame.Rel Lifecycle w)
          (sym (for_each-cons-state m ms f tt w (cancel_invitation-ok user_id room_id m w)))
          (Frame.trans Lifecycle w (f m w).1 (for_each ms f (f m w).1).1 first.holds rest.holds);
  }

remove_joined-Lifecycle :
    {w : World} (input : RemoveMemberFromRoomInput) (o : Option MemberInRoom)
    (ms : List MemberInRoom) (joined : List String)
    → At Lifecycle w (remove_joined input o ms joined)
unfolding remove_joined
remove_joined-Lifecycle input o ms [] = At-pure tt
remove_joined-Lifecycle input o ms (a ∷ as') =
    At-need-bind _ _ _ λ owner e. send_chat_queue_data-Lifecycle _

-- The rows that were read still cover themselves when the loop starts, since nothing is written before.
read_then_cancel-Lifecycle :
    (user_id : ℕ) (input : RemoveMemberFromRoomInput) (w : World) (p : MemberInRoom → Bool)
    → At Lifecycle w (for_each (select p w.members.rows) (cancel_invitation user_id input.room_id))
read_then_cancel-Lifecycle user_id input w p = record {
  holds = λ k.
      (cancel_all-Lifecycle user_id input.room_id (select p w.members.rows) w (λ m h.
          Has-Covers w.members.next_id w.members.rows m k
            (Has-select p w.members.rows m h).0)).holds
        k;
}

pub remove_member_from_room-Lifecycle :
    {w : World} (user_id : ℕ) (input : RemoveMemberFromRoomInput)
    → At Lifecycle w (remove_member_from_room user_id input)
unfolding remove_member_from_room
remove_member_from_room-Lifecycle {w} user_id input = At-guard-bind _ _ _ λ a. At-gets-bind _ _ (
    At-guard-bind _ _ _ λ b. At-gets-bind _ _ (
      At-gets-bind _ _ (
        At-gets-bind _ _ (
          At-guard-bind _ _ _ λ c. At-gets-bind _ _ (
            At-bind _ _ (read_then_cancel-Lifecycle user_id input w (is_removable w.env input))
              λ _ u. remove_joined-Lifecycle _ _ _ _)))))
