-- ===== src/Member/Lifecycle.antt =====
-- The life of a row of `member_in_room`: which changes of its status the services make.
use mathlib.Core.Path.{subst}
use nestjs_ex.Entities.{
  MemberInRoom, MemberStatus, member_status_beq_iff, member_status_eq, role_eq,
}
use nestjs_ex.Member.{
  find_room_member_with_status, insert_member, is_member_with_status, update_member_in_room,
}
use nestjs_ex.Prelude.{
  Bool, Has, [], arith, false, find_first-Has, nat_beq_iff, nat_eq, refl, some, sym, text_eq, true,
  ℕ, ◌==◌, ◌∙◌, ◌∷◌, ◌≡◌,
}
use nestjs_ex.Store.{Table}
use nestjs_ex.Store.Keyed.{
  Evolves, Evolves-append, Evolves-same, Evolves-trans, Evolves-update_where, Keyed, Keyed-append,
  Keyed-unique, Keyed-update_where,
}
use nestjs_ex.World.{Exec, World}
use nestjs_ex.World.Laws.{At, Frame}

-- The statuses that a row may take from a given one: an invitation is accepted, refused or taken back,
-- and one that waits for approval is taken back. `joined`, `cancel` and `out` are left alone: the worker
-- that follows the chain lets a member join and leave.
abbrev pub may_become : MemberStatus → MemberStatus → Bool
may_become MemberStatus.invited MemberStatus.joined = false
may_become MemberStatus.invited MemberStatus.invited = true
may_become MemberStatus.invited MemberStatus.pending_approval = true
may_become MemberStatus.invited MemberStatus.cancel = true
may_become MemberStatus.invited MemberStatus.out = true
may_become MemberStatus.pending_approval MemberStatus.joined = false
may_become MemberStatus.pending_approval MemberStatus.invited = false
may_become MemberStatus.pending_approval MemberStatus.pending_approval = true
may_become MemberStatus.pending_approval MemberStatus.cancel = false
may_become MemberStatus.pending_approval MemberStatus.out = true
may_become MemberStatus.joined s = s == MemberStatus.joined
may_become MemberStatus.cancel s = s == MemberStatus.cancel
may_become MemberStatus.out s = s == MemberStatus.out

pub may_become_same : (s : MemberStatus) → may_become s s ≡ true
may_become_same s = ground arith

may_become_trans :
    (r s t : MemberStatus) → may_become r s ≡ true → may_become s t ≡ true → may_become r t ≡ true
may_become_trans r s t h k = ground arith

-- What a service may do to a row: its key, room, user, address and role stay.
pub record Moves (x y : MemberInRoom) : Type 0 where
  pub same_id : y.id ≡ x.id
  pub same_room : y.chat_room_id ≡ x.chat_room_id
  pub same_user : y.user_id ≡ x.user_id
  pub same_address : y.wallet_address ≡ x.wallet_address
  pub same_role : y.role ≡ x.role
  pub allowed : may_become x.status y.status ≡ true

pub Moves-same : (x : MemberInRoom) → Moves x x
Moves-same x = record {
  same_id = refl;
  same_room = refl;
  same_user = refl;
  same_address = refl;
  same_role = refl;
  allowed = may_become_same x.status;
}

pub Moves-trans : (x y z : MemberInRoom) → Moves x y → Moves y z → Moves x z
Moves-trans x y z p q = record {
  same_id = q.same_id ∙ p.same_id;
  same_room = q.same_room ∙ p.same_room;
  same_user = q.same_user ∙ p.same_user;
  same_address = q.same_address ∙ p.same_address;
  same_role = q.same_role ∙ p.same_role;
  allowed = may_become_trans x.status y.status z.status p.allowed q.allowed;
}

-- The columns that stay, as equations.
abbrev pub SameColumns : MemberInRoom → MemberInRoom → Type 0
SameColumns x y =
    (y.id ≡ x.id)
    × (y.chat_room_id ≡ x.chat_room_id)
    × (y.user_id ≡ x.user_id)
    × (y.wallet_address ≡ x.wallet_address)
    × (y.role ≡ x.role)

pub Moves-from :
    (x y : MemberInRoom) (s : MemberStatus)
    → x.status ≡ s
    → may_become s y.status ≡ true
    → SameColumns x y
    → Moves x y
Moves-from x y s e h (i, r, u, a, role) = record {
  same_id = i;
  same_room = r;
  same_user = u;
  same_address = a;
  same_role = role;
  allowed = subst (λ t. may_become t y.status ≡ true) (sym e) h;
}

abbrev pub member_id : MemberInRoom → ℕ
member_id m = m.id

-- The keys of the table are distinct.
abbrev pub HasKeys : World → Type 0
HasKeys w = Keyed member_id w.members.next_id w.members.rows

-- From distinct keys, the table keeps distinct keys and every row moves as `Moves` allows.
abbrev pub Lifecycle : Frame
Lifecycle = record {
  Rel = λ v w. HasKeys v → HasKeys w × Evolves Moves v.members.rows w.members.rows;
  same = λ w k. (k, Evolves-same Moves Moves-same w.members.rows);
  trans = λ u v w p q k.
      let (kv, ev) = p k in
      let (kw, ew) = q kv in
      (kw, Evolves-trans Moves Moves-trans u.members.rows v.members.rows w.members.rows ev ew);
}

-- An action that leaves the table alone.
pub same_members-Lifecycle :
    (v w : World)
    → w.members ≡ v.members
    → HasKeys v
    → HasKeys w × Evolves Moves v.members.rows w.members.rows
same_members-Lifecycle v w e k =
    let P = λ (t : Table MemberInRoom).
      Keyed member_id t.next_id t.rows × Evolves Moves v.members.rows t.rows in
    subst P (sym e) (k, Evolves-same Moves Moves-same v.members.rows)

pub At-same_members :
    {A : Type 0} {w : World} (m : Exec A) → (m w).1.members ≡ w.members → At Lifecycle w m
At-same_members {w = w} m e = record { holds = same_members-Lifecycle w (m w).1 e }

-- The rewriting of a row that stands in the table.
pub update_member_in_room-Lifecycle :
    {w : World} (m m' : MemberInRoom)
    → Has m w.members.rows
    → Moves m m'
    → At Lifecycle w (update_member_in_room m')
unfolding update_member_in_room
update_member_in_room-Lifecycle {w} m m' has moves = record {
  holds = λ k. (
    Keyed-update_where member_id w.members.next_id _ _ w.members.rows
        (λ x e. sym ((nat_beq_iff x.id m'.id).0 e)) k,
    Evolves-update_where Moves Moves-same _ _ w.members.rows (λ x hx e.
        subst (λ z. Moves z m')
          (Keyed-unique member_id w.members.next_id w.members.rows m x k has hx
            (sym moves.same_id ∙ sym ((nat_beq_iff x.id m'.id).0 e)))
          moves),
  );
}

-- A new row.
pub insert_member-Lifecycle :
    {w : World} (row : ℕ → MemberInRoom)
    → ((n : ℕ) → (row n).id ≡ n)
    → At Lifecycle w (insert_member row)
unfolding insert_member
insert_member-Lifecycle {w} row h = record {
  holds = λ k. (
    Keyed-append member_id w.members.next_id w.members.rows (row w.members.next_id)
        (h w.members.next_id) k,
    Evolves-append Moves Moves-same w.members.rows (row w.members.next_id ∷ []),
  );
}

-- What a read of a row by user, room and status says of it.
pub find_room_member_with_status-Has :
    (user_id room_id : ℕ) (s : MemberStatus) (w : World) (m : MemberInRoom)
    → find_room_member_with_status user_id room_id s w ≡ some m
    → Has m w.members.rows × (m.user_id ≡ user_id) × (m.chat_room_id ≡ room_id) × (m.status ≡ s)
unfolding find_room_member_with_status
find_room_member_with_status-Has user_id room_id s w m e =
    let (has, fits) = find_first-Has (is_member_with_status user_id room_id s) w.members.rows m e in
    let (u, r, st) = with_status_sound user_id room_id s m fits in (has, u, r, st)
  where
    with_status_sound :
        (user_id room_id : ℕ) (s : MemberStatus) (m : MemberInRoom)
        → is_member_with_status user_id room_id s m ≡ true
        → (m.user_id ≡ user_id) × (m.chat_room_id ≡ room_id) × (m.status ≡ s)
    with_status_sound user_id room_id s m h = ground (arith, member_status_beq_iff m.status s)
