-- ===== src/UserSettings/Refinement.antt =====
-- src/user-setting/services/user-setting.service.ts: the table of settings as a map from users to values.
use mathlib.Core.Path.{subst}
use nestjs_ex.Entities.{UserSetting}
use nestjs_ex.Network.Found.{get_by_id-ok}
use nestjs_ex.Prelude.{
  Bool-cases, Has, Option, ap, find_first-Has, if◌then◌else◌, inl, inr, is_some, nat_beq_iff,
  nat_eq, none, refl, some, sym, text_eq, true, ℕ, ◌==◌, ◌∙◌, ◌≡◌,
}
use nestjs_ex.Store.Finding.{
  Keyed-saved, find_first-inserted, find_first-inserted_other, find_first-saved,
  find_first-saved_other,
}
use nestjs_ex.Store.Keyed.{Keyed, Keyed-append}
use nestjs_ex.UserSettings.{
  AddUserSettingInput, create_default_setting, default_if_missing, default_setting,
  find_setting_by_user_id, insert_setting, merged_setting, new_setting, update_setting,
  upsert_setting, write_setting,
}
use nestjs_ex.World.{World, ok, ◌>>=◌}
use nestjs_ex.World.Outcome.{bind-ok, gets-bind-ok, guard-bind-ok}

-- What the component promises: each user has at most one value, which a user sets or starts with. Keys, dates
-- and the order of the rows are forgotten.
abbrev pub SettingMap : Type 0
SettingMap = ℕ → Option AddUserSettingInput

abbrev pub put : ℕ → AddUserSettingInput → SettingMap → SettingMap
put user_id value m other = if user_id == other then some value else m other

abbrev pub put_if_missing : ℕ → AddUserSettingInput → SettingMap → SettingMap
put_if_missing user_id value m = if is_some (m user_id) then m else put user_id value m

abbrev pub value_of : Option UserSetting → Option AddUserSettingInput
value_of none = none
value_of (some s) = some (record {
  language = s.language;
  display_currency = s.display_currency;
  biometrics = s.biometrics;
  use_user_wallet_id = s.use_user_wallet_id;
  use_network_id = s.use_network_id;
  gas_fee_level = s.gas_fee_level;
  is_enable_autosign_message = s.is_enable_autosign_message;
})

-- The table represents the map, and its keys are distinct.
pub record Represents (w : World) (m : SettingMap) : Type 0 where
  pub keyed : Keyed UserSetting.id w.settings.next_id w.settings.rows
  pub agrees : (user_id : ℕ) → value_of (find_setting_by_user_id user_id w) ≡ m user_id

found_user :
    (user_id : ℕ) (w : World) (s : UserSetting)
    → find_setting_by_user_id user_id w ≡ some s
    → Has s w.settings.rows × (s.user_id ≡ user_id)
unfolding find_setting_by_user_id
found_user user_id w s e =
    let (stored, own) = find_first-Has (λ x. x.user_id == user_id) w.settings.rows s e in
    (stored, (nat_beq_iff s.user_id user_id).0 own)

at_user :
    (user_id other : ℕ) (w : World) (o : Option UserSetting)
    → (user_id == other) ≡ true
    → find_setting_by_user_id user_id w ≡ o
    → find_setting_by_user_id other w ≡ o
at_user user_id other w o same e =
    subst (λ u. find_setting_by_user_id u w ≡ o) ((nat_beq_iff user_id other).0 same) e

-- A row is inserted for a user that has none.
insert_setting-Represents :
    (user_id : ℕ) (input : AddUserSettingInput) (now : ℕ) (w : World) (m : SettingMap)
    → Represents w m
    → find_setting_by_user_id user_id w ≡ none
    → Represents (insert_setting (new_setting user_id input now) w).1 (put user_id input m)
unfolding insert_setting find_setting_by_user_id
insert_setting-Represents user_id input now w m r none_yet =
    let s = new_setting user_id input now w.settings.next_id in
    record {
      keyed = Keyed-append UserSetting.id w.settings.next_id w.settings.rows s refl r.keyed;
      agrees = λ other. elim (Bool-cases (user_id == other)) [
        | inl same ↦ rw same (
            ap value_of (
              find_first-inserted _ w.settings.rows s (at_user user_id other w none same none_yet)
                same))
        | inr different ↦
            rw different (
              ap value_of (find_first-inserted_other _ w.settings.rows s different)
              ∙ r.agrees other)
      ];
    }

-- A row of the user is rewritten.
update_setting-Represents :
    (user_id : ℕ) (input : AddUserSettingInput) (now : ℕ) (w : World) (m : SettingMap)
    (old : UserSetting)
    → Represents w m
    → find_setting_by_user_id user_id w ≡ some old
    → Represents (update_setting (merged_setting old input now) w).1 (put user_id input m)
unfolding update_setting find_setting_by_user_id
update_setting-Represents user_id input now w m old r found =
    let s = merged_setting old input now in
    let (stored, own) = found_user user_id w old found in
    record {
      keyed = Keyed-saved UserSetting.id w.settings.next_id w.settings.rows old s r.keyed;
      agrees = λ other. elim (Bool-cases (user_id == other)) [
        | inl same ↦ rw same (
            ap value_of (
              find_first-saved UserSetting.id w.settings.next_id w.settings.rows old s _ r.keyed
                refl (at_user user_id other w (some old) same found) (rw own same)))
        | inr different ↦ rw different (
            ap value_of (
              find_first-saved_other UserSetting.id w.settings.next_id w.settings.rows old s _
                r.keyed stored refl (rw own different) (rw own different))
            ∙ r.agrees other)
      ];
    }

write_setting-Represents :
    (user_id : ℕ) (input : AddUserSettingInput) (now : ℕ) (w v : World) (m : SettingMap)
    (s : UserSetting) (found : Option UserSetting)
    → Represents w m
    → find_setting_by_user_id user_id w ≡ found
    → write_setting user_id input now found w ≡ (ok s, v)
    → Represents v (put user_id input m)
unfolding write_setting
write_setting-Represents user_id input now w v m s none r e h =
    subst (λ z. Represents z (put user_id input m)) (ap (λ p. p.1) h)
      (insert_setting-Represents user_id input now w m r e)
write_setting-Represents user_id input now w v m s (some old) r e h =
    subst (λ z. Represents z (put user_id input m)) (ap (λ p. p.1) h)
      (update_setting-Represents user_id input now w m old r e)

-- Where the table represents a map from users to values and `upsertSetting` returns, the table then represents
-- the map in which the user has the value of the request, and every other user what it had.
pub upsert_setting-Represents :
    (user_id : ℕ) (input : AddUserSettingInput) (w v : World) (m : SettingMap) (s : UserSetting)
    → Represents w m
    → upsert_setting user_id input w ≡ (ok s, v)
    → Represents v (put user_id input m)
unfolding upsert_setting
upsert_setting-Represents user_id input w v m s r h =
    let (network, u, hn, h1) = bind-ok _ _ w v s h in
    let h2 = gets-bind-ok _ _ u v s h1 in
    let (_, h3) = guard-bind-ok _ _ _ u v s h2 in
    let h4 = gets-bind-ok _ _ u v s h3 in
    let (_, h5) = guard-bind-ok _ _ _ u v s h4 in
    let h6 = gets-bind-ok _ _ u v s h5 in
    let h7 = gets-bind-ok _ _ u v s h6 in
    let at_u : Represents u m =
      subst (λ z. Represents z m) (sym (get_by_id-ok input.use_network_id w u network hn).1) r in
    write_setting-Represents user_id input u.env.now u v m s (find_setting_by_user_id user_id u)
      at_u refl h7

put_if_missing-none :
    (user_id : ℕ) (value : AddUserSettingInput) (m : SettingMap)
    → m user_id ≡ none
    → put_if_missing user_id value m ≡ put user_id value m
put_if_missing-none user_id value m e = rw e refl

put_if_missing-some :
    (user_id : ℕ) (value : AddUserSettingInput) (m : SettingMap) (old : AddUserSettingInput)
    → m user_id ≡ some old
    → put_if_missing user_id value m ≡ m
put_if_missing-some user_id value m old e = rw e refl

-- Where the table represents a map, `createDefaultSetting` returns, and the table then represents the map in which
-- a user without a value has the default one.
pub create_default_setting-Represents :
    (user_id network_id wallet_id : ℕ) (w : World) (m : SettingMap)
    → Represents w m
    → ((create_default_setting user_id network_id wallet_id w).0 ≡ ok tt)
      × Represents
          (create_default_setting user_id network_id wallet_id w).1
          (put_if_missing user_id (default_setting network_id wallet_id) m)
unfolding create_default_setting default_if_missing insert_setting ◌>>=◌
create_default_setting-Represents user_id network_id wallet_id w m r =
    default_lem (find_setting_by_user_id user_id w) refl
  where
    default_lem :
        (found : Option UserSetting)
        → find_setting_by_user_id user_id w ≡ found
        → ((default_if_missing user_id network_id wallet_id w.env.now found w).0 ≡ ok tt)
          × Represents
              (default_if_missing user_id network_id wallet_id w.env.now found w).1
              (put_if_missing user_id (default_setting network_id wallet_id) m)
    default_lem none e =
        let missing : m user_id ≡ none = sym (r.agrees user_id) ∙ ap value_of e in
        let value = default_setting network_id wallet_id in
        let rep = insert_setting-Represents user_id value w.env.now w m r e in
        (
          refl,
          subst (λ n. Represents (insert_setting (new_setting user_id value w.env.now) w).1 n)
              (sym (put_if_missing-none user_id value m missing)) rep,
        )
    default_lem (some s) e =
        let there : m user_id ≡ value_of (some s) = sym (r.agrees user_id) ∙ ap value_of e in
        (
          refl,
          subst (λ n. Represents w n)
              (sym (put_if_missing-some user_id (default_setting network_id wallet_id) m _ there))
              r,
        )
