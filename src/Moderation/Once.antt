-- ===== src/Moderation/Once.antt =====
-- src/remove-message and src/spam-report: a message is hidden, and reported, at most once by each user.
use mathlib.Core.Path.{subst}
use nestjs_ex.Entities.{RemoveMessage, SpamReport}
use nestjs_ex.Moderation.{
  AddSpamReportInput, add_remove_message, add_spam_report, find_removed, find_report, removed_row,
  report_row,
}
use nestjs_ex.Prelude.{
  Bool, Has-append_right, List, [], arith, false, find_first, inl, is_some, is_some-find_first,
  nat_eq, not, refl, sym, text_eq, true, ℕ, ◌&&◌, ◌++◌, ◌==◌, ◌∷◌, ◌≡◌,
}
use nestjs_ex.World.{World, at_time, ok}
use nestjs_ex.World.Outcome.{gets-bind-ok, guard-bind-ok, modify-bind-ok, need-bind-ok, pure-ok}
use nestjs_ex.World.Refusal.{Refuses, Refuses-gets-bind, Refuses-guard-bind, Refuses-need-bind}

find_first-append :
    {A : Type 0} (p : A → Bool) (xs : List A) (x : A)
    → p x ≡ true
    → is_some (find_first p (xs ++ x ∷ [])) ≡ true
find_first-append p xs x h =
    is_some-find_first p (xs ++ x ∷ []) x (Has-append_right x xs (x ∷ []) (inl refl)) h

same_pair : (a b : ℕ) → ((a == a) && (b == b)) ≡ true
same_pair a b = ground arith

not-true : (b : Bool) → b ≡ true → not b ≡ false
not-true b h = ground arith

-- What a hiding that returned has written.
add_remove_message-ok :
    (user_id id : ℕ) (w v : World) (row : RemoveMessage)
    → add_remove_message user_id id w ≡ (ok row, v)
    → is_some (find_removed user_id id v) ≡ true
unfolding add_remove_message find_removed
add_remove_message-ok user_id id w v row h =
    let h1 = gets-bind-ok _ _ w v row h in
    let (m, _, h2) = need-bind-ok _ _ _ w v row h1 in
    let (_, h3) = guard-bind-ok _ _ _ w v row h2 in
    let h4 = gets-bind-ok _ _ w v row h3 in
    let (_, h5) = guard-bind-ok _ _ _ w v row h4 in
    let h6 = gets-bind-ok _ _ w v row h5 in
    let (_, h7) = guard-bind-ok _ _ _ w v row h6 in
    let h8 = gets-bind-ok _ _ w v row h7 in
    let (_, e) = pure-ok _ row _ v (modify-bind-ok _ _ w v row h8) in
    subst (λ u. is_some (find_removed user_id id u) ≡ true) (sym e)
      (find_first-append _ w.removed.rows (removed_row user_id id w.removed.next_id)
        (same_pair user_id id))

-- Where a user has hidden a message, hiding it again throws and writes nothing.
again-Refuses :
    (user_id id : ℕ) (w : World)
    → is_some (find_removed user_id id w) ≡ true
    → Refuses w (add_remove_message user_id id)
unfolding add_remove_message
again-Refuses user_id id w h = Refuses-gets-bind _ _ (
    Refuses-need-bind _ _ _ λ m e. Refuses-guard-bind _ _ _ λ a. Refuses-gets-bind _ _ (
      Refuses-guard-bind _ _ _
        λ b. Refuses-gets-bind _ _ (Refuses-guard-bind _ _ _ λ c. absurd (cc (c, not-true _ h)))))

-- Once a user's hiding of a message has returned, the same call throws and writes nothing, at any time.
pub add_remove_message-once :
    (user_id id : ℕ) (w v : World) (row : RemoveMessage)
    → add_remove_message user_id id w ≡ (ok row, v)
    → (t : ℕ) → Refuses (at_time t v) (add_remove_message user_id id)
unfolding find_removed
add_remove_message-once user_id id w v row h t =
    again-Refuses user_id id (at_time t v) (add_remove_message-ok user_id id w v row h)

-- What a report that returned has written.
add_spam_report-ok :
    (user_id : ℕ) (input : AddSpamReportInput) (w v : World) (row : SpamReport)
    → add_spam_report user_id input w ≡ (ok row, v)
    → is_some (find_report user_id input.message_id v) ≡ true
unfolding add_spam_report find_report
add_spam_report-ok user_id input w v row h =
    let h1 = gets-bind-ok _ _ w v row h in
    let (m, _, h2) = need-bind-ok _ _ _ w v row h1 in
    let (_, h3) = guard-bind-ok _ _ _ w v row h2 in
    let (_, h3') = guard-bind-ok _ _ _ w v row h3 in
    let h4 = gets-bind-ok _ _ w v row h3' in
    let (_, h5) = guard-bind-ok _ _ _ w v row h4 in
    let h6 = gets-bind-ok _ _ w v row h5 in
    let (_, h7) = guard-bind-ok _ _ _ w v row h6 in
    let h8 = gets-bind-ok _ _ w v row h7 in
    let (_, e) = pure-ok _ row _ v (modify-bind-ok _ _ w v row h8) in
    subst (λ u. is_some (find_report user_id input.message_id u) ≡ true) (sym e)
      (find_first-append _ w.reports.rows (report_row user_id input w.reports.next_id)
        (same_pair user_id input.message_id))

-- Once a user's report of a message has returned, reporting the message again throws and writes nothing,
-- whatever the new report says and at any time.
pub add_spam_report-once :
    (user_id : ℕ) (input later : AddSpamReportInput) (w v : World) (row : SpamReport)
    → add_spam_report user_id input w ≡ (ok row, v)
    → later.message_id ≡ input.message_id
    → (t : ℕ) → Refuses (at_time t v) (add_spam_report user_id later)
unfolding add_spam_report find_report
add_spam_report-once user_id input later w v row h same t =
    let found = add_spam_report-ok user_id input w v row h in
    let again = subst (λ n. is_some (find_report user_id n v) ≡ true) (sym same) found in
    Refuses-gets-bind _ _ (
      Refuses-need-bind _ _ _ λ m e. Refuses-guard-bind _ _ _ λ a. Refuses-guard-bind _ _ _ λ d.
        Refuses-gets-bind _ _ (
          Refuses-guard-bind _ _ _ λ b.
            Refuses-gets-bind _ _
              (Refuses-guard-bind _ _ _ λ c. absurd (cc (c, not-true _ again)))))
