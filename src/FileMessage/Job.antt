-- ===== src/FileMessage/Job.antt =====
-- src/message/services/message.service.ts, lines 1396 to 1434: the job for the upload of a file.
use mathlib.Core.Path.{subst}
use nestjs_ex.ChatHelper.Frame.{SameWorld, get_data_for_chat_queue-At, kept}
use nestjs_ex.Entities.{UploadJob}
use nestjs_ex.Prelude.{
  Bool, String, [], ap, false, inl, inr, refl, sym, true, ℕ, ◌++◌, ◌∙◌, ◌∷◌, ◌≡◌, ◌⊎◌,
}
use nestjs_ex.Sending.Again.{add_to_upload_file_queue, get_receivers_addresses}
use nestjs_ex.World.{Exec, Result, World, err, modify, not_awaited, ok, ◌>>=◌}
use nestjs_ex.World.Laws.{At, At-gets-bind, At-need-bind, At-pure}
use nestjs_ex.World.Running.{bind-run, bind-throws}

-- A read in front of the rest: the rest is not reached, or it runs from the same state.
read-bind-cases :
    {A B : Type 0} (m : Exec A) (k : A → Exec B) (w : World)
    → At SameWorld w m
    → (((m >>= k) w).1 ≡ w) ⊎ ((a : A) × ((m >>= k) w ≡ k a w))
read-bind-cases {A} {B} m k w h = split (m w).0 (m w).1 refl
  where
    split :
        (r : Result A) (u : World)
        → m w ≡ (r, u)
        → (((m >>= k) w).1 ≡ w) ⊎ ((a : A) × ((m >>= k) w ≡ k a w))
    split (ok a) u e =
        let u_is : u ≡ w = kept m w u a h e in inr (a, bind-run m k a w u e ∙ ap (k a) u_is)
    split (err x) u e =
        let u_is : u ≡ w = sym (ap (λ (z : Result A × World). z.1) e) ∙ h.holds in
        inl (ap (λ (z : Result B × World). z.1) (bind-throws m k x w u e) ∙ u_is)

get_receivers_addresses-At :
    {w : World} (user_id room_id : ℕ) (is_group : Bool)
    → At SameWorld w (get_receivers_addresses user_id room_id is_group)
unfolding get_receivers_addresses
get_receivers_addresses-At user_id room_id true = At-pure _
get_receivers_addresses-At user_id room_id false =
    At-gets-bind _ _ (At-need-bind _ _ _ λ o e. At-pure _)

-- The state with or without the one job for the file.
abbrev pub JobOrNone : ℕ → ℕ → World → World → Type 0
JobOrNone message_id file_id w v =
    (v ≡ w)
    ⊎ ((job : UploadJob) × (job.message_id ≡ message_id)
        × (job.file_id ≡ file_id)
        × (v ≡ record w { encrypt_file_queue = w.encrypt_file_queue ++ job ∷ [] }))

add_to_upload_file_queue-JobOrNone :
    (user_id : ℕ) (address : String) (room_id message_id file_id : ℕ) (w : World)
    → JobOrNone message_id file_id w
        (add_to_upload_file_queue user_id address room_id message_id file_id w).1
unfolding add_to_upload_file_queue modify
add_to_upload_file_queue-JobOrNone user_id address room_id message_id file_id w =
    elim (read-bind-cases _ _ w (get_data_for_chat_queue-At {F = SameWorld} _)) [
      | inl same ↦ inl same
      | inr (q, e) ↦
          elim (read-bind-cases _ _ w (get_receivers_addresses-At user_id room_id q.is_group)) [
            | inl same ↦ inl (ap (λ (z : Result (Unit {0}) × World). z.1) e ∙ same)
            | inr (to, f) ↦ inr (_, refl, refl, ap (λ (z : Result (Unit {0}) × World). z.1) (e ∙ f))
          ]
    ]

pub not_awaited-JobOrNone :
    (user_id : ℕ) (address : String) (room_id message_id file_id : ℕ) (w v : World)
    → not_awaited (add_to_upload_file_queue user_id address room_id message_id file_id) w
      ≡ (ok tt, v)
    → JobOrNone message_id file_id w v
unfolding not_awaited
not_awaited-JobOrNone user_id address room_id message_id file_id w v h =
    subst (JobOrNone message_id file_id w) (ap (λ (z : Result (Unit {0}) × World). z.1) h)
      (add_to_upload_file_queue-JobOrNone user_id address room_id message_id file_id w)
