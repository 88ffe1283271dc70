-- ===== src/Files/Owned.antt =====
-- src/file/services/file.service.ts, lines 38 to 139: the row of a file that was uploaded.
use mathlib.Core.Path.{subst}
use nestjs_ex.ChatHelper.Frame.{SameWorld, kept}
use nestjs_ex.Entities.{File}
use nestjs_ex.Files.{
  MulterFile, construct_file, construct_ipfs_file, construct_local_file, construct_s3_file,
  create_file, new_file, s3_upload_file, save_file, upload_image,
}
use nestjs_ex.Prelude.{
  Bool, String, [], ap, false, if◌then◌else◌, nat_eq, refl, suc, text_eq, true, ℕ, ◌++◌, ◌==◌, ◌∙◌,
  ◌∷◌, ◌≡◌,
}
use nestjs_ex.World.{Exec, World, ok, pure, raise}
use nestjs_ex.World.Laws.{At, At-gets-bind, At-guard-bind, At-need, At-pure}
use nestjs_ex.World.Outcome.{bind-ok, err-ne-ok, gets-bind-ok, need-bind-ok, pure-ok, same_outcome}

-- A row that is only built: it takes the key that it is given, and the user owns it.
abbrev RowFits : ℕ → (ℕ → File) → Type 0
RowFits user_id row = (n : ℕ) → ((row n).id ≡ n) × ((row n).owner_id ≡ user_id)

abbrev Built : ℕ → Exec (ℕ → File) → Type 0
Built user_id m = (w v : World) (row : ℕ → File) → m w ≡ (ok row, v) → RowFits user_id row × (v ≡ w)

s3_upload_file-At : {w : World} (f : MulterFile) (p : String) → At SameWorld w (s3_upload_file f p)
unfolding s3_upload_file
s3_upload_file-At f p = At-gets-bind _ _ (At-guard-bind _ _ _ λ e. At-gets-bind _ _ (At-need _ _))

upload_image-At : {w : World} (f : MulterFile) (p : String) → At SameWorld w (upload_image f p)
unfolding upload_image
upload_image-At f p =
    At-gets-bind _ _
      (At-guard-bind _ _ _ λ e. At-gets-bind _ _ (At-guard-bind _ _ _ λ g. At-pure _))

row-fits :
    (user_id : ℕ) (f : MulterFile) (a b c d : String) (row : ℕ → File) (u v : World)
    → pure (new_file user_id f a b c d) u ≡ (ok row, v)
    → RowFits user_id row × (v ≡ u)
row-fits user_id f a b c d row u v h =
    let (row_is, v_is) = pure-ok (new_file user_id f a b c d) row u v h in
    (subst (RowFits user_id) row_is (λ n. (refl, refl)), v_is)

construct_s3_file-Built :
    (user_id : ℕ) (f : MulterFile) (p : String) → Built user_id (construct_s3_file user_id f p)
unfolding construct_s3_file
construct_s3_file-Built user_id f p w v row h =
    let (r, u, hr, h1) = bind-ok (s3_upload_file f p) _ w v row h in
    let (fits, v_is) = row-fits user_id f _ _ _ _ row u v h1 in
    (fits, v_is ∙ kept _ w u r (s3_upload_file-At f p) hr)

construct_local_file-Built :
    (user_id : ℕ) (f : MulterFile) (p : String) → Built user_id (construct_local_file user_id f p)
unfolding construct_local_file
construct_local_file-Built user_id f p w v row h =
    let (r, u, hr, h1) = bind-ok (upload_image f p) _ w v row h in
    let (fits, v_is) = row-fits user_id f _ _ _ _ row u v (gets-bind-ok _ _ u v row h1) in
    (fits, v_is ∙ kept _ w u r (upload_image-At f p) hr)

construct_ipfs_file-Built :
    (user_id : ℕ) (f : MulterFile) → Built user_id (construct_ipfs_file user_id f)
unfolding construct_ipfs_file
construct_ipfs_file-Built user_id f w v row h =
    let (p, _, h1) = need-bind-ok _ _ _ w v row (gets-bind-ok _ _ w v row h) in
    row-fits user_id f _ _ _ _ row w v h1

Built-if :
    (user_id : ℕ) (b : Bool) {m n : Exec (ℕ → File)}
    → Built user_id m
    → Built user_id n
    → Built user_id (if b then m else n)
Built-if user_id true h k = h
Built-if user_id false h k = k

construct_file-Built :
    (user_id : ℕ) (f : MulterFile) (p strategy : String)
    → Built user_id (construct_file user_id f p strategy)
unfolding construct_file raise
construct_file-Built user_id f p strategy =
    Built-if user_id (strategy == "local") (construct_local_file-Built user_id f p) (
      Built-if user_id (strategy == "s3") (construct_s3_file-Built user_id f p) (
        Built-if user_id (strategy == "ipfs") (construct_ipfs_file-Built user_id f)
          λ w v row h. absurd (err-ne-ok h)))

-- One row is added, which the user owns.
pub create_file-ok :
    (user_id : ℕ) (f : MulterFile) (p : String) (w v : World) (id : ℕ)
    → create_file user_id f p w ≡ (ok id, v)
    → (file : File) × (file.id ≡ id)
      × (file.owner_id ≡ user_id)
      × ((next : ℕ) × (v
            ≡ record w { files = record { rows = w.files.rows ++ file ∷ []; next_id = next } }))
unfolding create_file save_file
create_file-ok user_id f p w v id h =
    let (row, u, hb, h1) =
      bind-ok (construct_file user_id f p w.env.upload_strategy) _ w v id
        (gets-bind-ok _ _ w v id h) in
    let (fits, u_is) = construct_file-Built user_id f p w.env.upload_strategy w u row hb in
    let (file, z, hs, h2) = bind-ok (save_file row) _ u v id h1 in
    let (file_is, z_is) = same_outcome hs in
    let (id_is, v_is) = pure-ok file.id id z v h2 in
    (
      row u.files.next_id,
      ap File.id file_is ∙ id_is,
      (fits u.files.next_id).1,
      (
        suc u.files.next_id,
        v_is
            ∙ z_is
            ∙ ap
                (λ (x : World). record x {
                  files = record {
                    rows = x.files.rows ++ row u.files.next_id ∷ [];
                    next_id = suc u.files.next_id;
                  };
                })
                u_is,
      ),
    )
