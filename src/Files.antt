-- ===== src/Files.antt =====
-- src/file/services/file.service.ts, lines 38 to 139, and the uploads of src/upload: where a file goes.
pub mod Owned
use nestjs_ex.Entities.{File, message_type_eq}
use nestjs_ex.Prelude.{
  Option, String, if◌then◌else◌, nat_eq, none, not, some, text_eq, ℕ, ◌+++◌, ◌==◌,
}
use nestjs_ex.Store.{insert}
use nestjs_ex.Store.Finding.{saved}
use nestjs_ex.World.{Env, Exec, gets, guard, need, ok, pure, raise, upload_failed, ◌>>=◌, ◌>>◌}

-- `Express.Multer.File`, as far as the services read it; its content goes to the store.
pub record MulterFile : Type 0 where
  pub originalname : Option String
  pub filename : Option String
  pub mimetype : String

-- `file?.originalname?.split('.')?.pop() || ''`
abbrev pub extension_of : Env → MulterFile → String
extension_of env file = elim file.originalname [ none ↦ "" | some name ↦ env.file_extension name ]

-- `path ? `${path}/` : ''`
abbrev pub folder_of : String → String
folder_of path = if path == "" then "" else path +++ "/"

abbrev pub stored_name : Env → ℕ → MulterFile → String
stored_name env n file = env.uuid_and_time n env.now +++ "." +++ extension_of env file

-- `S3UploadService.uploadFile`
unfoldable pub s3_upload_file : MulterFile → String → Exec (String × String × String)
s3_upload_file file path = do
  env ← gets (λ w. w.env)
  guard (not (extension_of env file == "")) upload_failed
  n ← gets (λ w. w.files.next_id)
  need (env.s3_upload (folder_of path +++ stored_name env n file)) upload_failed

-- `LocalUploadService.uploadImage`, whatever the path
unfoldable pub upload_image : MulterFile → String → Exec String
upload_image file path = do
  env ← gets (λ w. w.env)
  guard (not (extension_of env file == "")) upload_failed
  n ← gets (λ w. w.files.next_id)
  guard (env.write_file (stored_name env n file)) upload_failed
  pure (env.server_address +++ "/uploads/image/" +++ stored_name env n file)

abbrev pub new_file : ℕ → MulterFile → String → String → String → String → ℕ → File
new_file user_id file path driver s3key bucket id = record {
  id = id;
  owner_id = user_id;
  kind = file.mimetype;
  driver = driver;
  path = path;
  ipfs_path = none;
  s3key = some s3key;
  bucket = some bucket;
  file_info = none;
}

unfoldable pub construct_s3_file : ℕ → MulterFile → String → Exec (ℕ → File)
construct_s3_file user_id file path = do
  response ← s3_upload_file file path
  pure (new_file user_id file response.0 "s3" response.1 response.2)

-- `UPLOAD_STRATEGY || 'local'`
abbrev strategy_or_local : String → String
strategy_or_local strategy = if strategy == "" then "local" else strategy

unfoldable pub construct_local_file : ℕ → MulterFile → String → Exec (ℕ → File)
construct_local_file user_id file path = do
  stored ← upload_image file path
  strategy ← gets (λ w. w.env.upload_strategy)
  pure (new_file user_id file stored (strategy_or_local strategy) "" "")

unfoldable pub construct_ipfs_file : ℕ → MulterFile → Exec (ℕ → File)
construct_ipfs_file user_id file = do
  added ← gets (λ w. w.env.ipfs_add file.filename)
  path ← need added upload_failed
  pure (new_file user_id file path "ipfs" "" "")

unfoldable pub construct_file : ℕ → MulterFile → String → String → Exec (ℕ → File)
construct_file user_id file path strategy =
    if strategy == "local"
    then construct_local_file user_id file path
    else if strategy == "s3"
    then construct_s3_file user_id file path
    else if strategy == "ipfs"
    then construct_ipfs_file user_id file
    else raise upload_failed

unfoldable pub save_file : (ℕ → File) → Exec File
save_file row w = (ok (row w.files.next_id), record w { files = insert row w.files })

-- `createFile` with the default strategy
unfoldable pub create_file : ℕ → MulterFile → String → Exec ℕ
create_file user_id file path = do
  strategy ← gets (λ w. w.env.upload_strategy)
  row ← construct_file user_id file path strategy
  saved ← save_file row
  pure saved.id
