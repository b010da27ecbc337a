-- ===== src/Upload/Service.antt =====
-- src/modules/upload/upload.controller.ts, over the interceptor and the pipe of NestJS as
-- parameters.
use coupang_eats_backend_v.Base.{
  ℕ, ◌*◌, ◌≤◌, ◌≡◌, String, Bool, true, false, not, Option, none, some, List, [], ◌∷◌, includes,
  length, All,
}
use coupang_eats_backend_v.Http.{Result, ok, bad_request}
use coupang_eats_backend_v.Action.{Action, ◌>>◌, raise_if, from_result}
use coupang_eats_backend_v.Upload.Storage.{
  File, S3Packages, S3Config, Bucket, upload_image, upload_images,
}

-- `FilesInterceptor(name, maxCount)`, and `ParseFilePipe` with its two validators
pub record FilePackages : Type 0 where
  pub files_interceptor : String → ℕ → List File → Result (Unit {0})
  pub parse_file_pipe : ℕ → String → List File → Result (Unit {0})

pub record FilePackageLaws (f : FilePackages) : Type 0 where
  pub at_most :
      (name : String) (n : ℕ) (files : List File)
      → f.files_interceptor name n files ≡ ok tt
      → length files ≤ n
  pub no_larger :
      (n : ℕ) (kind : String) (files : List File)
      → f.parse_file_pipe n kind files ≡ ok tt
      → All (λ x. x.size ≤ n) files

-- `Object.values(UploadFolder)`
abbrev pub upload_folders : List String
upload_folders = "restaurant" ∷ "dish" ∷ "review" ∷ "profile" ∷ "common" ∷ []

-- `folder: UploadFolder = UploadFolder.COMMON`
abbrev pub folder_or_common : Option String → String
folder_or_common none = "common"
folder_or_common (some folder) = folder

abbrev pub max_size : ℕ
max_size = 1024 * 1024 * 5

abbrev pub max_files : ℕ
max_files = 5

-- `!files || files.length === 0`
abbrev pub is_empty : List File → Bool
is_empty [] = true
is_empty (f ∷ fs) = false

module _ (s3 : S3Packages) (config : S3Config) (f : FilePackages) where
  -- `UploadController.uploadImage`
  unfoldable pub post_upload : Option String → File → Action Bucket String
  post_upload folder file = do
    from_result (f.parse_file_pipe max_size ".(png|jpeg|jpg)" (file ∷ []))
    raise_if (not (includes upload_folders (folder_or_common folder)))
        (bad_request "잘못된 폴더명입니다. 허용된 값: restaurant, dish, review, profile, common")
    upload_image s3 config (folder_or_common folder) file

  -- `UploadController.uploadMultipleImages`
  unfoldable pub post_upload_batch : Option String → List File → Action Bucket (List String)
  post_upload_batch folder files = do
    from_result (f.files_interceptor "files" max_files files)
    from_result (f.parse_file_pipe max_size ".(png|jpeg|jpg)" files)
    raise_if (not (includes upload_folders (folder_or_common folder))) (bad_request "잘못된 폴더명입니다.")
    raise_if (is_empty files) (bad_request "업로드할 파일이 없습니다.")
    upload_images s3 config (folder_or_common folder) files
