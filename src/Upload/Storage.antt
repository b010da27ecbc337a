-- ===== src/Upload/Storage.antt =====
-- src/core/aws/aws-s3.service.ts, over the S3 client, uuid and `path.extname` as parameters.
use coupang_eats_backend_v.Base.{
  ℕ, ◌+◌, String, Option, none, some, List, [], ◌∷◌, ◌++◌, ◌<>◌, ◌==◌, if◌then◌else◌,
}
use coupang_eats_backend_v.Http.{Result, ok, err, http}
use coupang_eats_backend_v.Action.{Action, ◌>>=◌, ◌>>◌, pure}

-- what the code reads of `Express.Multer.File`
pub record File : Type 0 where
  pub original_name : String
  pub mime_type : String
  pub size : ℕ
  pub buffer : String

pub record S3Packages : Type 0 where
  -- the message of the error that `Upload.done` throws for a key, where it throws
  pub refusal : String → File → Option String
  pub extname : String → String
  pub v4 : ℕ → String

-- what the constructor reads; the CDN URL is trimmed, and '' where it is not set
pub record S3Config : Type 0 where
  pub bucket_name : String
  pub region : String
  pub cdn_url : String

-- the objects of the bucket, in the order of their upload, and how many UUIDs were drawn
pub record Bucket : Type 0 where
  pub objects : List (String × File)
  pub fresh : ℕ

module _ (s3 : S3Packages) (config : S3Config) where
  unfoldable pub generate_file_name : String → Action Bucket String
  generate_file_name original_name b =
      (ok (s3.v4 b.fresh <> s3.extname original_name), record b { fresh = b.fresh + 1 })

  unfoldable pub build_public_url : String → String
  build_public_url key =
      if config.cdn_url == ""
      then "https://" <> config.bucket_name <> ".s3." <> config.region <> ".amazonaws.com/" <> key
      else config.cdn_url <> "/" <> key

  abbrev pub put_object : String → File → Option String → Action Bucket (Unit {0})
  put_object key file none b = (ok tt, record b { objects = b.objects ++ ((key, file) ∷ []) })
  put_object key file (some message) b = (err (http 500 ("S3 Upload Failed: " <> message)), b)

  -- `AwsS3Service.uploadImage`
  unfoldable pub upload_image : String → File → Action Bucket String
  upload_image folder file = do
    name ← generate_file_name file.original_name
    put_object (folder <> "/" <> name) file (s3.refusal (folder <> "/" <> name) file)
    pure (build_public_url (folder <> "/" <> name))

  -- `Promise.all`: every upload runs; of several errors the first in the list is reported
  abbrev pub both : Result String → Result (List String) → Result (List String)
  both (ok url) (ok urls) = ok (url ∷ urls)
  both (ok url) (err e) = err e
  both (err e) rest = err e

  -- `AwsS3Service.uploadImages`
  unfoldable pub upload_images : String → List File → Action Bucket (List String)
  upload_images folder [] b = (ok [], b)
  upload_images folder (file ∷ files) b =
      let (url, b1) = upload_image folder file b in
      let (urls, b2) = upload_images folder files b1 in (both url urls, b2)
