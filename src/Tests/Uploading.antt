-- ===== src/Tests/Uploading.antt =====
-- Two images that are uploaded together.
use coupang_eats_backend_v.Base.{
  ◌≡◌, refl, true, false, none, some, List, [], ◌∷◌, String, length, leb, ◌≤◌, All, ℕ, arith,
  if◌then◌else◌, Bool, Bool-cases, inl, inr,
}
use coupang_eats_backend_v.Http.{Result, ok, err, bad_request}
use coupang_eats_backend_v.Packages.Memory.{uuid}
use coupang_eats_backend_v.Upload.Storage.{
  File, S3Packages, S3Config, Bucket, generate_file_name, upload_image, upload_images,
  build_public_url,
}
use coupang_eats_backend_v.Upload.Service.{FilePackages, FilePackageLaws, post_upload_batch}
use coupang_eats_backend_v.Upload.Bounds.{Uploaded, post_upload_batch-Uploaded}

abbrev s3 : S3Packages
s3 = record { refusal = λ key file. none; extname = λ name. ".png"; v4 = uuid }

abbrev s3_config : S3Config
s3_config = record { bucket_name = "eats"; region = "seoul"; cdn_url = "https://cdn" }

abbrev all_small : ℕ → List File → Bool
all_small n [] = true
all_small n (f ∷ fs) = if leb f.size n then all_small n fs else false

abbrev files_package : FilePackages
files_package = record {
  files_interceptor =
      λ name n files. if leb (length files) n then ok tt else err (bad_request "Unexpected field");
  parse_file_pipe =
      λ n kind files. if all_small n files then ok tt else err (bad_request "Validation failed");
}

small : (n : ℕ) (files : List File) → all_small n files ≡ true → All (λ x. x.size ≤ n) files
small n [] h = tt
small n (f ∷ fs) h = elim (Bool-cases (leb f.size n)) [
  | inl fits ↦ (ground arith, small n fs (rw fits at h))
  | inr large ↦ absurd (cc (rw large at h))
]

files_package_laws : FilePackageLaws files_package
files_package_laws = record {
  at_most = λ name n files h. elim (Bool-cases (leb (length files) n)) [
    | inl few ↦ ground arith
    | inr many ↦ absurd (cc (rw many at h))
  ];
  no_larger = λ n kind files h. elim (Bool-cases (all_small n files)) [
    | inl fit ↦ small n files fit
    | inr large ↦ absurd (cc (rw large at h))
  ];
}

abbrev photo : File
photo = record { original_name = "a.png"; mime_type = "image/png"; size = 1000; buffer = "" }

abbrev photos : List File
photos = photo ∷ photo ∷ []

abbrev bucket : Bucket
bucket = record { objects = []; fresh = 0 }

abbrev uploading : Result (List String) × Bucket
uploading = post_upload_batch s3 s3_config files_package (some "dish") photos bucket

abbrev urls : List String
urls = "https://cdn/dish/u.png" ∷ "https://cdn/dish/uu.png" ∷ []

uploaded : uploading ≡ (ok urls, uploading.1)
unfolding post_upload_batch upload_images upload_image generate_file_name build_public_url
uploaded = refl

post_upload_batch-Uploaded_example :
    Uploaded s3 s3_config files_package files_package_laws
      (some "dish")
      photos
      bucket
      urls
      uploading.1
post_upload_batch-Uploaded_example =
    post_upload_batch-Uploaded s3 s3_config files_package files_package_laws (some "dish") photos
      urls bucket uploading.1 uploaded
