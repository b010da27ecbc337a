-- ===== src/Upload/Bounds.antt =====
-- What an upload of several images has stored, and how much.
use mathlib.Core.Bool.{false≢true}
use mathlib.Core.List.{append-nil, append_assoc}
use coupang_eats_backend_v.Base.{
  ℕ, suc, ◌+◌, ◌≤◌, ◌≡◌, refl, sym, ap, ◌∙◌, String, true, false, Option, List, [], ◌∷◌, ◌++◌, ◌<>◌,
  map, includes, Bool, none, some, ◌≢◌, ◌==◌, ◌||◌, eq_iff, length, All, Option-cases, Bool-cases,
  inl, inr, arith,
}
use coupang_eats_backend_v.Http.{Result, ok, err, ok_inj, Result-cases}
use coupang_eats_backend_v.Action.{returned_and_threw}
use coupang_eats_backend_v.Upload.Storage.{
  File, S3Packages, S3Config, Bucket, generate_file_name, build_public_url, upload_image, both,
  upload_images,
}
use coupang_eats_backend_v.Upload.Service.{
  FilePackages, FilePackageLaws, upload_folders, folder_or_common, max_size, max_files, is_empty,
  post_upload_batch,
}

-- the folders that an image may go to
pub data IsFolder : String → Type 0 where
  restaurant_folder : IsFolder "restaurant"
  dish_folder : IsFolder "dish"
  review_folder : IsFolder "review"
  profile_folder : IsFolder "profile"
  common_folder : IsFolder "common"

-- the folder of a request, and 'common' where it names none
pub data IsChosen : Option String → String → Type 0 where
  by_default : IsChosen none "common"
  by_request : (name : String) → IsChosen (some name) name

folder_or_common-IsChosen : (f : Option String) → IsChosen f (folder_or_common f)
folder_or_common-IsChosen none = by_default
folder_or_common-IsChosen (some name) = by_request name

listed-IsFolder :
    (n k : String) (b : Bool)
    → ((k == n) || b) ≡ true
    → IsFolder k
    → (b ≡ true → IsFolder n)
    → IsFolder n
listed-IsFolder n k b h here later = elim (Bool-cases (k == n)) [
  | inl hit ↦ rw (← (eq_iff k n).0 hit) here
  | inr miss ↦ later (rw miss at h)
]

includes-IsFolder : (n : String) → includes upload_folders n ≡ true → IsFolder n
includes-IsFolder n h = listed-IsFolder n _ _ h restaurant_folder (λ h1.
    listed-IsFolder n _ _ h1 dish_folder (λ h2. listed-IsFolder n _ _ h2 review_folder (λ h3.
      listed-IsFolder n _ _ h3 profile_folder
        (λ h4. listed-IsFolder n _ _ h4 common_folder (λ h5. absurd (cc))))))

module _ (s3 : S3Packages) (config : S3Config) where
  -- the n-th object of the bucket's history
  abbrev pub key_of : String → File → ℕ → String
  key_of folder file n = folder <> "/" <> (s3.v4 n <> s3.extname file.original_name)

  abbrev pub objects_of : String → List File → ℕ → List (String × File)
  objects_of folder [] n = []
  objects_of folder (f ∷ fs) n = (key_of folder f n, f) ∷ objects_of folder fs (n + 1)

  -- where a key is public: behind the CDN if there is one, and in the bucket else
  pub data IsPublicUrl (key : String) : String → Type 0 where
    behind_cdn : config.cdn_url ≢ "" → IsPublicUrl key (config.cdn_url <> "/" <> key)
    in_bucket :
        config.cdn_url ≡ ""
        → IsPublicUrl key (
            "https://" <> config.bucket_name <> ".s3." <> config.region <> ".amazonaws.com/" <> key)

  -- the n-th URL is that of the n-th object
  pub data Addressed : List (String × File) → List String → Type 0 where
    no_object : Addressed [] []
    next_object :
        (key url : String) (file : File) (objects : List (String × File)) (urls : List String)
        → IsPublicUrl key url
        → Addressed objects urls
        → Addressed ((key, file) ∷ objects) (url ∷ urls)

  build_public_url-IsPublicUrl : (key : String) → IsPublicUrl key (build_public_url s3 config key)
  unfolding build_public_url
  build_public_url-IsPublicUrl key = elim (Bool-cases (config.cdn_url == "")) [
    | inl absent ↦ rw absent (in_bucket ((eq_iff config.cdn_url "").0 absent))
    | inr present ↦
        rw present (behind_cdn (λ e. false≢true (sym present ∙ (eq_iff config.cdn_url "").1 e)))
  ]

  abbrev pub url_of : String × File → String
  url_of (key, file) = build_public_url s3 config key

  upload_image-eq-ok :
      (folder url : String) (file : File) (b b' : Bucket)
      → upload_image s3 config folder file b ≡ (ok url, b')
      → (build_public_url s3 config (key_of folder file b.fresh) ≡ url)
        × (record {
          objects = b.objects ++ ((key_of folder file b.fresh, file) ∷ []);
          fresh = b.fresh + 1;
        }
            ≡ b')
  unfolding upload_image generate_file_name
  upload_image-eq-ok folder url file b b' h =
      elim (Option-cases (s3.refusal (key_of folder file b.fresh) file)) [
        | inl taken ↦ let done = rw taken at h in (ok_inj (ap (λ x. x.0) done), ap (λ x. x.1) done)
        | inr (m, failed) ↦ absurd (returned_and_threw (rw failed at h) refl)
      ]

  both-eq-ok :
      (x : Result String) (xs : Result (List String)) (urls : List String)
      → both s3 config x xs ≡ ok urls
      → (u : String) × (us : List String) × (x ≡ ok u) × (xs ≡ ok us) × ((u ∷ us) ≡ urls)
  both-eq-ok (ok u) (ok us) urls h = (u, us, refl, refl, ok_inj h)
  both-eq-ok (ok u) (err e) urls h = absurd (cc)
  both-eq-ok (err e) xs urls h = absurd (cc)

  pub upload_images-eq-ok :
      (folder : String) (files : List File) (urls : List String) (b b' : Bucket)
      → upload_images s3 config folder files b ≡ (ok urls, b')
      → (map url_of (objects_of folder files b.fresh) ≡ urls)
        × (b.objects ++ objects_of folder files b.fresh ≡ b'.objects)
  unfolding upload_images
  upload_images-eq-ok folder [] urls b b' h =
      (ok_inj (ap (λ x. x.0) h), append-nil b.objects ∙ ap (λ x. x.1.objects) h)
  upload_images-eq-ok folder (f ∷ fs) urls b b' h =
      let x : Result String × Bucket = upload_image s3 config folder f b in
      let y : Result (List String) × Bucket = upload_images s3 config folder fs x.1 in
      let (u, us, one, rest, all) = both-eq-ok x.0 y.0 urls (ap (λ z. z.0) h) in
      let (is_u, grown) = upload_image-eq-ok folder u f b x.1 (λ i. (one i, x.1)) in
      let (are_us, stored) =
        upload_images-eq-ok folder fs us x.1 b' ((λ i. (rest i, y.1)) ∙ (λ i. (ok us, (h i).1))) in
      let next : x.1.fresh ≡ b.fresh + 1 = ap (λ z. z.fresh) (sym grown) in
      (
        ap (λ v. v ∷ map url_of (objects_of folder fs (b.fresh + 1))) is_u
            ∙ ap (λ n. u ∷ map url_of (objects_of folder fs n)) (sym next)
            ∙ ap (λ vs. u ∷ vs) are_us
            ∙ all,
        sym (append_assoc b.objects _ (objects_of folder fs (b.fresh + 1)))
            ∙ ap (λ os. os ++ objects_of folder fs (b.fresh + 1)) (ap (λ z. z.objects) grown)
            ∙ ap (λ n. x.1.objects ++ objects_of folder fs n) (sym next)
            ∙ stored,
      )

  urls-Addressed : (os : List (String × File)) → Addressed os (map url_of os)
  urls-Addressed [] = no_object
  urls-Addressed ((key, file) ∷ os) =
      next_object key _ file os _ (build_public_url-IsPublicUrl key) (urls-Addressed os)

  length-objects_of :
      (folder : String) (files : List File) (n : ℕ)
      → length (map url_of (objects_of folder files n)) ≡ length files
  length-objects_of folder [] n = refl
  length-objects_of folder (f ∷ fs) n = ap suc (length-objects_of folder fs (n + 1))

  module _ (f : FilePackages) (laws : FilePackageLaws f) where
    pub record Uploaded (folder : Option String) (files : List File) (b : Bucket)
        (urls : List String) (b' : Bucket) : Type 0 where
      pub name : String
      pub chosen : IsChosen folder name
      pub allowed : IsFolder name
      pub at_least_one : 1 ≤ length urls
      pub at_most_five : length urls ≤ 5
      pub one_each : length urls ≡ length files
      pub sizes : All (λ x. x.size ≤ 5242880) files
      pub addresses : Addressed (objects_of name files b.fresh) urls
      pub stored : b.objects ++ objects_of name files b.fresh ≡ b'.objects

    some_file : (files : List File) → is_empty files ≡ false → 1 ≤ length files
    some_file [] h = absurd (cc)
    some_file (x ∷ xs) h = omega arith

    -- If `uploadMultipleImages` returns, the folder of the request, or 'common', is one of
    -- restaurant, dish, review, profile and common, there are between one and five files, each of at
    -- most 5 MB, and as many URLs. The objects that were added to the bucket are the files, each
    -- under that folder with the next UUID as its name, and each URL is that of its object: behind
    -- the CDN where one is set, and in the bucket elsewhere.
    pub post_upload_batch-Uploaded :
        (folder : Option String) (files : List File) (urls : List String) (b b' : Bucket)
        → post_upload_batch s3 config f folder files b ≡ (ok urls, b')
        → Uploaded folder files b urls b'
    unfolding post_upload_batch
    post_upload_batch-Uploaded folder files urls b b' h =
        elim (Result-cases (f.files_interceptor "files" max_files files)) [
          | inr (e, many) ↦ absurd (returned_and_threw (rw many at h) refl)
          | inl (u, few) ↦
              elim (Result-cases (f.parse_file_pipe max_size ".(png|jpeg|jpg)" files)) [
                | inr (e, bad) ↦ absurd (returned_and_threw (rw (few, bad) at h) refl)
                | inl (v, good) ↦
                    elim (Bool-cases (includes upload_folders (folder_or_common folder))) [
                      | inr other ↦ absurd (returned_and_threw (rw (few, good, other) at h) refl)
                      | inl known ↦ elim (Bool-cases (is_empty files)) [
                        | inl empty ↦
                            absurd (returned_and_threw (rw (few, good, known, empty) at h) refl)
                        | inr full ↦
                            let (addresses, stored) =
                              upload_images-eq-ok (folder_or_common folder) files urls b b'
                                (rw (few, good, known, full) at h) in
                            let count : length urls ≡ length files =
                              ap length (sym addresses)
                              ∙ length-objects_of (folder_or_common folder) files b.fresh in
                            record {
                              name = folder_or_common folder;
                              chosen = folder_or_common-IsChosen folder;
                              allowed = includes-IsFolder (folder_or_common folder) known;
                              at_least_one = omega (arith, count, some_file files full);
                              at_most_five =
                                  omega (arith, count, laws.at_most "files" max_files files few);
                              one_each = count;
                              sizes = laws.no_larger max_size ".(png|jpeg|jpg)" files good;
                              addresses = rw (← addresses) (
                                  urls-Addressed
                                    (objects_of (folder_or_common folder) files b.fresh));
                              stored = stored;
                            }
                      ]
                    ]
              ]
        ]
