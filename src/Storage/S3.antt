-- ===== src/Storage/S3.antt =====
-- The S3 client: sidecar-go/storage/s3.go. The AWS SDK and the file system are the records `Aws` and
-- `Objects`; the SDK is taken to give a key with each object that it lists.
use duckdb_load_testing_tool.Prelude.{
  String, Bool, false, not, str_eq, List, [], Option, none, some, if◌then◌else◌,
}
use duckdb_load_testing_tool.Prelude.Result.{Result, ok, err, wrap, ◌>>=◌}

pub record S3Config : Type 0 where
  pub endpoint : String
  pub bucket : String
  pub access_key : String
  pub secret_key : String
  pub region : String

-- config.LoadDefaultConfig without options, and with a region and static credentials;
-- s3.NewFromConfig without options, and with the base endpoint and path style.
pub record Aws (C L : Type 0) : Type 0 where
  pub load_default : Result C
  pub load_static : (region access_key secret_key : String) → Result C
  pub client_of : C → L
  pub client_at : (endpoint : String) → C → L

-- os.Open and os.Create, and what the SDK answers for a client, a bucket and a key.
pub record Objects (L File : Type 0) : Type 0 where
  pub open_file : String → Result File
  pub create_file : String → Result File
  pub upload : L → (bucket key : String) → File → Result (Unit {0})
  pub download : L → (bucket key : String) → File → Result (Unit {0})
  pub list : L → (bucket prefix : String) → Result (List String)
  pub delete : L → (bucket key : String) → Result (Unit {0})

pub record S3Uploader (L : Type 0) : Type 0 where
  pub client : L
  pub config : S3Config

-- `if cfg.Region == "" { … }`
unfoldable pub with_region : S3Config → S3Config
with_region cfg = if str_eq cfg.region "" then record cfg { region = "us-east-1" } else cfg

-- The variable `cfg` of NewS3UploaderFromEnv, with os.Getenv as an argument.
abbrev pub config_of : (String → String) → S3Config
config_of env = record {
  endpoint = env "S3_ENDPOINT";
  bucket = env "S3_BUCKET";
  access_key = env "S3_ACCESS_KEY";
  secret_key = env "S3_SECRET_KEY";
  region = env "S3_REGION";
}

module _ {C L : Type 0} (aws : Aws C L) where
  unfoldable pub load_config : S3Config → Result C
  load_config cfg =
      if not (str_eq cfg.endpoint "")
      then aws.load_static cfg.region cfg.access_key cfg.secret_key
      else aws.load_default

  abbrev pub client_for : S3Config → C → L
  client_for cfg loaded =
      if not (str_eq cfg.endpoint "")
      then aws.client_at cfg.endpoint loaded
      else aws.client_of loaded

  abbrev pub with_client : S3Config → Result (S3Uploader L)
  with_client cfg = do
    loaded ← wrap "failed to load config: %w" [] (load_config cfg)
    ok (record { client = client_for cfg loaded; config = cfg })

  -- NewS3Uploader
  unfoldable pub new_s3_uploader : S3Config → Result (S3Uploader L)
  new_s3_uploader cfg = with_client (with_region cfg)

  abbrev pub some_uploader : Result (S3Uploader L) → Result (Option (S3Uploader L))
  some_uploader (ok u) = ok (some u)
  some_uploader (err e) = err e

  -- NewS3UploaderFromEnv, with none for a nil pointer
  unfoldable pub new_s3_uploader_from_env : (String → String) → Result (Option (S3Uploader L))
  unfolding new_s3_uploader
  new_s3_uploader_from_env env =
      if str_eq (env "S3_BUCKET") ""
      then ok none
      else some_uploader (new_s3_uploader (config_of env))

-- GetBucket
abbrev pub get_bucket : {L : Type 0} → S3Uploader L → String
get_bucket u = u.config.bucket

-- IsConfigured
abbrev pub is_configured : {L : Type 0} → Option (S3Uploader L) → Bool
is_configured none = false
is_configured (some u) = not (str_eq u.config.bucket "")

module _ {L File : Type 0} (objects : Objects L File) where
  -- UploadFile
  unfoldable pub upload_file : S3Uploader L → String → String → Result (Unit {0})
  upload_file u key file_path = do
    f ← wrap "failed to open file: %w" [] (objects.open_file file_path)
    wrap "failed to upload: %w" [] (objects.upload u.client u.config.bucket key f)

  -- DownloadFile
  unfoldable pub download_file : S3Uploader L → String → String → Result (Unit {0})
  download_file u key file_path = do
    f ← wrap "failed to create file: %w" [] (objects.create_file file_path)
    wrap "failed to download: %w" [] (objects.download u.client u.config.bucket key f)

  -- ListObjects
  unfoldable pub list_objects : S3Uploader L → String → Result (List String)
  list_objects u prefix =
      wrap "failed to list objects: %w" [] (objects.list u.client u.config.bucket prefix)

  -- DeleteObject
  unfoldable pub delete_object : S3Uploader L → String → Result (Unit {0})
  delete_object u key =
      wrap "failed to delete object: %w" [] (objects.delete u.client u.config.bucket key)
