-- ===== src/Server/Uploads.antt =====
-- What the environment of sidecar-go/main.go means for uploads: sidecar-go/storage/s3.go, and
-- `HandleFlushUpload` and `HandleHealth` of sidecar-go/handlers/handlers.go.
use mathlib.Core.Path.{subst}
use duckdb_load_testing_tool.Prelude.{
  ℕ, ◌≡◌, refl, sym, String, Bool, true, false, not, ◌&&◌, str_eq, ◌⊎◌, inl, inr, some, none,
  Option, Bool-cases,
}
use duckdb_load_testing_tool.Prelude.Result.{Result, ok, err}
use duckdb_load_testing_tool.Float.{Float64}
use duckdb_load_testing_tool.Storage.S3.{
  Aws, Objects, S3Config, S3Uploader, config_of, with_region, load_config, client_for,
  new_s3_uploader, new_s3_uploader_from_env, upload_file,
}
use duckdb_load_testing_tool.Handlers.{Store, Uploader, Handlers, Response, Body, respond}
use duckdb_load_testing_tool.Handlers.Ingest.{
  s3_enabled, upload_key, upload, uploaded, flush_response, handle_flush_upload, handle_health,
}
use duckdb_load_testing_tool.Server.{uploader_from_env, uploader_of}

abbrev is_loaded : {C : Type 0} → Result C → Bool
is_loaded (ok loaded) = true
is_loaded (err e) = false

-- The environment names a bucket, and the SDK loads a configuration for it.
abbrev pub has_s3 : {C L : Type 0} → Aws C L → (String → String) → Bool
has_s3 aws env =
    not (str_eq (env "S3_BUCKET") "") && is_loaded (load_config aws (with_region (config_of env)))

module _ {C L File : Type 0} (aws : Aws C L) (objects : Objects L File)
    (env : String → String) where
  -- The client that main makes.
  abbrev pub made : C → S3Uploader L
  made loaded =
      let cfg = with_region (config_of env) in
      record { client = client_for aws cfg loaded; config = cfg }

  -- The uploader is nil, or one for the configuration that was loaded.
  abbrev Made : Option Uploader → Type 0
  Made u =
      ((has_s3 aws env ≡ false) × (u ≡ none))
      ⊎ ((loaded : C) × (has_s3 aws env ≡ true)
          × (load_config aws (with_region (config_of env)) ≡ ok loaded)
          × (u ≡ some (uploader_of objects (made loaded)))
          × (s3_enabled u ≡ true))

  bucket-with_region : (cfg : S3Config) → (with_region cfg).bucket ≡ cfg.bucket
  unfolding with_region
  bucket-with_region cfg = elim (Bool-cases (str_eq cfg.region "")) [
    | inl e ↦ rw e refl
    | inr e ↦ rw e refl
  ]

  Made-uploader_from_env :
      (b : Bool) (r : Result C)
      → str_eq (env "S3_BUCKET") "" ≡ b
      → load_config aws (with_region (config_of env)) ≡ r
      → Made (uploader_from_env aws objects env)
  unfolding new_s3_uploader_from_env new_s3_uploader
  Made-uploader_from_env true r e l = inl (rw e refl, rw e refl)
  Made-uploader_from_env false (err f) e l = inl (rw (e, l) refl, rw (e, l) refl)
  Made-uploader_from_env false (ok loaded) e l = inr (
    loaded,
    rw (e, l) refl,
    l,
    rw (e, l) refl,
    rw (e, l, bucket-with_region (config_of env), e) refl,
  )

  module _ {S F : Type 0} ⦃d : Float64 F⦄ (store : Store S F) (base : String → String) where
    upload-some :
        (u : Uploader) (n : ℕ) (h : Handlers S F)
        → u.is_configured ≡ true
        → upload store base n (some u) h
          ≡ uploaded store n (upload_key base h.run_id (store.get_db_file h.storage)) (
              u.upload_file
                (upload_key base h.run_id (store.get_db_file h.storage))
                (store.get_db_file h.storage))
    upload-some u n h e = rw e refl

    -- What `HandleHealth` answers, but for the one field.
    abbrev pub healthy : Handlers S F → Bool → Response F
    healthy h enabled = respond 200 (
        Body.health (record {
          status = "ok";
          buffer_size = store.buffer_size h.storage;
          db_file = store.get_db_file h.storage;
          s3_enabled = enabled;
        }))

    -- The answers to health and flush-upload, where the flush leaves this store and this count.
    abbrev pub Answers : Handlers S F → S → ℕ → Type 0
    Answers h s n =
        ((has_s3 aws env ≡ false)
          × ((handle_health store h).1 ≡ healthy h false)
          × ((handle_flush_upload store base h).1
              ≡ flush_response store n false "" "no S3 configured; flush done"))
        ⊎ ((loaded : C) × (has_s3 aws env ≡ true)
            × (load_config aws (with_region (config_of env)) ≡ ok loaded)
            × ((handle_health store h).1 ≡ healthy h true)
            × ((handle_flush_upload store base h).1
                ≡ uploaded store n (upload_key base h.run_id (store.get_db_file s)) (
                    upload_file objects (made loaded)
                      (upload_key base h.run_id (store.get_db_file s)) (store.get_db_file s))))

    Answers-Made :
        (h : Handlers S F) (s : S) (n : ℕ)
        → store.flush h.storage ≡ (s, ok n)
        → Made h.uploader
        → Answers h s n
    unfolding handle_health handle_flush_upload
    Answers-Made h s n f (inl (no_s3, u)) = inl (no_s3, rw u refl, rw (f, u) refl)
    Answers-Made h s n f (inr (loaded, s3, l, u, enabled)) = inr (
      loaded,
      s3,
      l,
      rw enabled refl,
      rw (f, u)
          (upload-some (uploader_of objects (made loaded)) n (record h { storage = s })
            (subst (λ v. s3_enabled v ≡ true) u enabled)),
    )

    pub handle_flush_upload-has_s3 :
        (h : Handlers S F) (s : S) (n : ℕ)
        → h.uploader ≡ uploader_from_env aws objects env
        → store.flush h.storage ≡ (s, ok n)
        → Answers h s n
    handle_flush_upload-has_s3 h s n u f =
        Answers-Made h s n f
          (subst Made (sym u) (Made-uploader_from_env (str_eq (env "S3_BUCKET") "") _ refl refl))
