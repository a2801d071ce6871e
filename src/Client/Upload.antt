-- ===== src/Client/Upload.antt =====
-- lib/python/satos_payload_sdk/antaris_file_download.py: `File_Stage`, which copies a file of the
-- application to the share of the twin, and `azure_file_upload`. The share's client and the file
-- system are not part of the repository, and parameters here.
use Prim.Native.String.{◌++◌}
use sat_os_payload_sdk.Prelude.{
  ℕ, String, Bool, true, false, List, Option, none, some, ◌≡◌, ◌↔◌, refl, arith, inl, inr,
}
use sat_os_payload_sdk.Exec.{Result, ok, raised, key_error, Result-cases}

-- The entries of config.json under "FTM", and the cookie; `none` where a key is missing.
pub record Config : Type 0 where
  pub cookie : Option String
  pub file_conn_str : Option String
  pub truetwin_dir : Option String
  pub share_name : Option String

-- `azure_file_upload(file_name, conn_str, share_name, file_path)`: True, False where an exception was
-- logged, or an exception of the client's constructor, which stands outside the `try`.
abbrev pub Uploader : Type 0
Uploader = String → String → String → String → Result Bool

abbrev or_key_error : {A : Type 0} → Option String → (String → Result A) → Result A
or_key_error none f = raised key_error
or_key_error (some s) f = f s

-- `File_Stage(download_file_params, config_data).file_download()`
unfoldable pub file_download : Uploader → Config → String → Result Bool
file_download upload config file_path = or_key_error config.truetwin_dir λ dir.
    or_key_error config.file_conn_str λ conn.
      or_key_error config.share_name
        λ share. upload ("/opt/antaris/outbound/" ++ file_path) conn share (dir ++ "/" ++ file_path)

-- The file system and the share's library: `open(name, "rb")` with the bytes of the file, the client
-- of a connection string, a share and a path, and `upload_file`.
pub record Azure (FileClient : Type 0) : Type 0 where
  pub from_connection_string : String → String → String → Result FileClient
  pub read_file : String → Result (List ℕ)
  pub upload_file : FileClient → List ℕ → Result (Unit {0})

module _ {FileClient : Type 0} (azure : Azure FileClient) where
  -- The body of the `try`, and its `except`.
  unfoldable pub try_upload : FileClient → String → Bool
  try_upload client file_name = elim (azure.read_file file_name) [
    | raised e ↦ false
    | ok source ↦ elim (azure.upload_file client source) [ raised e ↦ false | ok _ ↦ true ]
  ]

  unfoldable pub azure_file_upload : Uploader
  unfolding try_upload
  azure_file_upload file_name conn_str share_name file_path =
      elim (azure.from_connection_string conn_str share_name file_path) [
        | raised e ↦ raised e
        | ok client ↦ ok (try_upload client file_name)
      ]

  -- The local file was read and its bytes were uploaded.
  abbrev pub Uploaded : FileClient → String → Type 0
  Uploaded client file_name =
      (source : List ℕ) × (azure.read_file file_name ≡ ok source)
      × (azure.upload_file client source ≡ ok tt)

  pub try_upload-Uploaded :
      (client : FileClient) (file_name : String)
      → (try_upload client file_name ≡ true) ↔ Uploaded client file_name
  unfolding try_upload
  try_upload-Uploaded client file_name = (
    λ h. elim (Result-cases (azure.read_file file_name)) [
      | inl (source, read) ↦ elim (Result-cases (azure.upload_file client source)) [
        | inl (done, sent) ↦ (source, read, sent)
        | inr (e, failed) ↦ absurd (ground (arith, read, failed, h))
      ]
      | inr (e, failed) ↦ absurd (ground (arith, failed, h))
    ],
    λ u. ground (arith, u.1, u.2),
  )

  -- With all entries in config.json and a client for the remote path, the download answers True
  -- exactly if the local file below the outbound directory was read and its bytes were uploaded; no
  -- other exception comes out.
  pub file_download-azure_file_upload :
      (config : Config) (file_path dir conn share : String) (client : FileClient)
      → config.truetwin_dir ≡ some dir
      → config.file_conn_str ≡ some conn
      → config.share_name ≡ some share
      → azure.from_connection_string conn share (dir ++ ("/" ++ file_path)) ≡ ok client
      → (done : Bool) × (file_download azure_file_upload config file_path ≡ ok done)
        × ((done ≡ true) ↔ Uploaded client ("/opt/antaris/outbound/" ++ file_path))
  unfolding file_download azure_file_upload
  file_download-azure_file_upload config file_path dir conn share client hd hc hs made = (
    try_upload client ("/opt/antaris/outbound/" ++ file_path),
    rw (hd, hc, hs, made, azure_file_upload) refl,
    try_upload-Uploaded client ("/opt/antaris/outbound/" ++ file_path),
  )
