-- ===== src/Client/Staged.antt =====
-- The file download of the API over the upload to the share: what stands before the remote call.
use Prim.Native.String.{◌++◌}
use sat_os_payload_sdk.Prelude.{
  String, true, false, some, Option-cases, ℤ, ◌≡◌, ◌⊎◌, inl, inr, refl, arith,
}
use sat_os_payload_sdk.Exec.{ok, Result-cases}
use sat_os_payload_sdk.Client.Upload.{
  Config, Azure, Uploaded, azure_file_upload, file_download, try_upload, try_upload-Uploaded,
}
use sat_os_payload_sdk.Client.Calls.{Controller, Wire, api_pa_pc_stage_file_download}

module _ {FileClient : Type 0} (azure : Azure FileClient) where
  -- The local file below the outbound directory was read, and its bytes were uploaded to the remote
  -- path below the directory that config.json names, on the share that it names.
  pub record IsStaged (config : Config) (path : String) : Type 0 where
    pub dir : String
    pub conn : String
    pub share : String
    pub client : FileClient
    pub has_dir : config.truetwin_dir ≡ some dir
    pub has_conn : config.file_conn_str ≡ some conn
    pub has_share : config.share_name ≡ some share
    pub remote : azure.from_connection_string conn share (dir ++ ("/" ++ path)) ≡ ok client
    pub uploaded : Uploaded azure client ("/opt/antaris/outbound/" ++ path)

  file_download-IsStaged :
      (config : Config) (path : String)
      → file_download (azure_file_upload azure) config path ≡ ok true
      → IsStaged config path
  unfolding file_download azure_file_upload
  file_download-IsStaged config path h = elim (Option-cases config.truetwin_dir) [
    | inl missing ↦ absurd (ground (arith, missing, h))
    | inr (dir, has_dir) ↦ elim (Option-cases config.file_conn_str) [
      | inl missing ↦ absurd (ground (arith, has_dir, missing, h))
      | inr (conn, has_conn) ↦ elim (Option-cases config.share_name) [
        | inl missing ↦ absurd (ground (arith, has_dir, has_conn, missing, h))
        | inr (share, has_share) ↦
            elim (Result-cases (azure.from_connection_string conn share (dir ++ ("/" ++ path)))) [
              | inr (e, refused) ↦ absurd (ground (arith, has_dir, has_conn, has_share, refused, h))
              | inl (client, remote) ↦
                  let file = "/opt/antaris/outbound/" ++ path in
                  let done : try_upload azure client file ≡ true =
                    ground (arith, has_dir, has_conn, has_share, remote, h) in
                  record {
                    dir = dir;
                    conn = conn;
                    share = share;
                    client = client;
                    has_dir = has_dir;
                    has_conn = has_conn;
                    has_share = has_share;
                    remote = remote;
                    uploaded = (try_upload-Uploaded azure client file).0 done;
                  }
            ]
      ]
    ]
  ]

  -- With the keepalive flag '1', the request to stage a file reaches the controller only when the
  -- file has been uploaded to its place on the share; otherwise nothing is sent.
  pub sent-IsStaged :
      (controller : Controller) (config : Config) (cid : ℤ) (path : String) (wire : Wire)
      → let upload = azure_file_upload azure in
        let (r, wire') =
          api_pa_pc_stage_file_download controller upload "1" (some config) cid path wire in
        (wire' ≡ wire) ⊎ IsStaged config path
  unfolding api_pa_pc_stage_file_download
  sent-IsStaged controller config cid path wire =
      elim (Result-cases (file_download (azure_file_upload azure) config path)) [
        | inr (e, failed) ↦ inl (rw failed refl)
        | inl (false, failed) ↦ inl (rw failed refl)
        | inl (true, done) ↦ inr (file_download-IsStaged config path done)
      ]
