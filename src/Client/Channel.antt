-- ===== src/Client/Channel.antt =====
-- `api_pa_pc_create_channel_common`: which files it reads, which server it starts, and how it ends.
use sat_os_payload_sdk.Prelude.{
  String, Bool, true, false, List, [], ◌∷◌, ◌++◌, Option, none, some, str_eq, not, if◌then◌else◌,
  ◌≡◌, arith, ℕ, ◌+◌, ◌↔◌,
}
use sat_os_payload_sdk.Exec.{ok, raised, system_exit, Exec, ◌>>◌, pure}

-- The settings of antaris_api_common.py that the function reads.
pub record Settings : Type 0 where
  pub ssl_enable : String
  pub keepalive_enable : String

pub data File : Type 0 where
  server_cert client_key client_cert : File

-- What the function does to the world, in order.
pub data Action : Type 0 where
  connect_insecure connect_secure : Action
  -- with the keepalive options, or without options
  make_server : Bool → Action
  listen_insecure listen_secure : Action
  start_server : Action
  -- with the seconds of grace, and of sleep
  stop_server sleep : ℕ → Action

-- What the machine answers.
pub record Host : Type 0 where
  pub endpoint_free : Bool
  pub readable : File → Bool

abbrev shutdown_grace_seconds : ℕ
shutdown_grace_seconds = 5

abbrev shutdown_grace_for_grace : ℕ
shutdown_grace_for_grace = 2

-- The channel that comes back; `secure` is the caller's argument.
pub record Channel : Type 0 where
  pub is_secure : Bool

abbrev pub Trace : Type 0
Trace = List Action

abbrev act : Action → Exec Trace (Unit {0})
act x t = (ok tt, t ++ x ∷ [])

abbrev quit_unless : Bool → Exec Trace (Unit {0})
quit_unless true t = (ok tt, t)
quit_unless false t = (raised system_exit, t)

-- `api_pa_pc_delete_channel`
unfoldable pub delete_channel : Exec Trace ℕ
delete_channel = do
  act (stop_server shutdown_grace_seconds)
  act (sleep (shutdown_grace_seconds + shutdown_grace_for_grace))
  pure 0

module _ (host : Host) (s : Settings) where
  -- The server has the keepalive options in the second case only if they were collected, which is
  -- the case for '1'.
  server : Exec Trace (Unit {0})
  server =
      act (
        make_server
          (if str_eq s.keepalive_enable "0" then false else str_eq s.keepalive_enable "1"))

  insecure : Exec Trace (Unit {0})
  unfolding server
  insecure = do act connect_insecure; server; act listen_insecure

  secure : Exec Trace (Unit {0})
  unfolding server
  secure = do
    quit_unless (host.readable server_cert)
    act connect_secure
    server
    quit_unless (host.readable client_key)
    quit_unless (host.readable client_cert)
    act listen_secure

  unfoldable pub create_channel_common : Bool → Exec Trace (Option Channel)
  unfolding insecure secure
  create_channel_common is_secure t =
      if not host.endpoint_free
      then (ok none, t)
      else (do
        (if str_eq s.ssl_enable "0" then insecure else secure)
        act start_server
        pure (some (record { is_secure = is_secure })))
          t

  -- `api_pa_pc_create_channel` and `api_pa_pc_create_insecure_channel`
  unfoldable pub create_channel : Exec Trace (Option Channel)
  unfolding create_channel_common
  create_channel = create_channel_common true

  unfoldable pub create_insecure_channel : Exec Trace (Option Channel)
  unfolding create_channel_common
  create_insecure_channel = create_channel_common false

  -- What is asked for when the channel is created is not what decides whether it is secure: the
  -- flag of the environment does. A channel that comes back has an endpoint that was free; it is
  -- insecure exactly if the flag is '0', and if not, each of the three certificate files could be read.
  pub channel_security :
      (is_secure : Bool) {c : Channel} {t : Trace}
      → create_channel_common is_secure [] ≡ (ok (some c), t)
      → (host.endpoint_free ≡ true)
        × (t ≡ (
            let keepalive =
              if str_eq s.keepalive_enable "0" then false else str_eq s.keepalive_enable "1" in
            if str_eq s.ssl_enable "0"
            then connect_insecure ∷ make_server keepalive ∷ listen_insecure ∷ start_server ∷ []
            else connect_secure ∷ make_server keepalive ∷ listen_secure ∷ start_server ∷ []))
        × ((file : File) → str_eq s.ssl_enable "0" ≡ false → host.readable file ≡ true)
  unfolding create_channel_common
  channel_security is_secure e = (
    ground arith,
    ground arith,
    λ file secured. elim file [
      | server_cert ↦ ground arith
      | client_key ↦ ground arith
      | client_cert ↦ ground arith
    ],
  )

  -- The functions for a secure and for an insecure channel do the same to the world, and come back
  -- without a channel in the same cases.
  pub create_channel-create_insecure_channel :
      (t : Trace)
      → ((create_channel t).1 ≡ (create_insecure_channel t).1)
        × (((create_channel t).0 ≡ ok none) ↔ ((create_insecure_channel t).0 ≡ ok none))
  unfolding create_channel create_insecure_channel create_channel_common
  create_channel-create_insecure_channel t = ground arith
