-- ===== src/Agent/Loop/Events/Watched.antt =====
-- No socket with a handler is ever missed by `select`.
use sat_os_payload_sdk.Prelude.{
  ℕ, ◌≡◌, ◌&&◌, List, [], ◌∷◌, Option, none, some, ◌==◌, is_some, if◌then◌else◌,
}
use sat_os_payload_sdk.Exec.{ok, key_error, ◌>>=◌, or_raise}
use sat_os_payload_sdk.SocketProxy.Net
use sat_os_payload_sdk.SocketProxy.Net.{Net, Os, Sock, Bytes, stream}
use sat_os_payload_sdk.Agent.Packets.{Buffer, bytes, list, Outcome, forwarded, failed, handle_udp}
use sat_os_payload_sdk.Agent.Packets.Keeps.{handle_udp-keeps}
use sat_os_payload_sdk.Agent.Loop.{
  Config, is_user, Agent, mem, handle_exceptions, recover_perma_sock,
}
use sat_os_payload_sdk.Agent.Loop.Recovery.{
  IsWatched, Leads, bind-Leads, recover_perma_sock-Leads, forget_perma,
}
use sat_os_payload_sdk.Agent.Loop.Events.{
  handler_on_data, register_leg, forward, udp_on_data, after_udp, read_udp, read_data, accept,
  handle_readable, read_all, except_all, worker_round, worker,
}
use sat_os_payload_sdk.Agent.Loop.Events.Connections.{
  exceptions-Leads, or_raise-Leads, register_leg-Leads, forward-Leads, choose-Leads, quits-Leads,
  accept-Leads,
}

module _ (os : Os) (c : Config) (g_udp_cmd_size : ℕ) where
  handler_on_data-IsWatched :
      (h : ℕ) (s : Sock) (buf : Bytes) (a : Agent)
      → IsWatched a
      → IsWatched (handler_on_data os c g_udp_cmd_size h s buf a).1
  unfolding handler_on_data
  handler_on_data-IsWatched h s buf a w = record { perma = w.perma; mapped = w.mapped }

  by_handler-IsWatched :
      (h : Option ℕ) (s : Sock) (b : Bytes) (a : Agent)
      → IsWatched a
      → IsWatched ((or_raise h key_error >>= λ k. handler_on_data os c g_udp_cmd_size k s b) a).1
  by_handler-IsWatched none s b a w = w
  by_handler-IsWatched (some h) s b a w = handler_on_data-IsWatched h s b a w

  udp_on_data-IsWatched :
      (s : Sock) (b : Buffer) (a : Agent)
      → IsWatched a
      → IsWatched (udp_on_data os c g_udp_cmd_size s b a).1
  unfolding udp_on_data
  udp_on_data-IsWatched s (bytes b) a w = by_handler-IsWatched (a.action_map s) s b a w
  udp_on_data-IsWatched s (list b) a w = w

  after_udp-Leads :
      (s : Sock) (o : Outcome) → Leads IsWatched IsWatched (after_udp os c g_udp_cmd_size s o)
  unfolding after_udp
  after_udp-Leads s (forwarded t) =
      bind-Leads {J = IsWatched} (λ a. or_raise (a.action_map s) key_error a)
        (λ h. register_leg os c g_udp_cmd_size h t) (or_raise-Leads os c g_udp_cmd_size s)
        (λ h. register_leg-Leads os c g_udp_cmd_size h t)
  after_udp-Leads s (failed e) = quits-Leads os c g_udp_cmd_size e
  after_udp-Leads s _ = record { leads = λ a x w e. w }

  read_udp-Leads :
      (s : Sock) (buf : Bytes) → Leads IsWatched IsWatched (read_udp os c g_udp_cmd_size s buf)
  unfolding read_udp
  read_udp-Leads s buf = record {
    leads = λ a x w e.
        let r = handle_udp g_udp_cmd_size (udp_on_data os c g_udp_cmd_size s) a.udppacket buf a in
        let kept : IsWatched r.1.world =
          handle_udp-keeps g_udp_cmd_size (udp_on_data os c g_udp_cmd_size s) IsWatched
            (udp_on_data-IsWatched s) a.udppacket buf a w in
        (after_udp-Leads s r.0).leads (record r.1.world { udppacket = r.1.udppacket }) x
          (record { perma = kept.perma; mapped = kept.mapped }) e;
  }

  read_data-Leads :
      (s : Sock) (answer : Option Bytes)
      → Leads IsWatched IsWatched (read_data os c g_udp_cmd_size s answer)
  unfolding read_data
  read_data-Leads s none = record {
    leads = λ a x w e. (exceptions-Leads os c g_udp_cmd_size s).leads a x w e;
  }
  read_data-Leads s (some []) = record {
    leads = λ a x w e. (exceptions-Leads os c g_udp_cmd_size s).leads a x w e;
  }
  read_data-Leads s (some (b ∷ buf)) =
      choose-Leads os c g_udp_cmd_size (λ a. (s == a.perma_socket) && (c.udp && is_user c.mode))
        (read_udp os c g_udp_cmd_size s (b ∷ buf)) (forward os c g_udp_cmd_size s (b ∷ buf))
        (read_udp-Leads s (b ∷ buf)) (forward-Leads os c g_udp_cmd_size s (b ∷ buf))

  handle_readable-Leads :
      (s : Sock) → Leads IsWatched IsWatched (handle_readable os c g_udp_cmd_size s)
  unfolding handle_readable
  handle_readable-Leads s =
      choose-Leads os c g_udp_cmd_size (λ a. is_some (a.action_map s))
        (λ a. read_data os c g_udp_cmd_size s (Net.socket_recv os s 8192 a.net).0 a)
        (λ a.
          if s == a.perma_socket
          then recover_perma_sock c a
          else accept os c g_udp_cmd_size c.mode s a)
        (record {
          leads = λ a x w e. (read_data-Leads s (Net.socket_recv os s 8192 a.net).0).leads a x w e;
        })
        (choose-Leads os c g_udp_cmd_size (λ a. s == a.perma_socket) (recover_perma_sock c)
          (accept os c g_udp_cmd_size c.mode s)
          (record { leads = λ a x w e. (recover_perma_sock-Leads c).leads a x (forget_perma w) e })
          (accept-Leads os c g_udp_cmd_size c.mode s))

  read_all-Leads : (ss : List Sock) → Leads IsWatched IsWatched (read_all os c g_udp_cmd_size ss)
  unfolding read_all
  read_all-Leads [] = record { leads = λ a x w e. w }
  read_all-Leads (s ∷ more) =
      choose-Leads os c g_udp_cmd_size (λ a. mem s a.net.closed) (read_all os c g_udp_cmd_size more)
        (handle_readable os c g_udp_cmd_size s >>= λ _. read_all os c g_udp_cmd_size more)
        (read_all-Leads more)
        (bind-Leads {J = IsWatched} _ _ (handle_readable-Leads s) (λ _. read_all-Leads more))

  except_all-Leads :
      (ss : List Sock) → Leads IsWatched IsWatched (except_all os c g_udp_cmd_size ss)
  unfolding except_all
  except_all-Leads [] = record { leads = λ a x w e. w }
  except_all-Leads (s ∷ more) =
      choose-Leads os c g_udp_cmd_size (λ a. mem s a.net.closed)
        (except_all os c g_udp_cmd_size more)
        (handle_exceptions c s >>= λ _. except_all os c g_udp_cmd_size more) (except_all-Leads more)
        (bind-Leads {J = IsWatched} _ _ (exceptions-Leads os c g_udp_cmd_size s)
          (λ _. except_all-Leads more))

  worker_round-Leads :
      (rd except : List Sock)
      → Leads IsWatched IsWatched (worker_round os c g_udp_cmd_size rd except)
  unfolding worker_round
  worker_round-Leads rd except =
      choose-Leads os c g_udp_cmd_size (λ a. mem a.perma_socket rd)
        (λ a.
          (handle_readable os c g_udp_cmd_size a.perma_socket >>= λ _ b.
          if mem b.perma_socket except then handle_exceptions c b.perma_socket b else (ok tt, b))
            a)
        (λ a.
          if mem a.perma_socket except
          then handle_exceptions c a.perma_socket a
          else (read_all os c g_udp_cmd_size rd >>= λ _. except_all os c g_udp_cmd_size except) a)
        (record {
          leads = λ a x w e.
              (bind-Leads {J = IsWatched} (handle_readable os c g_udp_cmd_size a.perma_socket)
                  (λ _ b.
                    if mem b.perma_socket except
                    then handle_exceptions c b.perma_socket b
                    else (ok tt, b))
                  (handle_readable-Leads a.perma_socket)
                  (λ _.
                    choose-Leads os c g_udp_cmd_size (λ b. mem b.perma_socket except)
                      (λ b. handle_exceptions c b.perma_socket b) (λ b. (ok tt, b))
                      (record {
                        leads = λ b y v f.
                            (exceptions-Leads os c g_udp_cmd_size b.perma_socket).leads b y v f;
                      })
                      (record { leads = λ b y v f. v }))).leads
                a x w e;
        })
        (choose-Leads os c g_udp_cmd_size (λ a. mem a.perma_socket except)
          (λ a. handle_exceptions c a.perma_socket a)
          (read_all os c g_udp_cmd_size rd >>= λ _. except_all os c g_udp_cmd_size except)
          (record {
            leads = λ a x w e. (exceptions-Leads os c g_udp_cmd_size a.perma_socket).leads a x w e;
          })
          (bind-Leads {J = IsWatched} _ _ (read_all-Leads rd) (λ _. except_all-Leads except)))

  worker-Leads :
      (rounds : List (List Sock × List Sock))
      → Leads IsWatched IsWatched (worker os c g_udp_cmd_size rounds)
  unfolding worker
  worker-Leads [] = record { leads = λ a x w e. w }
  worker-Leads ((rd, except) ∷ rounds) =
      bind-Leads {J = IsWatched} _ _ (worker_round-Leads rd except) (λ _. worker-Leads rounds)

  -- Whatever sockets `select` reports, round after round, and whatever the operating system answers:
  -- as long as no exception leaves `worker`, the agent watches its permanent socket and every socket
  -- that has a handler.
  pub worker-IsWatched :
      (rounds : List (List Sock × List Sock)) (a : Agent)
      → IsWatched a
      → (worker os c g_udp_cmd_size rounds a).0 ≡ ok tt
      → IsWatched (worker os c g_udp_cmd_size rounds a).1
  worker-IsWatched rounds a w e = (worker-Leads rounds).leads a tt w e
