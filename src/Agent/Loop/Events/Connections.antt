-- ===== src/Agent/Loop/Events/Connections.antt =====
-- What new connections and forwarded data do to the watched sockets.
use sat_os_payload_sdk.Prelude.{
  if-holds, ℕ, ◌≡◌, Bool, false, [], ◌∷◌, ◌++◌, Option, none, some, is_some, if◌then◌else◌, arith,
}
use sat_os_payload_sdk.Exec.{
  Error, system_exit, Result, ok, raised, key_error, Exec, ◌>>=◌, or_raise,
}
use sat_os_payload_sdk.SocketProxy.Net
use sat_os_payload_sdk.SocketProxy.Net.{Net, Os, Sock, Bytes, stream}
use sat_os_payload_sdk.SocketProxy.Pair
use sat_os_payload_sdk.SocketProxy.Pair.{ProxySocket}
use sat_os_payload_sdk.Agent.Loop.{
  Mode, Config, Handler, a_pair, Agent, handle_exceptions, on_net, new_handler,
}
use sat_os_payload_sdk.Agent.Loop.Recovery.{
  IsWatched, mem-append, Leads, bind-Leads, handle_exceptions-IsWatched,
}
use sat_os_payload_sdk.Agent.Loop.Events.{
  handler_on_data, register_leg, after_on_data, forward, accept_user, install, join, accept_peer,
  drop_peer, refuse_peer, accept_internal, adopt, confirm, accept_web, accept,
}

module _ (os : Os) (c : Config) (g_udp_cmd_size : ℕ) where
  pub exceptions-Leads : (s : Sock) → Leads IsWatched IsWatched (handle_exceptions c s)
  exceptions-Leads s = record { leads = λ a x h e. handle_exceptions-IsWatched c s a h e }

  pub or_raise-Leads :
      (s : Sock) → Leads IsWatched IsWatched (λ a. or_raise (a.action_map s) key_error a)
  or_raise-Leads s = record { leads = λ a x h e. ground (arith, h, e) }

  handler_on_data-Leads :
      (h : ℕ) (s : Sock) (buf : Bytes)
      → Leads IsWatched IsWatched (handler_on_data os c g_udp_cmd_size h s buf)
  unfolding handler_on_data
  handler_on_data-Leads h s buf = record {
    leads = λ a x w e. record { perma = w.perma; mapped = w.mapped };
  }

  pub register_leg-Leads :
      (h : ℕ) (s : Sock) → Leads IsWatched IsWatched (register_leg os c g_udp_cmd_size h s)
  unfolding register_leg
  register_leg-Leads h s = record {
    leads = λ a x w e. record {
      perma = ground (arith, w.perma, mem-append a.perma_socket a.known_sockets (s ∷ []));
      mapped = λ t. ground (arith, w.mapped t, mem-append t a.known_sockets (s ∷ []));
    };
  }

  after_on_data-Leads :
      (h : ℕ) (t : Option Sock) → Leads IsWatched IsWatched (after_on_data os c g_udp_cmd_size h t)
  unfolding after_on_data
  after_on_data-Leads h none = record { leads = λ a x w e. w }
  after_on_data-Leads h (some t) = record {
    leads = λ a x w e. (register_leg-Leads h t).leads a x w e;
  }

  on_net-Leads : {A : Type 0} → (m : Exec Net A) → Leads IsWatched IsWatched (on_net m)
  on_net-Leads m = record { leads = λ a x w e. record { perma = w.perma; mapped = w.mapped } }

  new_handler-Leads : (h : Handler) → Leads IsWatched IsWatched (new_handler h)
  new_handler-Leads h = record { leads = λ a x w e. record { perma = w.perma; mapped = w.mapped } }

  join-Leads :
      (h : ℕ) (s : Sock) (t : Option Sock)
      → Leads IsWatched IsWatched (join os c g_udp_cmd_size h s t)
  unfolding join
  join-Leads h s none = record { leads = λ a x w e. w }
  join-Leads h s (some t) = record {
    leads = λ a x w e. record {
      perma = ground (
        arith,
        w.perma,
        mem-append a.perma_socket a.known_sockets (s ∷ []),
        mem-append a.perma_socket (a.known_sockets ++ s ∷ []) (t ∷ []),
      );
      mapped = λ u. ground (
        arith,
        w.mapped u,
        mem-append u a.known_sockets (s ∷ []),
        mem-append u (a.known_sockets ++ s ∷ []) (t ∷ []),
      );
    };
  }

  accept_user-Leads : Leads IsWatched IsWatched (accept_user os c g_udp_cmd_size)
  unfolding accept_user
  accept_user-Leads = bind-Leads {J = IsWatched} _ _ (on_net-Leads (Net.create stream)) (λ s.
      bind-Leads {A = ProxySocket} {J = IsWatched} _ _
        (on_net-Leads (Pair.on_the_fly_pair os s c.public_ip c.public_port false))
        (λ p.
          bind-Leads {J = IsWatched} _ _ (new_handler-Leads (a_pair p))
            (λ h. join-Leads h s p.leg2)))

  accept_peer-Leads : (s : Sock) → Leads IsWatched IsWatched (accept_peer os c g_udp_cmd_size s)
  unfolding accept_peer
  accept_peer-Leads s = record {
    leads = λ a x w e. record {
      perma = ground (arith, w.perma, mem-append a.perma_socket a.known_sockets (s ∷ []));
      mapped = λ t. ground (arith, w.mapped t, w.perma, mem-append t a.known_sockets (s ∷ []));
    };
  }

  drop_peer-Leads : (t : Option Sock) → Leads IsWatched IsWatched (drop_peer os c g_udp_cmd_size t)
  unfolding drop_peer
  drop_peer-Leads none = record { leads = λ a x w e. w }
  drop_peer-Leads (some t) = record { leads = λ a x w e. (exceptions-Leads t).leads a x w e }

  refuse_peer-Leads : (s : Sock) → Leads IsWatched IsWatched (refuse_peer os c g_udp_cmd_size s)
  unfolding refuse_peer
  refuse_peer-Leads s =
      bind-Leads {J = IsWatched} (λ a. handle_exceptions c a.perma_socket a)
        (λ _. (λ a. drop_peer os c g_udp_cmd_size a.peer_connected a) >>= λ _. on_net (Net.close s))
        (record { leads = λ a x w e. (exceptions-Leads a.perma_socket).leads a x w e })
        (λ _.
          bind-Leads {J = IsWatched} (λ a. drop_peer os c g_udp_cmd_size a.peer_connected a)
            (λ _. on_net (Net.close s))
            (record { leads = λ a x w e. (drop_peer-Leads a.peer_connected).leads a x w e })
            (λ _. record { leads = λ a x w e. record { perma = w.perma; mapped = w.mapped } }))

  pub forward-Leads :
      (s : Sock) (buf : Bytes) → Leads IsWatched IsWatched (forward os c g_udp_cmd_size s buf)
  unfolding forward
  forward-Leads s buf =
      bind-Leads {J = IsWatched} (λ a. or_raise (a.action_map s) key_error a)
        (λ h. handler_on_data os c g_udp_cmd_size h s buf >>= λ t.
          after_on_data os c g_udp_cmd_size h t)
        (or_raise-Leads s)
        (λ h.
          bind-Leads {J = IsWatched} (handler_on_data os c g_udp_cmd_size h s buf)
            (λ t. after_on_data os c g_udp_cmd_size h t) (handler_on_data-Leads h s buf)
            (after_on_data-Leads h))

  install-Leads : (h : ℕ) (s : Sock) → Leads IsWatched IsWatched (install os c g_udp_cmd_size h s)
  unfolding install
  install-Leads h s = record {
    leads = λ a x w e. record {
      perma = ground (arith, w.perma, mem-append a.perma_socket a.known_sockets (s ∷ []));
      mapped = λ t. ground (arith, w.mapped t, mem-append t a.known_sockets (s ∷ []));
    };
  }

  adopt-Leads :
      (h : ℕ) (t : Option Sock) → Leads IsWatched IsWatched (adopt os c g_udp_cmd_size h t)
  unfolding adopt
  adopt-Leads h none = record { leads = λ a x w e. w }
  adopt-Leads h (some t) = record { leads = λ a x w e. (install-Leads h t).leads a x w e }

  confirm-Leads :
      (h : ℕ) (p : ProxySocket) → Leads IsWatched IsWatched (confirm os c g_udp_cmd_size h p)
  unfolding confirm
  confirm-Leads h p = record { leads = λ a x w e. record { perma = w.perma; mapped = w.mapped } }

  accept_web-Leads : Leads IsWatched IsWatched (accept_web os c g_udp_cmd_size)
  unfolding accept_web
  accept_web-Leads = bind-Leads {J = IsWatched} _ _ (on_net-Leads (Net.create stream)) (λ s.
      bind-Leads {A = ProxySocket} {J = IsWatched} _ _
        (on_net-Leads (Pair.deferred s c.internal_peer_ip c.internal_peer_port))
        (λ p. bind-Leads {J = IsWatched} _ _ (new_handler-Leads (a_pair p)) (λ h.
          bind-Leads {J = IsWatched} _ _ (install-Leads h s)
            (λ _. bind-Leads {J = IsWatched} _ _ (confirm-Leads h p) (adopt-Leads h)))))

  -- A test of the state chooses between two runs.
  pub choose-Leads :
      (b : Agent → Bool) (m k : Exec Agent (Unit {0}))
      → Leads IsWatched IsWatched m
      → Leads IsWatched IsWatched k
      → Leads IsWatched IsWatched (λ a. if b a then m a else k a)
  choose-Leads b m k l r = record {
    leads = λ a x w.
        let P : Result (Unit {0}) × Agent → Type 0 = λ q. q.0 ≡ ok x → IsWatched q.1 in
        if-holds P (b a) (l.leads a x w) (r.leads a x w);
  }

  accept_internal-Leads : Leads IsWatched IsWatched (accept_internal os c g_udp_cmd_size)
  unfolding accept_internal
  accept_internal-Leads = bind-Leads {J = IsWatched} _ _ (on_net-Leads (Net.create stream)) (λ s.
      choose-Leads (λ a. is_some a.peer_connected) (refuse_peer os c g_udp_cmd_size s)
        (accept_peer os c g_udp_cmd_size s) (refuse_peer-Leads s) (accept_peer-Leads s))

  pub quits-Leads :
      {A : Type 0} → (e : Error) → Leads {A = A} IsWatched IsWatched (λ a. (raised e, a))
  quits-Leads e = record { leads = λ a x w e. w }

  pub accept-Leads :
      (m : Mode) (s : Sock) → Leads IsWatched IsWatched (accept os c g_udp_cmd_size m s)
  unfolding accept
  accept-Leads Mode.user s =
      choose-Leads (λ a. Pair.is_sock a.internal_listener s) (accept_user os c g_udp_cmd_size)
        (λ a. (raised system_exit, a)) accept_user-Leads (quits-Leads system_exit)
  accept-Leads Mode.atmos s =
      choose-Leads (λ a. Pair.is_sock a.internal_listener s) (accept_internal os c g_udp_cmd_size)
        (λ a.
          if Pair.is_sock a.web_listener s
          then accept_web os c g_udp_cmd_size a
          else (raised system_exit, a))
        accept_internal-Leads
        (choose-Leads (λ a. Pair.is_sock a.web_listener s) (accept_web os c g_udp_cmd_size)
          (λ a. (raised system_exit, a)) accept_web-Leads (quits-Leads system_exit))
