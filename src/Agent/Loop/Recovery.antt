-- ===== src/Agent/Loop/Recovery.antt =====
-- What an exception on a socket leaves behind.
use sat_os_payload_sdk.Prelude.{
  if-holds, ◌≡◌, ◌≢◌, refl, true, not, ◌&&◌, ◌||◌, List, [], ◌∷◌, ◌++◌, Option, none, some, ◌==◌,
  is_some, arith,
}
use sat_os_payload_sdk.Exec.{Result, ok, raised, Exec, continue, or_raise, key_error, ◌>>=◌}
use sat_os_payload_sdk.SocketProxy.Net.{Sock}
use sat_os_payload_sdk.SocketProxy.HalfPerma
use sat_os_payload_sdk.Agent.Loop.{
  user, is_user, Config, Agent, mem, without, closable, recover_perma_sock, perma_lost,
  flat_sat_lost, clean_up, clean_up_one, handle_exceptions, drop_other, forget_peer, other_of,
}

pub mem-append : (s : Sock) (l k : List Sock) → mem s (l ++ k) ≡ mem s l || mem s k
mem-append s [] k = refl
mem-append s (t ∷ l) k = ground (arith, mem-append s l k)

pub mem-without : (s t : Sock) (l : List Sock) → s ≢ t → mem s (without t l) ≡ mem s l
mem-without s t [] ne = refl
mem-without s t (u ∷ l) ne = ground (arith, mem-without s t l ne)

-- The agent watches its permanent socket and every socket that has a handler.
pub record IsWatched (a : Agent) : Type 0 where
  pub perma : mem a.perma_socket a.known_sockets ≡ true
  pub mapped : (s : Sock) → is_some (a.action_map s) ≡ true → mem s a.known_sockets ≡ true

pub record IsMapped (a : Agent) : Type 0 where
  pub mapped : (s : Sock) → is_some (a.action_map s) ≡ true → mem s a.known_sockets ≡ true

pub forget_perma : {a : Agent} → IsWatched a → IsMapped a
forget_perma h = record { mapped = h.mapped }

-- A run that starts in `I` and ends without an exception ends in `J`.
pub record Leads {A : Type 0} (I J : Agent → Type 0) (m : Exec Agent A) : Type 0 where
  pub leads : (a : Agent) → (x : A) → I a → (m a).0 ≡ ok x → J (m a).1

continue-leads :
    {A B : Type 0}
    → {I J : Agent → Type 0} → (k : A → Exec Agent B) → ((x : A) → Leads I J (k x))
    → (r : Result A) → (b : Agent) → ((x : A) → r ≡ ok x → I b)
    → (y : B) → (continue r k b).0 ≡ ok y
    → J (continue r k b).1
continue-leads k right (ok x) b at y e = (right x).leads b y (at x refl) e
continue-leads k right (raised err) b at y e = cc

pub bind-Leads :
    {A B : Type 0}
    → {I J K : Agent → Type 0} → (m : Exec Agent A) → (k : A → Exec Agent B) → Leads I J m
    → ((x : A) → Leads J K (k x))
    → Leads I K (m >>= k)
bind-Leads m k left right = record {
  leads = λ a y i e. continue-leads k right (m a).0 (m a).1 (λ x. left.leads a x i) y e;
}

module _ (c : Config) where
  -- Recovery gives the agent a new permanent socket, watched, and closes the old one, which has lost
  -- its handler. On the user's side the new one has a new `HalfPerma` that has no second leg yet.
  pub recover_perma_sock_lem :
      (a : Agent)
      → mem a.perma_socket a.known_sockets ≡ true
      → c.mode ≡ user
      → let (r, a') = recover_perma_sock c a in
        (r ≡ ok tt)
        × (a'.perma_socket ≡ a.net.next_sock)
        × (a'.net.closed ≡ a.net.closed ++ a.perma_socket ∷ [])
        × (a'.known_sockets ≡ without a.perma_socket a.known_sockets ++ a'.perma_socket ∷ [])
        × (a'.action_map a'.perma_socket ≡ some a.next_handler)
        × (closable (a'.handlers a.next_handler) ≡ some a'.perma_socket ∷ none ∷ [])
  unfolding recover_perma_sock HalfPerma.get_closable_connections
  recover_perma_sock_lem a known m = ground (arith, known, m)

  recover_perma_sock-IsWatched :
      (a : Agent)
      → IsMapped a
      → (recover_perma_sock c a).0 ≡ ok tt
      → IsWatched (recover_perma_sock c a).1
  unfolding recover_perma_sock
  recover_perma_sock-IsWatched a h e =
      let rest = without a.perma_socket a.known_sockets in
      let new = a.net.next_sock ∷ [] in
      record {
        perma = ground (arith, e, mem-append a.net.next_sock rest new);
        mapped = λ s. ground (
          arith,
          e,
          h.mapped s,
          mem-append s rest new,
          mem-without s a.perma_socket a.known_sockets,
        );
      }

  drop_other-IsMapped : (t : Option Sock) → Leads IsMapped IsMapped (drop_other c t)
  unfolding drop_other
  drop_other-IsMapped none = record { leads = λ a x h e. h }
  drop_other-IsMapped (some t) = record {
    leads = λ a x h e. record {
      mapped = λ s. ground (arith, h.mapped s, mem-without s t a.known_sockets);
    };
  }

  forget_peer-IsMapped : (t : Option Sock) → Leads IsMapped IsMapped (forget_peer c t)
  unfolding forget_peer
  forget_peer-IsMapped t = record {
    leads = λ a x h e. record { mapped = λ s. ground (arith, h.mapped s) };
  }

  other_of_lem : (p : Sock) (l : List (Option Sock)) (a : Agent) → (other_of c p l a).1 ≡ a
  unfolding other_of
  other_of_lem p [] a = refl
  other_of_lem p (none ∷ l) a = refl
  other_of_lem p (some s ∷ []) a = ground arith
  other_of_lem p (some s ∷ t ∷ l) a = refl

  perma_lost-IsMapped : (s : Sock) → Leads IsMapped IsMapped (perma_lost c s)
  unfolding perma_lost
  perma_lost-IsMapped s =
      bind-Leads (λ a. or_raise (a.action_map s) key_error a)
        (λ h. (λ a. other_of c a.perma_socket (closable (a.handlers h)) a) >>= λ other.
          forget_peer c other >>= λ _. drop_other c other)
        (record { leads = λ a x h e. ground (arith, h, e) })
        (λ h.
          bind-Leads (λ a. other_of c a.perma_socket (closable (a.handlers h)) a)
            (λ other. forget_peer c other >>= λ _. drop_other c other)
            (record {
              leads = λ a x i e. rw (other_of_lem a.perma_socket (closable (a.handlers h)) a) i;
            })
            (λ other.
              bind-Leads (forget_peer c other) (λ _. drop_other c other)
                (forget_peer-IsMapped other) (λ _. drop_other-IsMapped other)))

  flat_sat_lost-IsMapped : (s : Sock) → Leads IsMapped IsMapped (flat_sat_lost c s)
  unfolding flat_sat_lost
  flat_sat_lost-IsMapped s = record {
    leads = λ a x h e. record { mapped = λ t. ground (arith, h.mapped t) };
  }

  pub recover_perma_sock-Leads : Leads IsMapped IsWatched (recover_perma_sock c)
  recover_perma_sock-Leads = record { leads = λ a x h e. recover_perma_sock-IsWatched a h e }

  clean_up_one-IsWatched : (leg : Option Sock) → Leads IsWatched IsWatched (clean_up_one c leg)
  unfolding clean_up_one
  clean_up_one-IsWatched none = record { leads = λ a x h e. h }
  clean_up_one-IsWatched (some s) = record {
    leads = λ a x h e.
        let again : (recover_perma_sock c a).0 ≡ ok tt → IsWatched (recover_perma_sock c a).1 =
          recover_perma_sock-IsWatched a (forget_perma h) in
        record {
          perma = ground (
            arith,
            e,
            h.perma,
            λ (i : (recover_perma_sock c a).0 ≡ ok tt). (again i).perma,
            mem-without a.perma_socket s a.known_sockets,
          );
          mapped = λ t. ground (
            arith,
            e,
            h.mapped t,
            λ (i : (recover_perma_sock c a).0 ≡ ok tt). (again i).mapped t,
            mem-without t s a.known_sockets,
          );
        };
  }

  clean_up-IsWatched : (legs : List (Option Sock)) → Leads IsWatched IsWatched (clean_up c legs)
  unfolding clean_up
  clean_up-IsWatched [] = record { leads = λ a x h e. h }
  clean_up-IsWatched (s ∷ legs) =
      bind-Leads (clean_up_one c s) (λ _. clean_up c legs) (clean_up_one-IsWatched s)
        (λ _. clean_up-IsWatched legs)

  lost-IsWatched :
      (m : Exec Agent (Unit {0}))
      → Leads IsMapped IsMapped m
      → Leads IsWatched IsWatched (m >>= λ _. recover_perma_sock c)
  lost-IsWatched m keeps =
      bind-Leads {J = IsMapped} m (λ _. recover_perma_sock c)
        (record { leads = λ a x h e. keeps.leads a x (forget_perma h) e })
        (λ _. recover_perma_sock-Leads)

  -- An exception on a socket that is handled without an exception in the code itself leaves an agent
  -- that watches its permanent socket, which is a new one if the old one was closed, and every socket
  -- that still has a handler.
  pub handle_exceptions-IsWatched :
      (s : Sock)
      → (a : Agent) → IsWatched a
      → (handle_exceptions c s a).0 ≡ ok tt
      → IsWatched (handle_exceptions c s a).1
  unfolding handle_exceptions
  handle_exceptions-IsWatched s a h =
      let P : Result (Unit {0}) × Agent → Type 0 = λ r. r.0 ≡ ok tt → IsWatched r.1 in
      if-holds P (a.perma_socket == s)
        (if-holds P (c.flat_sat && not (is_user c.mode))
          ((lost-IsWatched (flat_sat_lost c s) (flat_sat_lost-IsMapped s)).leads a tt h)
          ((lost-IsWatched (perma_lost c s) (perma_lost-IsMapped s)).leads a tt h))
        ((bind-Leads {I = IsWatched} {J = IsWatched} (or_raise (a.action_map s) key_error)
            (λ k. clean_up c (closable (a.handlers k)))
            (record { leads = λ b x i e. ground (arith, i, e) })
            (λ k. clean_up-IsWatched (closable (a.handlers k)))).leads
          a tt h)
