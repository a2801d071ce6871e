-- ===== src/Agent/Options/Checks.antt =====
-- What `parse_opts` guarantees, and what its option table cannot do.
use mathlib.Core.Path.{fun_ext}
use sat_os_payload_sdk.Prelude.{
  ap, str_eq_iff, ◌∙◌, ◌⊎◌, String, ◌≡◌, ◌≢◌, refl, Bool, true, false, List, [], ◌∷◌, ◌++◌, Option,
  none, some, arith, ℤ, pos,
}
use sat_os_payload_sdk.Agent.Options.{
  Options, defaults, Parsed, returned, value_error, exit_zero, is_valid_mode, set_opt, set_opts,
  set_by, Opt, option_of, require, parse_opts, ◌>>=◌,
}

-- The mode, where one is set, is one of the two.
abbrev pub IsMode : Option String → Type 0
IsMode none = Unit
IsMode (some m) = is_valid_mode m ≡ true

-- The settings with which the agent goes on.
pub record IsComplete (o : Options) : Type 0 where
  pub mode : IsMode o.agent_mode
  pub mode_set : o.agent_mode ≢ none
  pub public_ip : o.agent_public_ip ≢ none
  pub public_port : o.agent_public_port ≢ none
  pub peer_ip : o.internal_peer_ip ≢ none
  pub peer_port : o.internal_peer_port ≢ none
  pub server_ip : (o.flat_sat_mode ≡ true) ⊎ (o.server_ip ≢ none)
  pub server_port : (o.flat_sat_mode ≡ true) ⊎ (o.server_port ≢ none)
  pub udp : (o.udp_mode ≡ false) ⊎ (o.flat_sat_mode ≡ true)

-- Inversion of a successful chain.
>>=-eq-returned :
    {A B : Type 0} (m : Parsed A) (f : A → Parsed B) {b : B}
    → (m >>= f) ≡ returned b
    → (a : A) × (m ≡ returned a) × (f a ≡ returned b)
>>=-eq-returned (returned a) f e = (a, refl, e)
>>=-eq-returned exit_zero f e = cc e
>>=-eq-returned _ f e = cc e

>>=-cong :
    {A B : Type 0} (m : Parsed A) {f g : A → Parsed B}
    → ((a : A) → f a ≡ g a)
    → (m >>= f) ≡ (m >>= g)
>>=-cong m h = ap (λ k. m >>= k) (fun_ext h)

>>=_assoc :
    {A B C : Type 0} (m : Parsed A) (f : A → Parsed B) (g : B → Parsed C)
    → (m >>= λ a. f a >>= g) ≡ (m >>= f >>= g)
>>=_assoc (returned a) f g = refl
>>=_assoc exit_zero f g = refl
>>=_assoc _ f g = refl

-- `getopt` gives an empty argument to an option that its table declares without one.
abbrev pub Bare : (Opt → Bool) → List (String × String) → Type 0
Bare no_argument [] = Unit
Bare no_argument ((opt, arg) ∷ opts) =
    (no_argument (option_of opt) ≡ true → arg ≡ "") × Bare no_argument opts

abbrev pub is_udp : Opt → Bool
is_udp Opt.udp = true
is_udp _ = false

module _ (int : String → Option ℤ) where
  set_by-IsMode :
      (opt : Opt) (arg : String) (o : Options) {o' : Options}
      → IsMode o.agent_mode
      → set_by int opt arg o ≡ returned o'
      → IsMode o'.agent_mode
  unfolding set_by
  set_by-IsMode Opt.help arg o h e = cc e
  set_by-IsMode _ arg o h e = ground arith

  set_opts-IsMode :
      (opts : List (String × String)) (o : Options) {o' : Options}
      → IsMode o.agent_mode
      → set_opts int opts o ≡ returned o'
      → IsMode o'.agent_mode
  unfolding set_opts set_opt
  set_opts-IsMode [] o h e = ground arith
  set_opts-IsMode ((opt, arg) ∷ opts) o {o'} h e =
      let (p, first, rest) =
        >>=-eq-returned (set_by int (option_of opt) arg o) (set_opts int opts) e in
      set_opts-IsMode opts p (set_by-IsMode (option_of opt) arg o h first) rest

  require-IsComplete :
      (o : Options) {o' : Options} → IsMode o.agent_mode → require o ≡ returned o' → IsComplete o'
  unfolding require
  require-IsComplete o h e = ground arith

  -- If `parse_opts` returns, the mode is one of the two, the public and the local address and port
  -- are set, the internal address and port are set or the agent is in flat-sat mode, and UDP mode
  -- is on only in flat-sat mode.
  pub parse_opts-IsComplete :
      (opts : Option (List (String × String))) {o : Options}
      → parse_opts int opts defaults ≡ returned o
      → IsComplete o
  unfolding parse_opts
  parse_opts-IsComplete none e = cc e
  parse_opts-IsComplete (some opts) e =
      let (p, first, rest) = >>=-eq-returned (set_opts int opts defaults) require e in
      require-IsComplete p (set_opts-IsMode opts defaults tt first) rest

  set_by-udp_cmd_size :
      (opt : Opt) (arg : String) (o : Options) {o' : Options}
      → (is_udp opt ≡ true → arg ≡ "")
      → set_by int opt arg o ≡ returned o'
      → o'.udp_cmd_size ≡ o.udp_cmd_size
  unfolding set_by
  set_by-udp_cmd_size Opt.help arg o h e = cc e
  set_by-udp_cmd_size Opt.udp arg o h e = ground (arith, h refl, str_eq_iff arg "")
  set_by-udp_cmd_size _ arg o h e = ground arith

  set_opts-append :
      (xs ys : List (String × String)) (o : Options)
      → set_opts int (xs ++ ys) o ≡ (set_opts int xs o >>= set_opts int ys)
  unfolding set_opts
  set_opts-append [] ys o = refl
  set_opts-append ((opt, arg) ∷ xs) ys o =
      >>=-cong (set_opt int opt arg o) (set_opts-append xs ys)
      ∙ >>=_assoc (set_opt int opt arg o) (set_opts int xs) (set_opts int ys)

  set_opts-udp_cmd_size :
      (opts : List (String × String)) (o : Options) {o' : Options}
      → Bare is_udp opts
      → set_opts int opts o ≡ returned o'
      → o'.udp_cmd_size ≡ o.udp_cmd_size
  unfolding set_opts set_opt
  set_opts-udp_cmd_size [] o h e = ground arith
  set_opts-udp_cmd_size ((opt, arg) ∷ opts) o h e =
      let (p, first, rest) =
        >>=-eq-returned (set_by int (option_of opt) arg o) (set_opts int opts) e in
      set_opts-udp_cmd_size opts p h.1 rest ∙ set_by-udp_cmd_size (option_of opt) arg o h.0 first

  -- No command line changes the packet size: `getopt` gives `-u` an empty argument, since its table
  -- declares it without one, so a `parse_opts` that returns leaves the size at 1410.
  pub udp_cmd_size_fixed :
      (opts : List (String × String)) {o : Options}
      → Bare is_udp opts
      → parse_opts int (some opts) defaults ≡ returned o
      → o.udp_cmd_size ≡ pos 1410
  unfolding parse_opts require
  udp_cmd_size_fixed opts bare e =
      let (p, first, rest) = >>=-eq-returned (set_opts int opts defaults) require e in
      ground (arith, set_opts-udp_cmd_size opts defaults bare first)

  -- The long form of an option that takes a port, where the table declares it without an argument,
  -- ends the program with a ValueError as soon as it is reached.
  pub bare_port_fails :
      (before after : List (String × String)) (opt : String) {o : Options}
      → int "" ≡ none
      → (option_of opt ≡ Opt.server_port) ⊎ (option_of opt ≡ Opt.local_port)
      → set_opts int before defaults ≡ returned o
      → parse_opts int (some (before ++ (opt, "") ∷ after)) defaults ≡ value_error
  unfolding parse_opts
  bare_port_fails before after opt no_number port e =
      rw (set_opts-append before ((opt, "") ∷ after) defaults, e)
        (unfold set_opts set_opt set_by in ground arith)
