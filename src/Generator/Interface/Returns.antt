-- ===== src/Generator/Interface/Returns.antt =====
-- Where a function is for a side, it has a return type for that side.
use sat_os_payload_sdk.Prelude.{
  Bool-cases, String, true, ◌≡◌, ◌≢◌, refl, Option, none, some, arith, str_eq, str_eq_iff, ◌⊎◌, inl,
  inr,
}
use sat_os_payload_sdk.Exec.{Result, ok, raised}
use sat_os_payload_sdk.Generator.Interface.{
  check_applicability, nonempty, one_side, both_sides, needed, FunctionReturnType,
  function_return_type, get_return_type,
}

-- The two sides of the interface, with the names that the file and the generators use for them.
pub data Side : Type 0 where
  app peer : Side

abbrev pub consumer_name : Side → String
consumer_name app = "Application"
consumer_name peer = "Peer"

abbrev pub interface_name : Side → String
interface_name app = "App"
interface_name peer = "Peer"

abbrev IsNamed : Option String → Type 0
IsNamed o = (s : String) × (o ≡ some s) × (s ≢ "")

one_side-cases :
    (a b o : Option String)
    → one_side true a b ≡ ok o
    → (s : String) × (o ≡ some s) × ((a ≡ some s) ⊎ (b ≡ some s))
unfolding one_side
one_side-cases none none o e = cc e
one_side-cases (some s) none o e = (s, ground (arith, e), inl refl)
one_side-cases a (some t) o e = (t, ground (arith, e), inr refl)

nonempty-ne : (o : Option String) {s : String} → nonempty o ≡ some s → s ≢ ""
nonempty-ne none e = cc e
nonempty-ne (some t) {s} e = ground (arith, e, str_eq_iff t "")

one_side-IsNamed :
    (ret ret_side o : Option String)
    → one_side true (nonempty ret) (nonempty ret_side) ≡ ok o
    → IsNamed o
one_side-IsNamed ret ret_side o e =
    let (s, is, from) = one_side-cases (nonempty ret) (nonempty ret_side) o e in
    (s, is, elim from [ inl a ↦ nonempty-ne ret a | inr b ↦ nonempty-ne ret_side b ])

check_applicability→needed :
    (consumed_by : Option String) (side : String)
    → check_applicability consumed_by side ≡ true
    → needed consumed_by side ≡ true
unfolding check_applicability
check_applicability→needed none side h = refl
check_applicability→needed (some s) side h = elim (Bool-cases (str_eq s "")) [
  | inl t ↦ rw t refl
  | inr f ↦ rw f h
]

both_sides-eq :
    (p q : Result (Option String)) (spec : FunctionReturnType)
    → both_sides p q ≡ ok spec
    → (p ≡ ok spec.ret_app) × (q ≡ ok spec.ret_peer)
both_sides-eq (ok a) (ok b) spec e = ground (arith, e)
both_sides-eq (ok a) (raised x) spec e = cc e
both_sides-eq (raised x) q spec e = cc e

-- If the constructor does not end the program, then each side that consumes the function gets a
-- return type, which is a text that is not empty.
pub return_type_set :
    (side : Side) (consumed_by ret ret_peer ret_app : Option String) {spec : FunctionReturnType}
    → function_return_type consumed_by ret ret_peer ret_app ≡ ok spec
    → check_applicability consumed_by (consumer_name side) ≡ true
    → (s : String) × (get_return_type spec (interface_name side) ≡ ok (some s)) × (s ≢ "")
unfolding function_return_type check_applicability get_return_type
return_type_set side consumed_by ret ret_peer ret_app {spec} e h =
    let p = one_side (needed consumed_by "Application") (nonempty ret) (nonempty ret_app) in
    let q = one_side (needed consumed_by "Peer") (nonempty ret) (nonempty ret_peer) in
    let (is_app, is_peer) = both_sides-eq p q spec (ground (arith, e)) in
    elim side
        as (λ x.
          check_applicability consumed_by (consumer_name x) ≡ true
          → (s : String) × (get_return_type spec (interface_name x) ≡ ok (some s)) × (s ≢ "")) [
            | app ↦ λ k.
                let (s, is, ne) = one_side-IsNamed ret ret_app spec.ret_app (
                  ground (arith, is_app, check_applicability→needed consumed_by "Application" k)) in
                (s, rw is, ne)
            | peer ↦ λ k.
                let (s, is, ne) =
                  one_side-IsNamed ret ret_peer spec.ret_peer
                    (ground (arith, is_peer, check_applicability→needed consumed_by "Peer" k)) in
                (s, rw is, ne)
          ]
      h
