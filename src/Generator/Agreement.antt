-- ===== src/Generator/Agreement.antt =====
-- What the generators of the two sides keep of one struct of the interface file: the fields of the
-- application's class and the fields of the message on the wire.
use sat_os_payload_sdk.Prelude.{
  String, Bool, true, false, ◌&&◌, ◌≡◌, refl, List, [], ◌∷◌, map, Option, none, some, arith,
  Bool-cases, str_eq, str_eq_iff, inl, inr,
}
use sat_os_payload_sdk.Generator.Text.{filter}
use sat_os_payload_sdk.Generator.Interface.{ElementTree, check_applicability, Field, field}
use sat_os_payload_sdk.Generator.Py.{py_struct}
use sat_os_payload_sdk.Generator.Proto.Files.{proto_struct}

module _ {A : Type 0} where
  filter_both :
      (p q r : A → Bool)
      → ((a : A) → (p a && q a) ≡ r a)
      → (l : List A) → filter p (filter q l) ≡ filter r l
  filter_both p q r h [] = refl
  filter_both p q r h (a ∷ l) =
      let rest = filter_both p q r h l in
      elim (Bool-cases (p a)) [
        | inl hp ↦ elim (Bool-cases (q a)) [
          | inl hq ↦ let hr : r a ≡ true = ground (arith, h a, hp, hq) in rw (hq, hr, hp, rest)
          | inr hq ↦ let hr : r a ≡ false = ground (arith, h a, hp, hq) in rw (hq, hr) rest
        ]
        | inr hp ↦ elim (Bool-cases (q a)) [
          | inl hq ↦ let hr : r a ≡ false = ground (arith, h a, hp, hq) in rw (hq, hr, hp) rest
          | inr hq ↦ let hr : r a ≡ false = ground (arith, h a, hp, hq) in rw (hq, hr) rest
        ]
      ]

abbrev pub consumes : String → Field → Bool
consumes side f = check_applicability f.consumed_by side

-- No consumer is named, or all.
abbrev pub is_shared : Field → Bool
is_shared f = elim f.consumed_by [ none ↦ true | some s ↦ str_eq s "All" ]

consumer_is_shared :
    (c : Option String)
    → (check_applicability c "Peer" && check_applicability c "Application")
      ≡ (elim c as (λ (o : Option String). Bool) [ none ↦ true | some s ↦ str_eq s "All" ])
unfolding check_applicability
consumer_is_shared none = refl
consumer_is_shared (some s) = elim (Bool-cases (str_eq s "All")) [
  | inl all ↦ rw all refl
  | inr other ↦ elim (Bool-cases (str_eq s "Peer")) [
    | inl peer ↦ let is : s ≡ "Peer" = (str_eq_iff s "Peer").0 peer in rw is refl
    | inr not_peer ↦ rw (other, not_peer) refl
  ]
]

peer_and_application : (f : Field) → (consumes "Peer" f && consumes "Application" f) ≡ is_shared f
peer_and_application f = consumer_is_shared f.consumed_by

-- For every struct of the interface file: the fields of the Python class that the peer consumes, and the
-- fields of the message in the .proto file that the application consumes, are both, in the order of the
-- file, the fields whose consumer is not named or is All.
pub struct-agree :
    {E : Type 0} (xml : ElementTree E) (e : E)
    → let shared = filter is_shared (map (field xml) (xml.findall e "Field")) in
      (filter (consumes "Peer") (py_struct xml e).fields ≡ shared)
      × (filter (consumes "Application") (proto_struct xml e).fields ≡ shared)
unfolding py_struct proto_struct
struct-agree xml e =
    let fields = map (field xml) (xml.findall e "Field") in
    (
      filter_both (consumes "Peer") (consumes "Application") is_shared peer_and_application fields,
      filter_both (consumes "Application") (consumes "Peer") is_shared
          (λ f. ground (arith, peer_and_application f)) fields,
    )
