-- ===== src/Generator/Proto/Services.antt =====
-- The remote calls of the services.
use Prim.Native.String.{◌++◌}
use text.Mathlib.TextLemmas.{append_assoc, append-nil}
use sat_os_payload_sdk.Prelude.{
  ℕ, suc, ◌+◌, ◌==◌, ◌∙◌, String, true, false, ◌≡◌, refl, List, [], ◌∷◌, map, length, Option, none,
  some, arith,
}
use sat_os_payload_sdk.Exec.{Result, ok, raised}
use sat_os_payload_sdk.Generator.Text.{write, show, for_each, Writes, join, first_word}
use sat_os_payload_sdk.Generator.Interface.{FuncParam, Function, get_return_type}
use sat_os_payload_sdk.Generator.Proto.{
  ProtoFuncParam, ProtoFunction, remap_type, place, proto_function, write_param, write_function,
  modified,
}

-- The wire type of a parameter, without its pointer.
abbrev pub wire_type : Option String → String
wire_type none = ""
wire_type (some t) = show (remap_type (some (first_word t)) "").0

abbrev pub wire_types : List FuncParam → List String
wire_types params = map (λ p. wire_type p.type) params

modified-wire_type :
    (o : Option String) {t : Option String} → modified o ≡ ok t → show t ≡ wire_type o
modified-wire_type none e = cc e
modified-wire_type (some s) e = cc e

abbrev placed_with : ℕ → ℕ → Option String → ProtoFuncParam
placed_with n index type = record {
  modified_type = type;
  is_first = index == 0;
  is_last = suc index == n;
}

place-cons :
    (p : FuncParam) (params : List FuncParam) (n index : ℕ) {placed : List ProtoFuncParam}
    → place n index (p ∷ params) ≡ ok placed
    → (t : Option String) × (rest : List ProtoFuncParam) × (modified p.type ≡ ok t)
      × (place n (suc index) params ≡ ok rest)
      × (placed ≡ placed_with n index t ∷ rest)
unfolding place
place-cons p params n index {placed} h =
    elim (modified p.type)
        as (λ m.
          elim m [
            | raised e ↦ raised e
            | ok type ↦ elim (place n (suc index) params) [
              | raised e ↦ raised e
              | ok more ↦ ok (placed_with n index type ∷ more)
            ]
          ]
            ≡ ok placed
          → (t : Option String) × (rest : List ProtoFuncParam) × (m ≡ ok t)
            × (place n (suc index) params ≡ ok rest)
            × (placed ≡ placed_with n index t ∷ rest)) [
              | raised e ↦ λ k. cc k
              | ok t ↦
                  elim (place n (suc index) params)
                    as (λ r.
                      elim r [ raised e ↦ raised e | ok more ↦ ok (placed_with n index t ∷ more) ]
                        ≡ ok placed
                      → (u : Option String) × (rest : List ProtoFuncParam) × (Result.ok t ≡ ok u)
                        × (r ≡ ok rest)
                        × (placed ≡ placed_with n index u ∷ rest)) [
                          | raised e ↦ λ k. cc k
                          | ok rest ↦ λ k. (t, rest, refl, refl, cc k)
                        ]
            ]
      h

place-Writes :
    (p : FuncParam) (params : List FuncParam) (n index : ℕ) {placed : List ProtoFuncParam}
    → n ≡ index + length (p ∷ params)
    → place n index (p ∷ params) ≡ ok placed
    → Writes (for_each write_param placed) (join ", " (wire_types (p ∷ params)))
unfolding for_each write_param write place
place-Writes p [] n index {placed} e h =
    let (t, rest, m, more, is) = place-cons p [] n index h in
    let last : suc index == n ≡ true = ground (arith, e) in
    let none_left : rest ≡ [] = cc more in
    record { runs = λ s. rw (is, none_left, last, modified-wire_type p.type m) }
place-Writes p (q ∷ params) n index {placed} e h =
    let (t, rest, m, more, is) = place-cons p (q ∷ params) n index h in
    let first : suc index == n ≡ false = ground (arith, e) in
    let tail = place-Writes q params n (suc index) (omega (arith, e)) more in
    record {
      runs = λ s.
          rw (is, first, modified-wire_type p.type m)
            (tail.runs (s ++ wire_type p.type ++ ", ") ∙ simp append_assoc);
    }

placed-Writes :
    (params : List FuncParam) {placed : List ProtoFuncParam}
    → place (length params) 0 params ≡ ok placed
    → Writes (for_each write_param placed) (join ", " (wire_types params))
unfolding place for_each
placed-Writes [] {placed} h =
    let empty : placed ≡ [] = cc h in record { runs = λ t. rw (empty, append-nil) }
placed-Writes (p ∷ params) h = place-Writes p params (length (p ∷ params)) 0 (omega arith) h

proto_function-eq :
    (f : Function) {pf : ProtoFunction}
    → proto_function f ≡ ok pf
    → (pf.function ≡ f)
      × (pf.mutated_name ≡ f.name)
      × (place (length f.parameters) 0 f.parameters ≡ ok pf.parameters)
unfolding proto_function
proto_function-eq f {pf} h =
    elim (place (length f.parameters) 0 f.parameters)
        as (λ r.
          elim r [
            | raised e ↦ raised e
            | ok placed ↦ ok (record { function = f; mutated_name = f.name; parameters = placed })
          ]
            ≡ ok pf
          → (pf.function ≡ f) × (pf.mutated_name ≡ f.name) × (r ≡ ok pf.parameters)) [
            | raised e ↦ λ k. cc k
            | ok placed ↦ λ k. (cc k, cc k, cc k)
          ]
      h

abbrev pub rpc_text : String → List String → String → String
rpc_text name types ret =
    "    rpc " ++ name ++ "(" ++ join ", " types ++ ") returns (" ++ ret ++ ") {}\n"

-- The remote call that is written for a function under the name it was given: the types of its
-- parameters in their order without their pointers, with a comma between two of them, and the return
-- type of the peer's side.
pub write_function-Writes :
    (f : Function) (name ret : String) {pf : ProtoFunction}
    → proto_function f ≡ ok pf
    → get_return_type f.return_spec "Peer" ≡ ok (some ret)
    → Writes
        (write_function (record pf { mutated_name = some name }))
        (rpc_text name (wire_types f.parameters) ret)
unfolding write_function write get_return_type
write_function-Writes f name ret {pf} made is =
    let (same, same_name, placed) = proto_function-eq f made in
    let params = placed-Writes f.parameters placed in
    let peer : f.return_spec.ret_peer ≡ some ret = cc is in
    record {
      runs = λ t. rw (same, params.runs (t ++ "    rpc " ++ name ++ "("), peer) (simp append_assoc);
    }
