-- ===== src/Generator/Py/Conversions.antt =====
-- The constructor of a class and the two conversions that are printed for it.
use Prim.Native.String.{◌++◌}
use text.Mathlib.TextLemmas.{append_assoc, append-nil, append-eq-nil_iff}
use sat_os_payload_sdk.Prelude.{
  ap, String, false, ◌≡◌, ◌≢◌, refl, List, [], ◌∷◌, map, All, arith, str_eq, str_eq_iff,
}
use sat_os_payload_sdk.Generator.Text.{
  write, show, for_each, Writes, write-Writes, then-Writes, for_each-Writes, join, concat,
}
use sat_os_payload_sdk.Generator.Interface.{Field, Struct}
use sat_os_payload_sdk.Generator.Py.{
  constructor_params, write_peer_to_app, write_app_to_peer, write_init,
}

abbrev after_comma : String → String
after_comma s = ", " ++ s

join-cons : (s : String) (l : List String) → join ", " (s ∷ l) ≡ s ++ concat (map after_comma l)
join-cons s [] = rw append-nil
join-cons s (t ∷ l) = rw (join-cons t l, append_assoc)

constructor_params-append :
    (param : Field → String) (acc : String) (fields : List Field)
    → acc ≢ ""
    → constructor_params param acc fields ≡ acc ++ concat (map after_comma (map param fields))
unfolding constructor_params
constructor_params-append param acc [] ne = rw append-nil
constructor_params-append param acc (f ∷ fields) ne =
    let set : str_eq acc "" ≡ false = ground (arith, ne, str_eq_iff acc "") in
    rw (
      set,
      constructor_params-append param (acc ++ ", " ++ param f) fields
          (λ e. ne ((append-eq-nil_iff {p = acc}).0 e).0),
      append_assoc acc (", " ++ param f),
    )

constructor_params-join :
    (param : Field → String) (fields : List Field)
    → All (λ f. param f ≢ "") fields
    → constructor_params param "" fields ≡ join ", " (map param fields)
unfolding constructor_params
constructor_params-join param [] h = refl
constructor_params-join param (f ∷ fields) h =
    rw
      (constructor_params-append param (param f) fields h.0, join-cons (param f) (map param fields))

abbrev pub init_text : List String → String
init_text names =
    "    def __init__(self"
    ++ concat (map (λ n. ", " ++ n) names)
    ++ "):\n"
    ++ concat (map (λ n. "        self." ++ n ++ " = " ++ n ++ "\n") names)
    ++ "\n"

abbrev pub peer_to_app_text : String → List String → String
peer_to_app_text name names =
    ("def peer_to_app_" ++ name ++ "(peer_struct):\n")
    ++ concat (map (λ n. "    " ++ n ++ " = peer_struct." ++ n ++ "\n") names)
    ++ ("    return " ++ name ++ "(" ++ join ", " names ++ ")\n\n")

abbrev pub app_to_peer_text : String → String → List String → String
app_to_peer_text namespace name names =
    ("def app_to_peer_" ++ name ++ "(app_struct):\n")
    ++ ("    return "
        ++ namespace
        ++ "_pb2."
        ++ name
        ++ "("
        ++ join ", " (map (λ n. n ++ " = app_struct." ++ n) names)
        ++ ")\n\n")

abbrev pub names_of : List Field → List String
names_of fields = map (λ f. show f.name) fields

map_names :
    (g : String → String) (fields : List Field)
    → map (λ f. g (show f.name)) fields ≡ map g (names_of fields)
map_names g [] = refl
map_names g (f ∷ fields) = ap (λ l. g (show f.name) ∷ l) (map_names g fields)

each_name :
    (g : String → String) (fields : List Field)
    → Writes (for_each (λ f. write (g (show f.name))) fields) (concat (map g (names_of fields)))
each_name g fields = rw (← map_names g fields) (
    for_each-Writes (λ f. write (g (show f.name))) (λ f. g (show f.name)) (λ f. write-Writes)
      fields)

pub init-Writes : (s : Struct) → Writes (write_init s) (init_text (names_of s.fields))
unfolding write_init
init-Writes s = then-Writes write-Writes (
    then-Writes (each_name (λ n. ", " ++ n) s.fields) (
      then-Writes write-Writes (
        then-Writes (each_name (λ n. "        self." ++ n ++ " = " ++ n ++ "\n") s.fields)
          write-Writes)))

pub peer_to_app-Writes :
    (s : Struct)
    → All (λ f. show f.name ≢ "") s.fields
    → Writes (write_peer_to_app s) (peer_to_app_text (show s.name) (names_of s.fields))
unfolding write_peer_to_app
peer_to_app-Writes s h = rw (← constructor_params-join (λ f. show f.name) s.fields h) (
    then-Writes write-Writes (
      then-Writes (each_name (λ n. "    " ++ n ++ " = peer_struct." ++ n ++ "\n") s.fields)
        write-Writes))

assigned-ne :
    (fields : List Field) → All (λ f. show f.name ++ " = app_struct." ++ show f.name ≢ "") fields
assigned-ne [] = tt
assigned-ne (f ∷ fields) = (
  λ e.
      let after = ((append-eq-nil_iff {p = show f.name}).0 e).1 in
      let sign = ((append-eq-nil_iff {p = " = app_struct."}).0 after).0 in
      ground (arith, sign, str_eq_iff " = app_struct." ""),
  assigned-ne fields,
)

pub app_to_peer-Writes :
    (namespace : String) (s : Struct)
    → Writes
        (write_app_to_peer namespace s)
        (app_to_peer_text namespace (show s.name) (names_of s.fields))
unfolding write_app_to_peer
app_to_peer-Writes namespace s =
    rw
      (
        ← map_names (λ n. n ++ " = app_struct." ++ n) s.fields,
        ← constructor_params-join (λ f. show f.name ++ " = app_struct." ++ show f.name) s.fields
            (assigned-ne s.fields),
      )
      (then-Writes write-Writes write-Writes)

-- For a struct none of whose fields has an empty name: the constructor takes the names as its
-- parameters, `peer_to_app` reads the fields and passes them in the order of the parameters, and
-- `app_to_peer` sets each field by its name from the attribute of that name; all three by the same
-- list of names, the struct's own.
pub conversions-Writes :
    (namespace : String) (s : Struct)
    → All (λ f. show f.name ≢ "") s.fields
    → let names = names_of s.fields in
      Writes (write_init s) (init_text names)
      × Writes (write_peer_to_app s) (peer_to_app_text (show s.name) names)
      × Writes (write_app_to_peer namespace s) (app_to_peer_text namespace (show s.name) names)
conversions-Writes namespace s h =
    (init-Writes s, peer_to_app-Writes s h, app_to_peer-Writes namespace s)
