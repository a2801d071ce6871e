-- ===== src/Generator/Interface/Phases/Order.antt =====
-- The order in which the generators' texts come into a file.
use Prim.Native.String.{◌++◌}
use text.Mathlib.TextLemmas.{append_assoc, append-nil}
use sat_os_payload_sdk.Prelude.{String, ◌∙◌, ◌≡◌, List, [], ◌∷◌, map, Option, none, some}
use sat_os_payload_sdk.Exec.{◌>>=◌}
use sat_os_payload_sdk.Generator.Text.{Writer, Writes, then-Writes, concat}
use sat_os_payload_sdk.Generator.Interface.Phases.{Hooks, pass, XmlToCode, run_hook, go}

-- The texts of one generator; a generator that is not set has none.
pub record Texts : Type 0 where
  pub start : String
  pub body : String
  pub end_ : String

abbrev pub no_texts : Texts
no_texts = record { start = ""; body = ""; end_ = "" }

abbrev pub Gives : Option Hooks → Texts → Type 0
Gives none x = x ≡ no_texts
Gives (some h) x =
    Writes h.file_start x.start × Writes h.file_body x.body × Writes h.file_end x.end_

pub pass-Writes : Writes pass ""
pass-Writes = record { runs = λ t. rw append-nil }

hook_start-Writes :
    (g : Option Hooks) (x : Texts) → Gives g x → Writes (run_hook (λ h. h.file_start) g) x.start
hook_start-Writes none x h = rw h pass-Writes
hook_start-Writes (some g) x h = h.0

hook_body-Writes :
    (g : Option Hooks) (x : Texts) → Gives g x → Writes (run_hook (λ h. h.file_body) g) x.body
hook_body-Writes none x h = rw h pass-Writes
hook_body-Writes (some g) x h = h.1

hook_end-Writes :
    (g : Option Hooks) (x : Texts) → Gives g x → Writes (run_hook (λ h. h.file_end) g) x.end_
hook_end-Writes none x h = rw h pass-Writes
hook_end-Writes (some g) x h = h.2

ended : {m : Writer} {s : String} → Writes m s → Writes m (s ++ "")
ended h = record { runs = λ t. rw append-nil (h.runs t) }

-- Five runs and what comes after them.
five-Writes :
    {a b c d e k : Writer} {p q r s t u : String}
    → Writes a p
    → Writes b q
    → Writes c r
    → Writes d s
    → Writes e t
    → Writes k u
    → Writes
        (a >>= λ _. b >>= λ _. c >>= λ _. d >>= λ _. e >>= λ _. k)
        (concat (p ∷ q ∷ r ∷ s ∷ t ∷ []) ++ u)
five-Writes {p = p} {q} {r} {s} {t} {u} a b c d e k =
    let all = then-Writes a (then-Writes b (then-Writes c (then-Writes d (then-Writes e k)))) in
    record { runs = λ x. all.runs x ∙ simp (append_assoc, append-nil) }

-- The generators of a file in the order in which `go` visits them.
abbrev pub phase_texts : (Texts → String) → List Texts → String
phase_texts of texts = concat (map of texts)

-- Where each generator gives its texts, the file is written phase by phase: first what all of them have
-- for the start of the file, then all bodies, then all ends; within a phase the order is metadata, imports,
-- callbacks, types, functions, and a generator that is not set adds nothing.
pub go-Writes :
    (g : XmlToCode) (meta imports callbacks types functions : Texts)
    → Gives g.meta_gen meta
    → Gives g.imports_gen imports
    → Gives g.callbacks_gen callbacks
    → Gives g.types_gen types
    → Gives g.functions_gen functions
    → let texts = meta ∷ imports ∷ callbacks ∷ types ∷ functions ∷ [] in
      Writes (go g) (
        phase_texts (λ x. x.start) texts
        ++ phase_texts (λ x. x.body) texts
        ++ phase_texts (λ x. x.end_) texts)
unfolding go
go-Writes g m i c t f hm hi hc ht hf =
    let p = g.meta_gen in
    let q = g.imports_gen in
    let r = g.callbacks_gen in
    let s = g.types_gen in
    let u = g.functions_gen in
    five-Writes (hook_start-Writes p m hm) (hook_start-Writes q i hi) (hook_start-Writes r c hc)
      (hook_start-Writes s t ht) (hook_start-Writes u f hf)
      (five-Writes (hook_body-Writes p m hm) (hook_body-Writes q i hi) (hook_body-Writes r c hc)
        (hook_body-Writes s t ht) (hook_body-Writes u f hf)
        (then-Writes (hook_end-Writes p m hm) (
          then-Writes (hook_end-Writes q i hi) (
            then-Writes (hook_end-Writes r c hc)
              (then-Writes (hook_end-Writes s t ht) (ended (hook_end-Writes u f hf)))))))
