-- ===== src/Generator/Interface/Phases.antt =====
-- `XMLToCode.go`: which hooks of which generators write to which file, in which order.
pub mod Order
use text.Mathlib.TextLemmas.{append_assoc, append-nil}
use Prim.Native.String.{◌++◌}
use sat_os_payload_sdk.Prelude.{String, ◌≡◌, refl, List, [], ◌∷◌, map, Option, none, some}
use sat_os_payload_sdk.Exec.{Result, ok, raised, Exec, ◌>>=◌, ◌>>◌, pure}
use sat_os_payload_sdk.Generator.Text.{Writer, Writes, then-Writes, concat}

-- The hooks of a generator for one file; the base class passes on each of them.
pub record Hooks : Type 0 where
  pub file_start : Writer
  pub file_body : Writer
  pub file_end : Writer

abbrev pub pass : Writer
pass t = (ok tt, t)

abbrev pub no_hooks : Hooks
no_hooks = record { file_start = pass; file_body = pass; file_end = pass }

-- The five generators, as far as they are set.
pub record XmlToCode : Type 0 where
  pub meta_gen : Option Hooks
  pub imports_gen : Option Hooks
  pub callbacks_gen : Option Hooks
  pub types_gen : Option Hooks
  pub functions_gen : Option Hooks

abbrev run_hook : (Hooks → Writer) → Option Hooks → Writer
run_hook hook none = pass
run_hook hook (some g) = hook g

-- `go` for one file. It treats the declaration file and the source file alike, with the hooks for each.
unfoldable pub go : XmlToCode → Writer
go g = do
  run_hook (λ h. h.file_start) g.meta_gen
  run_hook (λ h. h.file_start) g.imports_gen
  run_hook (λ h. h.file_start) g.callbacks_gen
  run_hook (λ h. h.file_start) g.types_gen
  run_hook (λ h. h.file_start) g.functions_gen
  run_hook (λ h. h.file_body) g.meta_gen
  run_hook (λ h. h.file_body) g.imports_gen
  run_hook (λ h. h.file_body) g.callbacks_gen
  run_hook (λ h. h.file_body) g.types_gen
  run_hook (λ h. h.file_body) g.functions_gen
  run_hook (λ h. h.file_end) g.meta_gen
  run_hook (λ h. h.file_end) g.imports_gen
  run_hook (λ h. h.file_end) g.callbacks_gen
  run_hook (λ h. h.file_end) g.types_gen
  run_hook (λ h. h.file_end) g.functions_gen
