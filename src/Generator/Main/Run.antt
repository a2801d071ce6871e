-- ===== src/Generator/Main/Run.antt =====
-- main.py: a run of a generator on its files. The XML library's answer is given: the root of the
-- interface file, or the exception with which the file was refused.
pub mod Rejected
use sat_os_payload_sdk.Prelude.{String, List, [], ◌∷◌, Option, none, some, str_eq, if◌then◌else◌}
use sat_os_payload_sdk.Exec.{Error, Result, ok, raised, attribute_error}
use sat_os_payload_sdk.Generator.Interface.{ElementTree}
use sat_os_payload_sdk.Generator.Interface.Phases.{XmlToCode, go}
use sat_os_payload_sdk.Generator.Interface.Paths.{basename, get_file_basename_without_extension}
use sat_os_payload_sdk.Generator.Main.{Job, cpp_job, proto_job, python_job}
use sat_os_payload_sdk.Generator.Py
use sat_os_payload_sdk.Generator.Proto.Files as ProtoFiles
use sat_os_payload_sdk.Generator.Proto.Files.{chain}
use sat_os_payload_sdk.Generator.Cpp.Files as CppFiles

-- The texts of the files by their paths.
abbrev pub Disk : Type 0
Disk = String → Option String

abbrev pub write_file : String → String → Disk → Disk
write_file path text disk = λ p. if str_eq p path then some text else disk p

-- `open(path, "w")` empties the file.
abbrev pub empty_files : List String → Disk → Disk
empty_files [] disk = disk
empty_files (p ∷ paths) disk = empty_files paths (write_file p "" disk)

-- What is written before an exception stays in the file, and the files after it stay empty.
abbrev pub write_files : List String → List XmlToCode → Disk → Result (Unit {0}) × Disk
write_files (p ∷ paths) (g ∷ gens) disk =
    let (r, text) = go g "" in
    let disk' = write_file p text disk in
    elim r [ raised e ↦ (raised e, disk') | ok u ↦ write_files paths gens disk' ]
write_files _ _ disk = (ok tt, disk)

-- The files of a job, in the order in which they are written.
abbrev pub outputs : Job → List String
outputs (cpp_job header source namespace) = header ∷ source ∷ []
outputs (proto_job header) = header ∷ []
outputs (python_job header namespace) = header ∷ []

-- The nodes below the root.
pub data Part : Type 0 where
  meta_data imports types callbacks functions : Part

abbrev pub part_name : Part → String
part_name meta_data = "MetaData"
part_name imports = "Imports"
part_name types = "Types"
part_name callbacks = "Callbacks"
part_name functions = "Functions"

module _ {E : Type 0} (xml : ElementTree E) (int : String → Option String) where
  -- `self.get_..._node()`; the generator that is made for a missing node raises, but for those of
  -- Python's callbacks and functions, which do not look at their node.
  abbrev node : Part → E → Result E
  node part root = elim (xml.find root (part_name part)) [
    | none ↦ raised attribute_error
    | some e ↦ ok e
  ]

  -- `InterfaceGen`: the generators for each file of the job.
  unfoldable pub interface_gens : Job → E → Result (List XmlToCode)
  unfolding CppFiles.interface_gen CppFiles.functions ProtoFiles.interface_gen ProtoFiles.collect
      ProtoFiles.callback_name Py.interface_gen
  interface_gens job root = chain (node meta_data root) λ m. chain (node imports root) λ i.
      chain (node types root) λ t. elim job [
        | cpp_job header source namespace ↦ chain (node callbacks root) λ c.
            chain (CppFiles.functions xml (xml.findall c "FunctionPtr")) λ fptrs.
              chain (node functions root) λ f.
                chain (CppFiles.interface_gen xml int (basename header) namespace m i t c f)
                  λ g. ok (g.0 ∷ g.1 ∷ [])
        | proto_job header ↦ chain (node callbacks root) λ c.
            chain (ProtoFiles.collect xml ProtoFiles.callback_name (xml.findall c "FunctionPtr"))
              λ fptrs. chain (node functions root) λ f.
                let base = get_file_basename_without_extension header in
                chain (ProtoFiles.interface_gen xml base m i t c f) λ g. ok (g ∷ [])
        | python_job header namespace ↦ ok (Py.interface_gen xml namespace m i t ∷ [])
      ]

  -- `generate_cpp`, `generate_proto` or `generate_python`: the files are opened before the interface
  -- file is read.
  unfoldable pub run : Job → Result E → Disk → Result (Unit {0}) × Disk
  unfolding interface_gens go
  run job parsed disk =
      let opened = empty_files (outputs job) disk in
      elim (chain parsed (interface_gens job)) [
        | raised e ↦ (raised e, opened)
        | ok gens ↦ write_files (outputs job) gens opened
      ]
