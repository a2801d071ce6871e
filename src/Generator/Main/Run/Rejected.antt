-- ===== src/Generator/Main/Run/Rejected.antt =====
-- What a refused interface file leaves of the generated files.
use sat_os_payload_sdk.Prelude.{
  String, ◌≡◌, refl, List, [], ◌∷◌, All, Bool, true, false, Option, none, some, arith, str_eq,
  str_eq_iff,
}
use sat_os_payload_sdk.Exec.{Error, Result, ok, raised, attribute_error}
use sat_os_payload_sdk.Generator.Interface.{ElementTree}
use sat_os_payload_sdk.Generator.Main.{Job, cpp_job, proto_job, python_job}
use sat_os_payload_sdk.Generator.Proto.Files as ProtoFiles
use sat_os_payload_sdk.Generator.Proto.Files.{chain}
use sat_os_payload_sdk.Generator.Cpp.Files as CppFiles
use sat_os_payload_sdk.Generator.Main.Run.{
  Disk, write_file, empty_files, outputs, Part, meta_data, imports, types, callbacks, functions,
  part_name, node, interface_gens, run,
}

abbrev pub Raises : {A : Type 0} → Result A → Type 0
Raises {A = A} r = (e : Error) × (r ≡ raised e)

chain-Raises :
    {A B : Type 0} (r : Result A) (f : A → Result B) → ((a : A) → Raises (f a)) → Raises (chain r f)
chain-Raises (raised e) f h = (e, refl)
chain-Raises (ok a) f h = h a

raised-Raises : {A B : Type 0} (r : Result A) (f : A → Result B) → Raises r → Raises (chain r f)
raised-Raises r f (e, h) = (e, rw h)

empty_files_keep :
    (paths : List String) (disk : Disk) (p : String)
    → disk p ≡ some ""
    → empty_files paths disk p ≡ some ""
empty_files_keep [] disk p h = h
empty_files_keep (q ∷ paths) disk p h =
    empty_files_keep paths (write_file q "" disk) p (ground (arith, h))

empty_files_empty :
    (paths : List String) (disk : Disk) → All (λ p. empty_files paths disk p ≡ some "") paths
empty_files_empty [] disk = tt
empty_files_empty (p ∷ paths) disk =
    let same : str_eq p p ≡ true = (str_eq_iff p p).1 refl in
    (
      empty_files_keep paths (write_file p "" disk) p (rw same refl),
      empty_files_empty paths (write_file p "" disk),
    )

-- Whether a generator of the job looks at the node.
abbrev pub needs : Job → Part → Bool
needs (python_job header namespace) callbacks = false
needs (python_job header namespace) functions = false
needs _ _ = true

module _ {E : Type 0} (xml : ElementTree E) (int : String → Option String) where
  node-Raises :
      (part : Part) (root : E)
      → xml.find root (part_name part) ≡ none
      → Raises (node xml int part root)
  node-Raises part root h = (attribute_error, rw (node, h))

  -- The XML library refuses the interface file, or a node that the job needs is missing.
  abbrev pub Refused : Job → Result E → Type 0
  Refused job (raised e) = Unit
  Refused job (ok root) =
      (part : Part) × (xml.find root (part_name part) ≡ none) × (needs job part ≡ true)

  interface_gens-Raises :
      (job : Job) (root : E) (part : Part)
      → xml.find root (part_name part) ≡ none
      → needs job part ≡ true
      → Raises (interface_gens xml int job root)
  unfolding interface_gens
  interface_gens-Raises job root meta_data h need =
      raised-Raises (node xml int meta_data root) _ (node-Raises meta_data root h)
  interface_gens-Raises job root imports h need =
      chain-Raises (node xml int meta_data root) _
        λ m. raised-Raises (node xml int imports root) _ (node-Raises imports root h)
  interface_gens-Raises job root types h need = chain-Raises (node xml int meta_data root) _ λ m.
      chain-Raises (node xml int imports root) _
        λ i. raised-Raises (node xml int types root) _ (node-Raises types root h)
  interface_gens-Raises (cpp_job header source namespace) root callbacks h need =
      chain-Raises (node xml int meta_data root) _ λ m.
        chain-Raises (node xml int imports root) _ λ i.
          chain-Raises (node xml int types root) _
            λ t. raised-Raises (node xml int callbacks root) _ (node-Raises callbacks root h)
  interface_gens-Raises (proto_job header) root callbacks h need =
      chain-Raises (node xml int meta_data root) _ λ m.
        chain-Raises (node xml int imports root) _ λ i.
          chain-Raises (node xml int types root) _
            λ t. raised-Raises (node xml int callbacks root) _ (node-Raises callbacks root h)
  interface_gens-Raises (cpp_job header source namespace) root functions h need =
      chain-Raises (node xml int meta_data root) _ λ m.
        chain-Raises (node xml int imports root) _ λ i.
          chain-Raises (node xml int types root) _ λ t.
            chain-Raises (node xml int callbacks root) _ λ c.
              chain-Raises (CppFiles.functions xml (xml.findall c "FunctionPtr")) _ λ fptrs.
                raised-Raises (node xml int functions root) _ (node-Raises functions root h)
  interface_gens-Raises (proto_job header) root functions h need =
      chain-Raises (node xml int meta_data root) _ λ m.
        chain-Raises (node xml int imports root) _ λ i.
          chain-Raises (node xml int types root) _ λ t.
            chain-Raises (node xml int callbacks root) _ λ c.
              chain-Raises
                (ProtoFiles.collect xml ProtoFiles.callback_name (xml.findall c "FunctionPtr")) _
                λ fptrs.
                  raised-Raises (node xml int functions root) _ (node-Raises functions root h)
  interface_gens-Raises (python_job header namespace) root callbacks h need = absurd (ground arith)
  interface_gens-Raises (python_job header namespace) root functions h need = absurd (ground arith)

  Refused-Raises :
      (job : Job) (parsed : Result E)
      → Refused job parsed
      → Raises (chain parsed (interface_gens xml int job))
  Refused-Raises job (raised e) h = (e, refl)
  Refused-Raises job (ok root) (part, h, need) = interface_gens-Raises job root part h need

  run-raised :
      (job : Job) (parsed : Result E) (disk : Disk) {e : Error}
      → chain parsed (interface_gens xml int job) ≡ raised e
      → run xml int job parsed disk ≡ (raised e, empty_files (outputs job) disk)
  unfolding run
  run-raised job parsed disk h = rw (run, h)

  -- If the XML library refuses the interface file, or a node below the root is missing that the
  -- language needs (MetaData, Imports and Types for all, Callbacks and Functions for C++ and for the
  -- .proto file), then the run raises, and each of its files is left empty, whatever it held before.
  pub run-Raises :
      (job : Job) (parsed : Result E) (disk : Disk)
      → Refused job parsed
      → let (r, disk') = run xml int job parsed disk in
        Raises r × All (λ p. disk' p ≡ some "") (outputs job)
  run-Raises job parsed disk h =
      let (e, is) = Refused-Raises job parsed h in
      rw (run-raised job parsed disk is) ((e, refl), empty_files_empty (outputs job) disk)
