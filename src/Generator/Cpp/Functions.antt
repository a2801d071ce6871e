-- ===== src/Generator/Cpp/Functions.antt =====
-- cpp_generator.py: the callback types and the functions of the header.
use Prim.Native.String.{◌++◌}
use sat_os_payload_sdk.Prelude.{
  ℕ, suc, ◌==◌, String, Bool, true, false, List, [], ◌∷◌, length, Option, some, if◌then◌else◌,
}
use sat_os_payload_sdk.Exec.{Result, ok, raised, Exec, ◌>>=◌, ◌>>◌}
use sat_os_payload_sdk.Generator.Text.{Writer, write, show, padded, for_each}
use sat_os_payload_sdk.Generator.Interface.{FuncParam, Function, get_return_type}

pub record CppFuncParam : Type 0 where
  pub param : FuncParam
  pub is_first : Bool
  pub is_last : Bool

-- The second loop of the constructors, over the list of `n` parameters that is kept, from an index on.
unfoldable pub place : ℕ → ℕ → List FuncParam → List CppFuncParam
place n index [] = []
place n index (p ∷ params) =
    record { param = p; is_first = index == 0; is_last = suc index == n }
    ∷ place n (suc index) params

unfoldable pub write_param : Bool → CppFuncParam → Writer
write_param true p = do
  let name = show p.param.variable_name
  type ← padded 32 p.param.type
  var_string ← padded 32 (some (if p.is_last then name else name ++ ","))
  write ("    " ++ type ++ var_string ++ " ///< @param " ++ show p.param.description ++ "\n")
write_param false p = do
  type ← padded 32 p.param.type
  write ("    " ++ type ++ " ///< @param " ++ show p.param.description ++ "\n")

-- The text of `get_return_type(...)`, which may end the program.
abbrev return_text : Result (Option String) → Exec String String
return_text (raised e) t = (raised e, t)
return_text (ok o) t = (ok (show o), t)

-- `CPPFunctionPtr.declaration_file_body`
unfoldable pub write_function_ptr : Function → Writer
unfolding get_return_type place write_param
write_function_ptr f = do
  let name = show f.name
  write (
      "/// @brief Callback function type "
      ++ name
      ++ "\n/// @typedef "
      ++ show f.description
      ++ "\n\n")
  ret ← return_text (get_return_type f.return_spec "App")
  write ("typedef " ++ ret ++ "\n(*" ++ name ++ ")\n(\n")
  for_each (write_param false) (place (length f.parameters) 0 f.parameters)
  write ");\n"
  write "static inline void\n"
  write ("display" ++ name ++ "(void *obj) { printf(\"%p\\n\", obj); }\n")

-- `CPPFunction.declaration_file_body`
unfoldable pub write_function : Function → Writer
unfolding get_return_type place write_param
write_function f = do
  let name = show f.name
  write ("/// @brief Function " ++ name ++ "\n/// @fn " ++ show f.description ++ "\n")
  ret ← return_text (get_return_type f.return_spec "App")
  write (ret ++ "\n" ++ name ++ "\n(\n")
  for_each (write_param true) (place (length f.parameters) 0 f.parameters)
  write ");\n\n"
