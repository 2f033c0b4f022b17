-- ===== src/Cluster/Local.antt =====
-- `callClusterMethodLocal` of lib/clusterManager.js. The modules, and what their functions do with the
-- result handler that they are given, are parameters.
use zlux_server_framework.Base.{
  String, ◌==◌, Option, none, some, List, [], ◌∷◌, ◌++◌, if◌then◌else◌,
}

pub data CallError (Error : Type 0) : Type 0 where
  module_not_found method_not_implemented object_not_exported : CallError Error
  thrown : Error → CallError Error

-- What the result handler is given.
pub data Reply (Value Error : Type 0) : Type 0 where
  result : Value → Reply Value Error
  failure : CallError Error → Reply Value Error

-- What a function does: its calls of the handler, and then what it throws, if it does.
pub record Called (Value Error : Type 0) : Type 0 where
  pub replies : List Value
  pub throws : Option Error

abbrev pub Function : Type 0 → Type 0 → Type 0 → Type 0
Function Args Value Error = Args → Called Value Error

-- An export: its own call, and its methods.
pub record Exported (Args Value Error : Type 0) : Type 0 where
  pub body : Function Args Value Error
  pub methods : String → Option (Function Args Value Error)

abbrev pub Module : Type 0 → Type 0 → Type 0 → Type 0
Module Args Value Error = String → Option (Exported Args Value Error)

-- What `require` does: it returns a module or something falsy, or it throws.
pub data Loaded (Args Value Error : Type 0) : Type 0 where
  found : Module Args Value Error → Loaded Args Value Error
  falsy : Loaded Args Value Error
  load_failed : Error → Loaded Args Value Error

-- A name counts if it is there and not empty.
unfoldable pub given : Option String → Option String
given none = none
given (some s) = if s == "" then none else some s

module _ {Value Error : Type 0} where
  abbrev pub caught : Option Error → List (Reply Value Error)
  caught none = []
  caught (some e) = failure (thrown e) ∷ []

  unfoldable pub results : List Value → List (Reply Value Error)
  results [] = []
  results (v ∷ vs) = result v ∷ results vs

module _ {Args Value Error : Type 0} where
  -- `callFunction` and the `catch` around it.
  unfoldable pub call_function : Function Args Value Error → Args → List (Reply Value Error)
  unfolding results
  call_function f args = results (f args).replies ++ caught (f args).throws

  unfoldable pub call_method : Option (Function Args Value Error) → Args → List (Reply Value Error)
  unfolding call_function
  call_method none args = failure method_not_implemented ∷ []
  call_method (some f) args = call_function f args

  unfoldable pub call_exported :
      Option (Exported Args Value Error) → Option String → Args → List (Reply Value Error)
  unfolding call_method call_function
  call_exported none method args = failure object_not_exported ∷ []
  call_exported (some exported) none args = call_function exported.body args
  call_exported (some exported) (some name) args = call_method (exported.methods name) args

  -- The handler is called for what `require` throws, and again since there is no module.
  unfoldable pub call_loaded :
      Loaded Args Value Error → String → Option String → Args → List (Reply Value Error)
  unfolding call_exported given
  call_loaded (found mod_of) exported_name method args =
      call_exported (mod_of exported_name) (given method) args
  call_loaded falsy exported_name method args = failure module_not_found ∷ []
  call_loaded (load_failed e) exported_name method args =
      failure (thrown e) ∷ failure module_not_found ∷ []

  abbrev pub load :
      (String → Loaded Args Value Error)
      → Module Args Value Error
      → Option String
      → Loaded Args Value Error
  load require own none = found own
  load require own (some name) = require name

  -- The calls of the result handler.
  unfoldable pub call_cluster_method_local :
      (String → Loaded Args Value Error)
      → Module Args Value Error
      → Option String
      → String
      → Option String
      → Args
      → List (Reply Value Error)
  unfolding call_loaded given
  call_cluster_method_local require own module_name exported_name method args =
      call_loaded (load require own (given module_name)) exported_name method args
