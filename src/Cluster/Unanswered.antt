-- ===== src/Cluster/Unanswered.antt =====
-- When `callClusterMethodLocal` of lib/clusterManager.js leaves a call without an answer.
use zlux_server_framework.Base.{
  String, Option, none, some, List, [], ◌∷◌, ◌++◌, ◌≡◌, ◌↔◌, refl, inl, inr, Option-cases,
}
use zlux_server_framework.Cluster.Local.{
  Reply, Function, Exported, Module, Loaded, found, falsy, load_failed, given, caught, results,
  call_function, call_method, call_exported, call_loaded, load, call_cluster_method_local,
}

silent :
    {Value Error : Type 0} (vs : List Value) (o : Option Error)
    → ◌≡◌ {A = List (Reply Value Error)} (results vs ++ caught o) [] ↔ (vs ≡ []) × (o ≡ none)
unfolding results
silent [] none = (λ e. (refl, refl), λ h. refl)
silent [] (some err) = (λ e. cc, λ (h, t). cc)
silent (v ∷ vs) o = (λ e. cc, λ (h, t). cc)

module _ {Args Value Error : Type 0} where
  -- The function that a name of an export, and of a method if there is one, stand for in a module.
  pub data Names
      : Loaded Args Value Error → String → Option String → Function Args Value Error → Type 0 where
    export_itself :
        (mod_of : Module Args Value Error) (name : String) (exported : Exported Args Value Error)
        → mod_of name ≡ some exported
        → Names (found mod_of) name none exported.body
    method_of :
        (mod_of : Module Args Value Error) (name method : String)
        (exported : Exported Args Value Error) (f : Function Args Value Error)
        → mod_of name ≡ some exported
        → exported.methods method ≡ some f
        → Names (found mod_of) name (some method) f

  -- A function that neither calls the handler nor throws.
  abbrev pub IsSilent : Args → Function Args Value Error → Type 0
  IsSilent args f = ((f args).replies ≡ []) × ((f args).throws ≡ none)

  call_function-IsSilent :
      (f : Function Args Value Error) (args : Args) → call_function f args ≡ [] ↔ IsSilent args f
  unfolding call_function
  call_function-IsSilent f args = silent (f args).replies (f args).throws

  -- The names stand for such a function.
  abbrev pub Unanswered : Loaded Args Value Error → String → Option String → Args → Type 0
  Unanswered l name method args =
      (f : Function Args Value Error) × (Names l name method f × IsSilent args f)

  found-Unanswered :
      (mod_of : Module Args Value Error) (name : String) (method : Option String) (args : Args)
      → call_exported (mod_of name) method args ≡ []
      → Unanswered (found mod_of) name method args
  unfolding call_exported call_method
  found-Unanswered mod_of name none args e = elim (Option-cases (mod_of name)) [
    | inl missing ↦ absurd (answered (rw missing at e))
    | inr (exported, there) ↦ (
      exported.body,
      (
        Names.export_itself mod_of name exported there,
        (call_function-IsSilent exported.body args).0 (rw there at e),
      ),
    )
  ]
    where
      answered : {r : Reply Value Error} {l : List (Reply Value Error)} → r ∷ l ≡ [] → ⊥
      answered h = cc
  found-Unanswered mod_of name (some method) args e = elim (Option-cases (mod_of name)) [
    | inl missing ↦ absurd (answered (rw missing at e))
    | inr (exported, there) ↦ (elim (Option-cases (exported.methods method)) [
      | inl missing ↦ absurd (answered (rw missing at (rw there at e)))
      | inr (f, has) ↦ (
        f,
        (
          Names.method_of mod_of name method exported f there has,
          (call_function-IsSilent f args).0 (rw has at (rw there at e)),
        ),
      )
    ])
  ]
    where
      answered : {r : Reply Value Error} {l : List (Reply Value Error)} → r ∷ l ≡ [] → ⊥
      answered h = cc

  Unanswered-found :
      (mod_of : Module Args Value Error) (name : String) (method : Option String)
      (f : Function Args Value Error) (args : Args)
      → Names (found mod_of) name method f
      → IsSilent args f
      → call_exported (mod_of name) method args ≡ []
  unfolding call_exported call_method
  Unanswered-found mod_of name method f args (Names.export_itself m n exported there) is =
      rw there ((call_function-IsSilent exported.body args).1 is)
  Unanswered-found mod_of name method f args (Names.method_of m n meth exported g there has) is =
      rw (there, has) ((call_function-IsSilent g args).1 is)

  loaded-Unanswered :
      (l : Loaded Args Value Error) (name : String) (method : Option String) (args : Args)
      → call_loaded l name method args ≡ [] ↔ Unanswered l name (given method) args
  unfolding call_loaded
  loaded-Unanswered (found mod_of) name method args = (
    λ e. found-Unanswered mod_of name (given method) args e,
    λ (f, (names, is)). Unanswered-found mod_of name (given method) f args names is,
  )
  loaded-Unanswered falsy name method args = (λ e. cc, λ (f, (names, is)). elim names [ ])
  loaded-Unanswered (load_failed err) name method args =
      (λ e. cc, λ (f, (names, is)). elim names [ ])

  -- A call is left without an answer exactly if its names, those that are empty left aside, stand for a
  -- function of the module, or of the own one if no module is named, that neither calls the handler nor
  -- throws: a module that cannot be loaded, an export or a method that is not there is always answered.
  pub call_cluster_method_local-Unanswered :
      (require : String → Loaded Args Value Error) (own : Module Args Value Error)
      (module_name : Option String) (exported_name : String) (method : Option String) (args : Args)
      → call_cluster_method_local require own module_name exported_name method args ≡ []
        ↔ Unanswered (load require own (given module_name)) exported_name (given method) args
  unfolding call_cluster_method_local
  call_cluster_method_local-Unanswered require own module_name exported_name method args =
      loaded-Unanswered (load require own (given module_name)) exported_name method args
