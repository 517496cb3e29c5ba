-- ===== src/Kernel/VrjKernel.antt =====
-- The module vrjKernel that `bindKernelToLua` of vrjugglua/binding_detail/BindKernelToLua.inl gives to Lua.
use vr_jugglua.Prelude.{
  ℕ, Bool, List, [], ◌∷◌, Option, none, some, Bytes, codes, equal, if◌then◌else◌,
}
use mathlib.Core.Option
use vr_jugglua.Kernel.{
  set_application, load_config_file, wait_for_kernel_stop, KernelState, with_call,
  init_as_single_machine, init_as_cluster_primary_node, init_as_cluster_secondary_node, start, stop,
  enter,
}

-- What Lua passes: a text, a number, an object that is the named application, or another value.
pub data Argument : Type 0 where
  text : Bytes → Argument
  number : ℕ → Argument
  application : Bytes → Argument
  other_value : Argument

abbrev pub no_argument : List Argument → Option (Unit {0})
no_argument [] = some tt
no_argument args = none

abbrev pub one_text : List Argument → Option Bytes
one_text (text t ∷ []) = some t
one_text args = none

abbrev pub one_application : List Argument → Option Bytes
one_application (application name ∷ []) = some name
one_application args = none

-- The two overloads of `initAsClusterSecondaryNode`: with a port, and with the default one.
abbrev pub port_or_default : List Argument → Option ℕ
port_or_default [] = some 0
port_or_default (number port ∷ []) = some port
port_or_default args = none

-- A function as luabind calls it: none where the arguments do not fit it, or their cast fails.
abbrev pub Function : Type 0
Function = List Argument → KernelState → Option KernelState

abbrev pub function :
    {A : Type 0} → (List Argument → Option A) → (A → KernelState → KernelState) → Function
function fits f args s = Option.map (λ a. f a s) (fits args)

abbrev pub call_in : List (Bytes × Function) → Bytes → Function
call_in [] name args s = none
call_in ((key, f) ∷ table) name args s =
    if equal key name then f args s else call_in table name args s

-- The module vrjKernel. `three` says for which version it is built. Reconfiguration has the two functions that change the configuration; like
-- `isRunning` they leave this state as it is.
unfoldable pub vrj_kernel : Bool → Bool → List (Bytes × Function)
unfolding start enter init_as_cluster_primary_node init_as_cluster_secondary_node
    init_as_single_machine
vrj_kernel three own_thread =
    (codes "enter", function no_argument (λ _. enter three))
    ∷ (codes "start", function no_argument (λ _. start three))
    ∷ (codes "stop", function no_argument (λ _. stop own_thread))
    ∷ (codes "setApplication", function one_application (λ name. with_call (set_application name)))
    ∷ (codes "loadConfigFile", function one_text (λ fn. with_call (load_config_file fn)))
    ∷ (codes "deconfigureElementByName", function one_text (λ elem s. s))
    ∷ (codes "deconfigureAll", function no_argument (λ _ s. s))
    ∷ (codes "waitForKernelStop", function no_argument (λ _. with_call wait_for_kernel_stop))
    ∷ (codes "isRunning", function no_argument (λ _ s. s))
    ∷ (
      codes "initAsClusterPrimaryNode",
      function no_argument (λ _. init_as_cluster_primary_node three),
    )
    ∷ (
      codes "initAsClusterSecondaryNode",
      function port_or_default (init_as_cluster_secondary_node three),
    )
    ∷ (codes "initAsSingleMachine", function no_argument (λ _. init_as_single_machine three))
    ∷ []
