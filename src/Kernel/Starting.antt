-- ===== src/Kernel/Starting.antt =====
-- In which order the functions of vrjugglua/binding_detail/BindKernelToLua.inl call the kernel.
use vr_jugglua.Prelude.{ℕ, ◌≡◌, refl, Bool, true, false, List, Bytes, some}
use vr_jugglua.Kernel.VrjKernel.{Argument, vrj_kernel, call_in}
use vr_jugglua.Kernel.{
  Options, KernelState, new_kernel_state, init, init_as_single_machine,
  init_as_cluster_primary_node, init_as_cluster_secondary_node, start, stop, enter,
}
use vr_jugglua.Kernel.Ordering.{
  InOrder, init_with-InOrder, do_start-InOrder, stop-InOrder, enter-InOrder, call_in-KeepsOrder,
  vrj_kernel-KeepsOrder,
}

-- A call of a function of `KernelState` or of the module vrjKernel.
pub data Step (three : Bool) : KernelState → KernelState → Type 0 where
  initialise : (vm : Options) {s : KernelState} → Step three s (init three vm s)
  as_single_machine : {s : KernelState} → Step three s (init_as_single_machine three s)
  as_primary : {s : KernelState} → Step three s (init_as_cluster_primary_node three s)
  as_secondary :
      (port : ℕ) {s : KernelState} → Step three s (init_as_cluster_secondary_node three port s)
  start_it : {s : KernelState} → Step three s (start three s)
  stop_it : (own_thread : Bool) {s : KernelState} → Step three s (stop own_thread s)
  enter_it : {s : KernelState} → Step three s (enter three s)
  -- A Lua program calls a function of the module vrjKernel.
  call_it :
      (own_thread : Bool) (name : Bytes) (args : List Argument) {s t : KernelState}
      → call_in (vrj_kernel three own_thread) name args s ≡ some t
      → Step three s t

pub data Reachable (three : Bool) : KernelState → Type 0 where
  fresh : Reachable three new_kernel_state
  next : {s t : KernelState} → Reachable three s → Step three s t → Reachable three t

Step-InOrder : (s t : KernelState) → Step true s t → InOrder s → InOrder t
unfolding init init_as_single_machine init_as_cluster_primary_node init_as_cluster_secondary_node
    start enter
Step-InOrder s _ (initialise vm) h = init_with-InOrder vm s h
Step-InOrder s _ as_single_machine h = init_with-InOrder _ s h
Step-InOrder s _ as_primary h = init_with-InOrder _ s h
Step-InOrder s _ (as_secondary port) h = init_with-InOrder _ s h
Step-InOrder s _ start_it h = (do_start-InOrder false s h).0
Step-InOrder s _ (stop_it own_thread) h = stop-InOrder own_thread s h
Step-InOrder s _ enter_it h = enter-InOrder s h
Step-InOrder s t (call_it own_thread name args e) h =
    call_in-KeepsOrder (vrj_kernel true own_thread) name (vrj_kernel-KeepsOrder own_thread) args s t
      e h

-- In a build for VR Juggler 3, whatever functions of `KernelState` are called, in whatever order, and
-- whatever Lua calls in the module vrjKernel with any arguments: every start that these functions make of
-- the kernel comes after an initialisation that they make, and `_init` tells whether there was one. The
-- navigation programs start the kernel without them, and that is not among these starts.
pub Reachable-InOrder : (s : KernelState) → Reachable true s → InOrder s
Reachable-InOrder _ fresh = unfold new_kernel_state in (refl, refl)
Reachable-InOrder t (next {s = s} before step) = Step-InOrder s t step (Reachable-InOrder s before)
