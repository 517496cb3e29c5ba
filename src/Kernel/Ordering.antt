-- ===== src/Kernel/Ordering.antt =====
-- The functions of vrjugglua/binding_detail/BindKernelToLua.inl keep the calls of the kernel in order.
use vr_jugglua.Prelude.{
  ◌≡◌, refl, sym, ap, ◌∙◌, inl, inr, Bool, true, false, ◌&&◌, ◌||◌, List, [], ◌∷◌, ◌++◌, Bool-cases,
  subst, arith, Bytes, Option, none, some, equal, if◌then◌else◌,
}
use vr_jugglua.Kernel.VrjKernel.{Argument, Function, function, vrj_kernel, call_in}
use vr_jugglua.Kernel.{
  Options, Call, init_kernel, start_kernel, stop_kernel, wait_for_kernel_stop, yield, sleep_two,
  KernelState, with_call, init_with, single_options, init_fallback, ready, init_as_single_machine,
  init_as_cluster_primary_node, init_as_cluster_secondary_node, do_start, start, stop, enter,
  set_application, load_config_file,
}
use mathlib.Core.Option

-- Whether the calls initialise the kernel, and whether they do before each start of it.
abbrev pub initialises : List Call → Bool
initialises [] = false
initialises (init_kernel vm ∷ calls) = true
initialises (_ ∷ calls) = initialises calls

abbrev pub ordered_after : Bool → List Call → Bool
ordered_after seen [] = true
ordered_after seen (init_kernel vm ∷ calls) = ordered_after true calls
ordered_after seen (start_kernel ∷ calls) = seen && ordered_after seen calls
ordered_after seen (_ ∷ calls) = ordered_after seen calls

-- With VR Juggler 3 the kernel has been initialised just where `_init` says so, and each of its starts
-- so far came after an initialisation.
abbrev pub InOrder : KernelState → Type 0
InOrder s = (initialises s.calls ≡ s.initialised) × (ordered_after false s.calls ≡ true)

initialises-append : (xs ys : List Call) → initialises (xs ++ ys) ≡ initialises xs || initialises ys
initialises-append [] ys = refl
initialises-append (init_kernel vm ∷ xs) ys = refl
initialises-append (start_kernel ∷ xs) ys = initialises-append xs ys
initialises-append (_ ∷ xs) ys = initialises-append xs ys

ordered_after-append :
    (seen : Bool) (xs ys : List Call)
    → ordered_after seen (xs ++ ys)
      ≡ ordered_after seen xs && ordered_after (seen || initialises xs) ys
ordered_after-append seen [] ys = ap (λ (b : Bool). ordered_after b ys) {x = seen} (ground arith)
ordered_after-append seen (init_kernel vm ∷ xs) ys =
    ordered_after-append true xs ys
    ∙ ap (λ (b : Bool). ordered_after true xs && ordered_after b ys) {x = true} (ground arith)
ordered_after-append seen (start_kernel ∷ xs) ys =
    ap (λ (b : Bool). seen && b) (ordered_after-append seen xs ys) ∙ ground arith
ordered_after-append seen (_ ∷ xs) ys = ordered_after-append seen xs ys

-- One more call, behind calls that are in order.
with_call-InOrder :
    (c : Call) (calls : List Call) (b : Bool)
    → (initialises calls ≡ b)
    → ordered_after false calls ≡ true
    → ordered_after b (c ∷ []) ≡ true
    → (initialises (calls ++ (c ∷ [])) ≡ b || initialises (c ∷ []))
      × (ordered_after false (calls ++ (c ∷ [])) ≡ true)
with_call-InOrder c calls b h ordered allowed = (
  initialises-append calls (c ∷ []) ∙ ap (λ (x : Bool). x || initialises (c ∷ [])) h,
  ordered_after-append false calls (c ∷ [])
      ∙ ap (λ (x : Bool). x && ordered_after (initialises calls) (c ∷ [])) ordered
      ∙ ap (λ (x : Bool). ordered_after x (c ∷ [])) h
      ∙ allowed,
)

pub init_with-InOrder : (vm : Options) (s : KernelState) → InOrder s → InOrder (init_with vm s)
unfolding init_with
init_with-InOrder vm s (h, ordered) =
    let (has, still) = with_call-InOrder (init_kernel vm) s.calls s.initialised h ordered refl in
    (has ∙ ground arith, still)

ready-on : (s : KernelState) → s.initialised ≡ true → ready true s ≡ s
ready-on s on = simp on refl

ready-InOrder :
    (s : KernelState) → InOrder s → InOrder (ready true s) × ((ready true s).initialised ≡ true)
unfolding init_fallback
ready-InOrder s h = elim (Bool-cases s.initialised) [
  | inl on ↦
      subst (λ (t : KernelState). InOrder t × (t.initialised ≡ true)) (sym (ready-on s on)) (h, on)
  | inr off ↦ simp off (init_with-InOrder single_options s h, refl)
]

pub do_start-InOrder :
    (waiting : Bool) (s : KernelState)
    → InOrder s
    → InOrder (do_start true waiting s) × ((do_start true waiting s).initialised ≡ true)
unfolding do_start
do_start-InOrder waiting s h =
    let ((has, ordered), on) = ready-InOrder s h in
    let r = ready true s in
    let (has', ordered') = with_call-InOrder start_kernel r.calls true (has ∙ on) ordered refl in
    ((has' ∙ sym on, ordered'), on)

-- A call that neither initialises nor starts the kernel.
other-InOrder :
    (c : Call) (s : KernelState)
    → initialises (c ∷ []) ≡ false
    → ((seen : Bool) → ordered_after seen (c ∷ []) ≡ true)
    → InOrder s
    → InOrder (with_call c s)
other-InOrder c s plain allowed (h, ordered) =
    let (has, ordered') =
      with_call-InOrder c s.calls s.initialised h ordered (allowed s.initialised) in
    (has ∙ ap (λ (b : Bool). s.initialised || b) plain ∙ ground arith, ordered')

pub stop-InOrder : (own_thread : Bool) (s : KernelState) → InOrder s → InOrder (stop own_thread s)
unfolding stop
stop-InOrder true s h = other-InOrder stop_kernel s refl (λ b. refl) h
stop-InOrder false s h =
    other-InOrder stop_kernel (with_call sleep_two (with_call yield s)) refl (λ b. refl)
      (other-InOrder sleep_two (with_call yield s) refl (λ b. refl)
        (other-InOrder yield s refl (λ b. refl) h))

-- A function of the module keeps the calls in order.
abbrev pub KeepsOrder : Function → Type 0
KeepsOrder f =
    (args : List Argument) (s t : KernelState) → f args s ≡ some t → InOrder s → InOrder t

function-KeepsOrder :
    {A : Type 0} (fits : List Argument → Option A) (f : A → KernelState → KernelState)
    → ((a : A) (s : KernelState) → InOrder s → InOrder (f a s))
    → KeepsOrder (function fits f)
function-KeepsOrder {A = A} fits f keeps args s t e h = go (fits args) e
  where
    go : (o : Option A) → Option.map (λ a. f a s) o ≡ some t → InOrder t
    go none e' = cc
    go (some a) e' =
        subst InOrder (ap (λ (r : Option KernelState). elim r [ none ↦ f a s | some q ↦ q ]) e')
          (keeps a s h)

abbrev pub AllKeep : List (Bytes × Function) → Type 0
AllKeep [] = Unit
AllKeep ((key, f) ∷ table) = KeepsOrder f × AllKeep table

pub call_in-KeepsOrder :
    (table : List (Bytes × Function)) (name : Bytes)
    → AllKeep table
    → KeepsOrder (call_in table name)
call_in-KeepsOrder [] name keeps args s t e h = cc
call_in-KeepsOrder ((key, f) ∷ table) name (first, rest) args s t e h =
    elim (Bool-cases (equal key name)) [
      | inl found ↦ first args s t (sym (chosen found) ∙ e) h
      | inr other ↦ call_in-KeepsOrder table name rest args s t (sym (chosen other) ∙ e) h
    ]
  where
    chosen :
        {b : Bool}
        → equal key name ≡ b
        → call_in ((key, f) ∷ table) name args s
          ≡ (if b then f args s else call_in table name args s)
    chosen h = ap (λ (b : Bool). if b then f args s else call_in table name args s) h

pub enter-InOrder : (s : KernelState) → InOrder s → InOrder (enter true s)
unfolding enter
enter-InOrder s h =
    other-InOrder wait_for_kernel_stop (do_start true true s) refl (λ b. refl)
      (do_start-InOrder true s h).0

pub vrj_kernel-KeepsOrder : (own_thread : Bool) → AllKeep (vrj_kernel true own_thread)
unfolding vrj_kernel init_as_single_machine init_as_cluster_primary_node
    init_as_cluster_secondary_node start
vrj_kernel-KeepsOrder own_thread = (
  function-KeepsOrder _ _ (λ _. enter-InOrder),
  (
    function-KeepsOrder _ _ (λ _ s h. (do_start-InOrder false s h).0),
    (
      function-KeepsOrder _ _ (λ _. stop-InOrder own_thread),
      (
        function-KeepsOrder _ _ (λ name s. other-InOrder (set_application name) s refl (λ b. refl)),
        (
          function-KeepsOrder _ _ (λ fn s. other-InOrder (load_config_file fn) s refl (λ b. refl)),
          (
            function-KeepsOrder _ _ (λ elem s h. h),
            (
              function-KeepsOrder _ _ (λ _ s h. h),
              (
                function-KeepsOrder _ _
                    (λ _ s. other-InOrder wait_for_kernel_stop s refl (λ b. refl)),
                (
                  function-KeepsOrder _ _ (λ _ s h. h),
                  (
                    function-KeepsOrder _ _ (λ _. init_with-InOrder _),
                    (
                      function-KeepsOrder _ _ (λ port. init_with-InOrder _),
                      (function-KeepsOrder _ _ (λ _. init_with-InOrder _), tt),
                    ),
                  ),
                ),
              ),
            ),
          ),
        ),
      ),
    ),
  ),
)
