-- ===== src/Workflow/Coroutine.antt =====
-- The exceptions and the state of the workflow's coroutines, and `_required_input`.
use pr_reliability_platform.Prelude.{Option, none, some}
use pr_reliability_platform.Workflow.Types.{ReviewWorkflowInput}
use pr_reliability_platform.Workflow.Machine.{Workflow}

-- How a coroutine ends: by `return`, by an exception, or by Temporal's `continue_as_new`.
pub data Exit (A : Type 0) : Type 0 where
  done : A → Exit A
  activity_error : Exit A
  runtime_error : Exit A
  continue_as_new : ReviewWorkflowInput → Exit A

abbrev pub Coroutine : Type 0 → Type 0
Coroutine A = Workflow → Exit A × Workflow

abbrev pub pure : {A : Type 0} → A → Coroutine A
pure a w = (done a, w)

abbrev pub gets : {A : Type 0} → (Workflow → A) → Coroutine A
gets f w = (done (f w), w)

abbrev pub modify : (Workflow → Workflow) → Coroutine (Unit {0})
modify f w = (done tt, f w)

abbrev pub raise_runtime : {A : Type 0} → Coroutine A
raise_runtime w = (runtime_error, w)

abbrev pub continue_with : {A : Type 0} → ReviewWorkflowInput → Coroutine A
continue_with r w = (continue_as_new r, w)

-- What follows a coroutine that ended so.
abbrev pub after : {A B : Type 0} → Exit A × Workflow → (A → Coroutine B) → Exit B × Workflow
after (done a, w) f = f a w
after (activity_error, w) f = (activity_error, w)
after (runtime_error, w) f = (runtime_error, w)
after (continue_as_new r, w) f = (continue_as_new r, w)

infixl 5 ◌>>=◌ ◌>>◌
abbrev pub ◌>>=◌ : {A B : Type 0} → Coroutine A → (A → Coroutine B) → Coroutine B
◌>>=◌ m f w = after (m w) f

abbrev pub ◌>>◌ : {A B : Type 0} → Coroutine A → Coroutine B → Coroutine B
m >> k = m >>= λ _. k

abbrev pub caught : {A : Type 0} → Exit A × Workflow → Coroutine A → Exit A × Workflow
caught (done a, w) handler = (done a, w)
caught (activity_error, w) handler = handler w
caught (runtime_error, w) handler = (runtime_error, w)
caught (continue_as_new r, w) handler = (continue_as_new r, w)

-- `try: m  except ActivityError: handler`
abbrev pub try_except : {A : Type 0} → Coroutine A → Coroutine A → Coroutine A
try_except m handler w = caught (m w) handler

-- `if result := await first: return result`, then the rest; `none` falls through.
abbrev pub or_rest : {A : Type 0} → Coroutine (Option A) → Option A → Coroutine (Option A)
or_rest rest none = rest
or_rest rest (some a) = pure (some a)

abbrev pub return_or :
    {A : Type 0} → Coroutine (Option A) → Coroutine (Option A) → Coroutine (Option A)
return_or first rest = first >>= or_rest rest

-- `_required_input`
abbrev pub or_runtime : {A : Type 0} → Option A → Coroutine A
or_runtime none = raise_runtime
or_runtime (some a) = pure a

unfoldable pub required_input : Coroutine ReviewWorkflowInput
required_input w = or_runtime w.input w
