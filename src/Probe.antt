-- ===== src/Probe.antt =====
-- The probes in examples/: programs that drive clients through their public functions and judge what
-- arrives. What a receiver of the broadcast channel yields is an input of the model.
pub mod Observe
pub mod Interruption
pub mod Network
pub mod Commands
pub mod Control
pub mod Soak
pub mod Chat
pub mod Smoke
pub mod Setup
use wu_kong_easy_sdk_rust.Base.{ℕ, String, Bool, true, false}
use wu_kong_easy_sdk_rust.Types.Failure.{Error}

-- The boxed errors of a probe: its own text, an error of the library, one of the receiver, or
-- the end of a timeout.
pub data Fault : Type 0 where
  said : String → Fault
  raised : Error → Fault
  lagged : ℕ → Fault
  closed elapsed : Fault

pub data Verdict {ℓ} (A : Type ℓ) : Type ℓ where
  pass : A → Verdict A
  failed : Fault → Verdict A

infixl 5 ◌>>=◌
abbrev pub ◌>>=◌ {ℓ κ} : {A : Type ℓ} {B : Type κ} → Verdict A → (A → Verdict B) → Verdict B
v >>= next = elim v [ failed f ↦ failed f | pass a ↦ next a ]

-- `if c { return Err(text.into()) }`
abbrev pub fail_if : Bool → String → Verdict (Unit {0})
fail_if true text = failed (said text)
fail_if false text = pass tt
