-- ===== src/Base/Results.antt =====
-- Exceptions as values. A method that may raise returns a `Result`; one that also changes state
-- returns the state beside it, since what was written stays written when the method raises.
use Prim.Native.String.{String}
use mathlib.Core.Path.{◌≡◌, refl}
use mathlib.Core.Bool.{Bool, true, false}

pub data ExcKind : Type 0 where
  value_error runtime_error permission_error key_error os_error type_error : ExcKind
  other_error : String → ExcKind

pub record Exc : Type 0 where
  pub kind : ExcKind
  pub message : String

-- `type(exc).__name__`
abbrev pub type_name : ExcKind → String
type_name value_error = "ValueError"
type_name runtime_error = "RuntimeError"
type_name permission_error = "PermissionError"
type_name key_error = "KeyError"
type_name os_error = "OSError"
type_name type_error = "TypeError"
type_name (other_error name) = name

-- `except OSError`: PermissionError is a subclass of OSError.
abbrev pub is_os_error : ExcKind → Bool
is_os_error os_error = true
is_os_error permission_error = true
is_os_error _ = false

pub data Result {ℓ} (A : Type ℓ) : Type ℓ where
  ok : A → Result A
  raised : Exc → Result A

abbrev pub raise {ℓ} : {A : Type ℓ} → ExcKind → String → Result A
raise k m = raised (record { kind = k; message = m })

abbrev pub is_ok {ℓ} : {A : Type ℓ} → Result A → Bool
is_ok (ok _) = true
is_ok (raised _) = false

-- The rest of a method, after a call that it does not catch the exceptions of.
infixl 10 ◌>>=◌
abbrev pub ◌>>=◌ : {S T : Type 0} → Result S → (S → Result T) → Result T
raised x >>= rest = raised x
ok s >>= rest = rest s

-- A method that returns was not left by the call before.
pub bind_returned :
    {S T : Type 0} {t : T} (call : Result S) (rest : S → Result T)
    → (call >>= rest) ≡ ok t
    → (s : S) × (call ≡ ok s) × (rest s ≡ ok t)
bind_returned (raised x) rest e = cc e
bind_returned (ok s) rest e = (s, refl, e)

pub ok-injective {ℓ} : {A : Type ℓ} {a b : A} → ◌≡◌ {A = Result A} (ok a) (ok b) → a ≡ b
ok-injective h = cc h
