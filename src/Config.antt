-- ===== src/Config.antt =====
-- What user/client/config.go and user/server/config.go share: the test of a required argument, what
-- is printed, and the flags that the command line gives.
use Prim.Native.String.{String}
use text.Mathlib.Text.{◌==◌}
use bdr.Common.Tests
use bdr.Common.{
  ℕ, Bool, true, false, not, ◌||◌, ◌&&◌, if◌then◌else◌, List, [], ◌∷◌, ◌++◌, Option, none, some,
}
pub mod Client
pub mod Server
pub mod Complete

-- The default of a required text, and of the port.
abbrev pub required : String
required = "required"

abbrev pub default_port : ℕ
default_port = 0

-- `p == nil || *p == Default...`, of a pointer to a text.
abbrev pub is_missing : Option String → Bool
is_missing none = true
is_missing (some text) = text == required

-- The same of the port, which is not negative here.
abbrev pub port_is_missing : Option ℕ → Bool
port_is_missing none = true
port_is_missing (some port) = Tests.◌==◌ port default_port

abbrev pub add_if : Bool → String → List String → List String
add_if b name names = if b then names ++ name ∷ [] else names

-- `none` is no error; else the arguments that the error lists.
abbrev pub reported : List String → Option (List String)
reported [] = none
reported (name ∷ names) = some (name ∷ names)

-- A flag that the command line does not give has its default.
abbrev pub or_default {ℓ} : {A : Type ℓ} → A → Option A → A
or_default d none = d
or_default d (some x) = x

-- What the prints look at.
pub record Prints : Type 0 where
  pub verbose : Bool
  pub debug : Bool
  pub no_print : Bool

-- Whether `Println`, `VerbosePrintln` and `DebugPrintln` print.
unfoldable pub println : Prints → Bool
println p = if p.no_print then false else true

unfoldable pub verbose_println : Prints → Bool
verbose_println p = if p.no_print then false else if p.verbose || p.debug then true else false

unfoldable pub debug_println : Prints → Bool
debug_println p = if p.no_print then false else if p.debug then true else false
