-- ===== src/Config/Complete.antt =====
-- When user/client/config.go and user/server/config.go accept the arguments.
use Prim.Native.String.{String}
use text.Mathlib.TextEquality.{eq_iff}
use bdr.Common.{ℕ, ◌≡◌, ◌≢◌, ◌↔◌, refl, false, Bool, [], Option, none, some, arith}
use bdr.Config.Client
use bdr.Config.Server
use bdr.Config.{required, default_port, is_missing, port_is_missing, add_if, reported}

-- The argument is there and is not the default.
abbrev pub Given {ℓ} : {A : Type ℓ} → A → Option A → Type ℓ
Given {A} d o = (x : A) × (o ≡ some x) × (x ≢ d)

is_missing-Given : (o : Option String) → (is_missing o ≡ false) ↔ Given required o
is_missing-Given none = (λ e. absurd (cc e), λ g. absurd (cc g.1))
is_missing-Given (some x) =
    (λ e. (x, refl, λ h. ground (arith, eq_iff x required)), λ g. ground (arith, eq_iff x required))

port_is_missing-Given : (o : Option ℕ) → (port_is_missing o ≡ false) ↔ Given default_port o
port_is_missing-Given none = (λ e. absurd (cc e), λ g. absurd (cc g.1))
port_is_missing-Given (some x) = (λ e. (x, refl, λ h. ground arith), λ g. ground arith)

-- Nothing is listed exactly when nothing is missing.
reported-none :
    (a b c d : Bool) (k l m n : String)
    → (reported (add_if d n (add_if c m (add_if b l (add_if a k [])))) ≡ none)
      ↔ ((a ≡ false) × (b ≡ false) × (c ≡ false) × (d ≡ false))
reported-none a b c d k l m n = (λ e. ground arith, λ h. rw (h.0, h.1, h.2, h.3) refl)

reported_iff :
    {A B C D : Type 0} (a b c d : Bool) (k l m n : String)
    → (a ≡ false) ↔ A
    → (b ≡ false) ↔ B
    → (c ≡ false) ↔ C
    → (d ≡ false) ↔ D
    → (reported (add_if d n (add_if c m (add_if b l (add_if a k [])))) ≡ none) ↔ (A × B × C × D)
reported_iff a b c d k l m n ea eb ec ed =
    let listed = reported-none a b c d k l m n in
    (
      λ e. let h = listed.0 e in (ea.0 h.0, eb.0 h.1, ec.0 h.2, ed.0 h.3),
      λ g. listed.1 (ea.1 g.0, eb.1 g.1, ec.1 g.2, ed.1 g.3),
    )

-- The client accepts its arguments exactly when both devices, the address and the port are given, and
-- none of them is the default.
pub client_args-Given :
    (c u a : Option String) (p : Option ℕ)
    → (Client.validate_args c u a p ≡ none)
      ↔ (Given required c × Given required u × Given required a × Given default_port p)
unfolding Client.validate_args
client_args-Given c u a p =
    reported_iff (is_missing c) (is_missing u) (is_missing a) (port_is_missing p)
      "--control-device (character device path)" "--source-device (underlying device path)"
      "--address (IP address)" "--port (port)" (is_missing-Given c) (is_missing-Given u)
      (is_missing-Given a) (port_is_missing-Given p)

-- The server accepts its arguments exactly when the replica's device, the port, the address and the
-- journal's device are given, and none of them is the default.
pub server_args-Given :
    (t : Option String) (p : Option ℕ) (a j : Option String)
    → (Server.validate_args t p a j ≡ none)
      ↔ (Given required t × Given default_port p × Given required a × Given required j)
unfolding Server.validate_args
server_args-Given t p a j =
    reported_iff (is_missing t) (port_is_missing p) (is_missing a) (is_missing j)
      "--target-device (target device path)" "--port (port to listen on)"
      "--address (IP address to listen on)" "--journal (path to a device to store journal)"
      (is_missing-Given t) (port_is_missing-Given p) (is_missing-Given a) (is_missing-Given j)
