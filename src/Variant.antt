-- ===== src/Variant.antt =====
-- D-Bus values (`dbus.Variant` of godbus): the value types that internal/iwd takes out and
-- internal/dbus puts in, and Go's type assertions on them.
use x_network.Base.{ℕ, String, Bool, Option, none, some, List, ◌≡◌}
use mathlib.Core.Path.{subst}
use x_network.Base.Int.{ℤ}
use x_network.Base.Outcome.{Outcome, ok, panic, ◌>>=◌, ok-injective, two_steps}

-- internal/dbus/properties.go: a network as it is sent to clients.
pub record NetworkDbus : Type 0 where
  pub ssid : String
  pub security : String
  pub signal : ℕ
  pub connected : Bool
  pub frequency : ℕ

pub data Variant : Type 0 where
  boolean : Bool → Variant
  string : String → Variant
  object_path : String → Variant
  int16 : ℤ → Variant
  byte uint32 uint64 : ℕ → Variant
  string_array : List String → Variant
  network_array : List NetworkDbus → Variant

-- map[string]dbus.Variant
abbrev pub Props : Type 0
Props = List (String × Variant)

-- `v.Value().(T)` in its one-value form panics on a value of another type.
unfoldable pub as_string : Variant → Outcome String
as_string (string s) = ok s
as_string _ = panic

unfoldable pub as_bool : Variant → Outcome Bool
as_bool (boolean b) = ok b
as_bool _ = panic

unfoldable pub as_path : Variant → Outcome String
as_path (object_path p) = ok p
as_path _ = panic

-- `if v, ok := props[key]; ok { s.field = v.Value().(T) }`, for the assertion `read`.
unfoldable pub when_present :
    {A S : Type 0} → Option Variant → (Variant → Outcome A) → (A → S → S) → S → Outcome S
when_present none read set s = ok s
when_present (some v) read set s = read v >>= λ a. ok (set a s)

-- The key is absent, or has a value that the assertion accepts.
abbrev pub Accepts : {A : Type 0} → (Variant → Outcome A) → Option Variant → Type 0
Accepts read none = Unit
Accepts {A} read (some v) = (a : A) × (read v ≡ ok a)

-- `*dbus.Error`, and what an exported method answers.
pub record DbusError : Type 0 where
  pub name : String
  pub message : String

pub data Reply (A : Type 0) : Type 0 where
  returns : A → Reply A
  fails : DbusError → Reply A

-- A property that every setting keeps is kept.
pub when_present_keeps :
    {A S : Type 0} (P : S → Type 0) (o : Option Variant) (read : Variant → Outcome A)
    (set : A → S → S) (s : S) {s' : S}
    → when_present o read set s ≡ ok s'
    → ((a : A) → P s → P (set a s))
    → P s
    → P s'
unfolding when_present
when_present_keeps P none read set s e k v = subst P (ok-injective s _ e) v
when_present_keeps P (some x) read set s e k v =
    let (a, ends, read_as) = two_steps (read x) (λ a. ok (set a s)) e in
    subst P (ok-injective (set a s) _ ends) (k a v)
