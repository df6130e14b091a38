-- ===== src/Sysfs.antt =====
-- The parts of /sys/class/net that internal/traffic and internal/netlink read. The file system
-- is not the repository's: it is this record, an argument of what reads it.
use x_network.Base.{
  ℕ, ◌+◌, ◌-◌, ◌*◌, ◌^◌, String, Bool, ◌||◌, ◌&&◌, List, [], ◌∷◌, Option, none, some, ltb, leb,
  ◌==◌, if◌then◌else◌,
}
use mathlib.Core.List.{reverse}

pub record Sysfs : Type 0 where
  -- The interfaces, in the order of the directory; `none` if it cannot be read.
  pub entries : Option (List String)
  -- The bytes of a file below an interface's directory, such as "operstate".
  pub read_file : (iface file : String) → Option (List ℕ)
  -- Whether a path below an interface's directory exists.
  pub exists : (iface file : String) → Bool
  -- Whether <iface>/device/subsystem is a link whose target ends in "/usb".
  pub on_usb_bus : (iface : String) → Bool

-- Go's standard library, on bytes: files of sysfs are ASCII.
abbrev pub is_space : ℕ → Bool
is_space c = (leb 9 c && leb c 13) || c == 32

abbrev pub drop_spaces : List ℕ → List ℕ
drop_spaces [] = []
drop_spaces (c ∷ cs) = if is_space c then drop_spaces cs else c ∷ cs

-- strings.TrimSpace
unfoldable pub trim_space : List ℕ → List ℕ
trim_space cs = reverse (drop_spaces (reverse (drop_spaces cs)))

-- The first token of a bufio.Scanner that splits into lines: there is none in an empty file. A
-- carriage return before the end of the line is left to `trim_space`, which drops it as well.
abbrev pub first_line_of : List ℕ → List ℕ
first_line_of [] = []
first_line_of (c ∷ cs) = if c == 10 then [] else c ∷ first_line_of cs

unfoldable pub first_line : List ℕ → Option (List ℕ)
first_line [] = none
first_line (c ∷ cs) = some (first_line_of (c ∷ cs))

abbrev pub uint64_mod : ℕ
uint64_mod = 2 ^ 64

-- strconv.ParseUint(s, 10, 64): `none` for a byte that is no digit, an empty text, or overflow.
unfoldable pub parse_from : ℕ → List ℕ → Option ℕ
parse_from n [] = some n
parse_from n (c ∷ cs) =
    let more = parse_from (n * 10 + (c - 48)) cs in
    if leb 48 c && leb c 57 && ltb (n * 10 + (c - 48)) uint64_mod then more else none

unfoldable pub parse_uint : List ℕ → Option ℕ
unfolding parse_from
parse_uint [] = none
parse_uint (c ∷ cs) = parse_from 0 (c ∷ cs)
