-- ===== src/Traffic/Interface.antt =====
-- internal/traffic/monitor.go: which interface is measured.
use mathlib.Core.List.{Memᴰ}
use x_network.Base.{
  ◌≡◌, refl, ap, ◌∙◌, ◌≢◌, ◌⊎◌, inl, inr, String, true, false, List, [], ◌∷◌, ◌++◌, some, All,
  eq_iff, arith,
}
use x_network.Sysfs.{Sysfs}
use x_network.Traffic.{is_up, first_active, find_active_of, find_active_interface}

-- The loop passes an interface over: it is the loopback, or not up.
abbrev pub IsPassedOver : Sysfs → String → Type 0
IsPassedOver fs name = (name ≡ "lo") ⊎ (is_up fs name ≡ false)

first_active_first :
    (fs : Sysfs) (before : List String) (name : String) (behind : List String)
    → All (IsPassedOver fs) before
    → name ≢ "lo"
    → is_up fs name ≡ true
    → first_active fs (before ++ name ∷ behind) ≡ name
unfolding first_active
first_active_first fs [] name behind h n u = ground (arith, eq_iff name "lo")
first_active_first fs (b ∷ before) name behind (p, h) n u =
    ground (arith, eq_iff b "lo", first_active_first fs before name behind h n u)

-- The first interface of the directory that is up and not the loopback is chosen, whatever
-- comes behind it: a wireless interface gets no preference over a wired one before it.
pub find_active_interface_first :
    (fs : Sysfs) (before : List String) (name : String) (behind : List String)
    → fs.entries ≡ some (before ++ name ∷ behind)
    → All (IsPassedOver fs) before
    → name ≢ "lo"
    → is_up fs name ≡ true
    → find_active_interface fs ≡ name
unfolding find_active_interface
find_active_interface_first fs before name behind e h n u =
    ap (find_active_of fs) e ∙ first_active_first fs before name behind h n u

abbrev IsActiveIn : Sysfs → List String → String → Type 0
IsActiveIn fs names name = Memᴰ name names × (name ≢ "lo") × (is_up fs name ≡ true)

-- A round of the loop passes an interface over, or ends at it.
first_active-cons :
    (fs : Sysfs) (n : String) (names : List String)
    → (first_active fs (n ∷ names) ≡ first_active fs names)
      ⊎ ((first_active fs (n ∷ names) ≡ n) × (n ≢ "lo") × (is_up fs n ≡ true))
unfolding first_active
first_active-cons fs n names = ground (arith, eq_iff n "lo")

first_active_sound :
    (fs : Sysfs) (names : List String)
    → first_active fs names ≢ ""
    → IsActiveIn fs names (first_active fs names)
first_active_sound fs [] h = absurd (h (unfold first_active in refl))
first_active_sound fs (n ∷ names) h = elim (first_active-cons fs n names) [
  | inl e ↦ let (m, l, u) = first_active_sound fs names (λ z. h (e ∙ z)) in rw e (Memᴰ.tail m, l, u)
  | inr (e, l, u) ↦ rw e (Memᴰ.head refl, l, u)
]

-- A name that is found in a directory that can be read belongs to it, is not the loopback, and is
-- up.
pub find_active_interface_sound :
    (fs : Sysfs) (names : List String)
    → fs.entries ≡ some names
    → find_active_interface fs ≢ ""
    → Memᴰ (find_active_interface fs) names
      × (find_active_interface fs ≢ "lo")
      × (is_up fs (find_active_interface fs) ≡ true)
unfolding find_active_interface
find_active_interface_sound fs names e h =
    let same : find_active_interface fs ≡ first_active fs names = ap (find_active_of fs) e in
    rw same (first_active_sound fs names (λ z. h (same ∙ z)))
