-- ===== src/State/Signal.antt =====
-- internal/state/state.go: the two helpers at its end, signal strength and frequency band.
use Prim.Native.Nat.{min}
use x_network.Base.{
  ℕ, ◌+◌, ◌-◌, ◌*◌, ◌%◌, ◌^◌, ◌≤◌, ◌<◌, ◌≡◌, refl, ◌↔◌, ◌⊎◌, String, Bool, true, false, ◌&&◌, arith,
  ltb, leb, if◌then◌else◌,
}
use x_network.Base.Int.{ℤ, negsuc, pos_part, neg_part, ◌≤ℤ◌, leb_ℤ}

-- uint8(2 * (int(dBm) + 100)) is computed on the integers: the part that is left when the
-- first two tests fail is positive and below 100.
abbrev pub above_floor : ℤ → ℕ
above_floor dbm = 100 + pos_part dbm - neg_part dbm

unfoldable pub dbm_to_percent : ℤ → ℕ
dbm_to_percent dbm =
    if leb_ℤ dbm (negsuc 99)
    then 0
    else if leb_ℤ (negsuc 49) dbm
    then 100
    else 2 * above_floor dbm % 2 ^ 8

-- The percentage is twice the distance from -100 dBm, cut off at 0 and at 100: the conversion
-- to uint8 loses nothing.
pub dbm_to_percent_linear :
    (dbm : ℤ) → dbm_to_percent dbm ≡ min 100 (2 * (100 + pos_part dbm - neg_part dbm))
unfolding dbm_to_percent
dbm_to_percent_linear dbm = ground arith

-- A percentage is at most 100, at every int16 and beyond.
pub dbm_to_percent_le : (dbm : ℤ) → dbm_to_percent dbm ≤ 100
unfolding dbm_to_percent
dbm_to_percent_le dbm = ground arith

-- A stronger signal never shows a smaller percentage.
pub dbm_to_percent_mono : (a b : ℤ) → a ≤ℤ b → dbm_to_percent a ≤ dbm_to_percent b
unfolding dbm_to_percent
dbm_to_percent_mono a b h = ground arith

unfoldable pub frequency_to_band : ℕ → String
frequency_to_band freq =
    if leb 2400 freq && ltb freq 2500
    then "2.4GHz"
    else if leb 5000 freq && ltb freq 6000
    then "5GHz"
    else if leb 6000 freq
    then "6GHz"
    else "unknown"

no_band :
    (a b c : Bool)
    → ◌≡◌ {A = String}
        (if a then "2.4GHz" else (if b then "5GHz" else (if c then "6GHz" else "unknown")))
        "unknown"
    → (a ≡ false) × (b ≡ false) × (c ≡ false)
no_band true b c e = cc
no_band false true c e = cc
no_band false false true e = cc
no_band false false false e = (refl, refl, refl)

-- The band is "unknown" exactly below 2400, and between 2500 and 4999.
pub frequency_to_band_unknown :
    (freq : ℕ)
    → (frequency_to_band freq ≡ "unknown") ↔ ((freq < 2400) ⊎ ((2500 ≤ freq) × (freq < 5000)))
unfolding frequency_to_band
frequency_to_band_unknown freq = (
  λ e.
      let (a, b, c) =
        no_band (leb 2400 freq && ltb freq 2500) (leb 5000 freq && ltb freq 6000) (leb 6000 freq)
          e in
      ground arith,
  λ h. ground arith,
)
