-- ===== src/Traffic/Sampling.antt =====
-- internal/traffic/monitor.go: what one sample changes.
use x_network.Base.{
  ℕ, ◌+◌, ◌-◌, ◌^◌, ◌≤◌, ◌<◌, ◌≡◌, refl, sym, ap, ◌∙◌, ◌≢◌, String, Bool, true, false, ◌==◌, eq_iff,
  arith, ltb, if◌then◌else◌, not, ◌&&◌, ◌||◌,
}
use x_network.State.{State, connected}
use x_network.Runtime.{World, state_of, modify}
use x_network.Sysfs.{Sysfs, uint64_mod}
use x_network.Traffic.{
  Monitor, min_delta_bytes, read_stats, pick_interface, account, report_idle, sample, sample_stats,
  sample_on,
}

abbrev pub is_busy : ℕ → ℕ → Monitor → Bool
is_busy rx tx m = ltb min_delta_bytes (rx - m.last_rx) || ltb min_delta_bytes (tx - m.last_tx)

abbrev pub is_still : ℕ → ℕ → Monitor → Bool
is_still rx tx m = rx == m.last_rx && tx == m.last_tx

-- What the state has to show behind a sample with the counters rx and tx of an interface.
abbrev pub shown : String → ℕ → ℕ → Monitor → State → State
shown iface rx tx m s =
    if is_busy rx tx m
    then record s {
      traffic_in = rx - m.last_rx;
      traffic_out = tx - m.last_tx;
      interface_name = iface;
    }
    else (if is_still rx tx m && not m.idle_emitted
        then record s { traffic_in = 0; traffic_out = 0 }
        else s)

-- What the monitor has to remember.
abbrev pub remembered : ℕ → ℕ → Monitor → Monitor
remembered rx tx m = record m {
  last_rx = rx;
  last_tx = tx;
  idle_emitted = not (is_busy rx tx m) && (m.idle_emitted || is_still rx tx m);
}

account-shown :
    (iface : String) (rx tx : ℕ) (m : Monitor) (w : World)
    → 0 < m.last_rx
    → m.last_rx ≤ rx
    → m.last_tx ≤ tx
    → rx < uint64_mod
    → tx < uint64_mod
    → (state_of (account iface rx tx m w).1 ≡ shown iface rx tx m (state_of w))
      × ((account iface rx tx m w).0 ≡ remembered rx tx m)
unfolding account modify
account-shown iface rx tx m w pos grows_rx grows_tx small_rx small_tx = ground arith

account_wraps :
    (iface : String) (rx tx : ℕ) (m : Monitor) (w : World)
    → rx < m.last_rx
    → m.last_rx < 2 ^ 63
    → (2 ^ 63 < (state_of (account iface rx tx m w).1).traffic_in)
      × ((state_of (account iface rx tx m w).1).traffic_in + (m.last_rx - rx) ≡ uint64_mod)
unfolding account modify
account_wraps iface rx tx m w back small = ground arith

account_idle :
    (iface : String) (m : Monitor) (w : World)
    → 0 < m.last_rx
    → m.last_rx < uint64_mod
    → m.last_tx < uint64_mod
    → account iface m.last_rx m.last_tx m w
      ≡ (record m { idle_emitted = true }, if m.idle_emitted then w else modify report_idle w)
unfolding account
account_idle iface m w pos small_rx small_tx = ground arith

pick_interface-idle :
    (fs : Sysfs) (b : Bool) (w : World)
    → pick_interface fs (state_of (if b then w else modify report_idle w))
      ≡ pick_interface fs (state_of w)
unfolding modify pick_interface
pick_interface-idle fs true w = refl
pick_interface-idle fs false w = refl

shown-busy :
    (iface : String) (rx tx : ℕ) (m : Monitor) (s : State)
    → m.last_rx + min_delta_bytes < rx
    → (shown iface rx tx m s).interface_name ≡ iface
shown-busy iface rx tx m s grows = ground arith

pick_interface-usb :
    (fs : Sysfs) (s : State)
    → s.usb_tethering_connected ≡ true
    → s.usb_interface_name ≢ ""
    → s.connection_state ≢ connected
    → pick_interface fs s ≡ s.usb_interface_name
unfolding pick_interface
pick_interface-usb fs s u n c = ground (arith, eq_iff s.usb_interface_name "")

pick_interface-connected :
    (fs : Sysfs) (s : State)
    → s.interface_name ≢ ""
    → s.connection_state ≡ connected
    → pick_interface fs s ≡ s.interface_name
unfolding pick_interface
pick_interface-connected fs s n c = ground (arith, eq_iff s.interface_name "")

sample-account :
    (fs : Sysfs) (iface : String) (rx tx : ℕ) (m : Monitor) (w : World)
    → pick_interface fs (state_of w) ≡ iface
    → iface ≢ ""
    → read_stats fs iface ≡ (rx, tx)
    → 0 < rx
    → sample fs m w ≡ account iface rx tx m w
unfolding sample sample_stats
sample-account fs iface rx tx m w p n r h = rw (p, sample_on, r) (ground (arith, eq_iff iface ""))

-- From the second sample on, while the counters of the interface that is picked grow and stay in
-- uint64, the state shows the exact differences to the last sample if one of them passes 100
-- bytes, zeros if both are 0 and no zeros were shown since the last traffic, and else what it
-- showed before; and the monitor remembers the counters and the zeros.
pub sample-shown :
    (fs : Sysfs) (iface : String) (rx tx : ℕ) (m : Monitor) (w : World)
    → pick_interface fs (state_of w) ≡ iface
    → iface ≢ ""
    → read_stats fs iface ≡ (rx, tx)
    → 0 < m.last_rx
    → m.last_rx ≤ rx
    → m.last_tx ≤ tx
    → rx < uint64_mod
    → tx < uint64_mod
    → (state_of (sample fs m w).1 ≡ shown iface rx tx m (state_of w))
      × ((sample fs m w).0 ≡ remembered rx tx m)
sample-shown fs iface rx tx m w p n r pos grows_rx grows_tx small_rx small_tx =
    rw (sample-account fs iface rx tx m w p n r (omega arith))
      (account-shown iface rx tx m w pos grows_rx grows_tx small_rx small_tx)

-- While nothing moves, the second of two samples changes neither the monitor nor anything else.
pub sample_idle_once :
    (fs : Sysfs) (iface : String) (m : Monitor) (w : World)
    → pick_interface fs (state_of w) ≡ iface
    → iface ≢ ""
    → read_stats fs iface ≡ (m.last_rx, m.last_tx)
    → 0 < m.last_rx
    → m.last_rx < uint64_mod
    → m.last_tx < uint64_mod
    → let (m', w') = sample fs m w in sample fs m' w' ≡ (m', w')
sample_idle_once fs iface m w p n r pos small_rx small_tx =
    let m' : Monitor = record m { idle_emitted = true } in
    let w' : World = if m.idle_emitted then w else modify report_idle w in
    let again : pick_interface fs (state_of w') ≡ iface =
      pick_interface-idle fs m.idle_emitted w ∙ p in
    rw
      (sample-account fs iface m.last_rx m.last_tx m w p n r pos
        ∙ account_idle iface m w pos small_rx small_tx)
      (sample-account fs iface m.last_rx m.last_tx m' w' again n r pos
        ∙ account_idle iface m' w' pos small_rx small_tx)

-- A counter that went back to a lower number above 0, as after a change of interface, is shown as
-- its difference modulo 2 ^ 64: a number of bytes above 2 ^ 63, if the last counter was below
-- that.
pub sample_wraps :
    (fs : Sysfs) (iface : String) (rx tx : ℕ) (m : Monitor) (w : World)
    → pick_interface fs (state_of w) ≡ iface
    → iface ≢ ""
    → read_stats fs iface ≡ (rx, tx)
    → 0 < rx
    → rx < m.last_rx
    → m.last_rx < 2 ^ 63
    → (2 ^ 63 < (state_of (sample fs m w).1).traffic_in)
      × ((state_of (sample fs m w).1).traffic_in + (m.last_rx - rx) ≡ uint64_mod)
sample_wraps fs iface rx tx m w p n r pos back small =
    rw (sample-account fs iface rx tx m w p n r pos) (account_wraps iface rx tx m w back small)

-- More than 100 bytes received over the USB interface between two samples, while tethering is
-- connected and the WiFi is not, make it the interface of the state: a later connection of the
-- WiFi does not bring its interface back.
pub sample_usb_stays :
    (fs : Sysfs) (iface : String) (rx tx : ℕ) (m : Monitor) (w : World)
    → (state_of w).usb_tethering_connected ≡ true
    → (state_of w).usb_interface_name ≡ iface
    → iface ≢ ""
    → (state_of w).connection_state ≢ connected
    → read_stats fs iface ≡ (rx, tx)
    → 0 < m.last_rx
    → m.last_rx + min_delta_bytes < rx
    → m.last_tx ≤ tx
    → rx < uint64_mod
    → tx < uint64_mod
    → (s : State) → s.interface_name ≡ (state_of (sample fs m w).1).interface_name
    → s.connection_state ≡ connected
    → pick_interface fs s ≡ iface
sample_usb_stays fs iface rx tx m w u name n c r pos grows grows_tx small small_tx s same on =
    let picked = pick_interface-usb fs (state_of w) u (λ e. n (sym name ∙ e)) c ∙ name in
    let shown : (state_of (sample fs m w).1).interface_name ≡ iface =
      ap (λ t. t.interface_name)
        (sample-shown fs iface rx tx m w picked n r pos (omega arith) grows_tx small small_tx).0
      ∙ shown-busy iface rx tx m (state_of w) grows in
    pick_interface-connected fs s (λ e. n (sym shown ∙ sym same ∙ e)) on ∙ same ∙ shown
