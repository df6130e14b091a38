-- ===== src/Iwd/Client/Setup/Lifecycle.antt =====
-- internal/iwd/client.go: what a signal of iwd's coming or going does, and what it keeps.
use mathlib.Core.Path.{subst}
use x_network.Base.{
  ◌≡◌, ◌⊎◌, inl, inr, sym, String, not, ◌&&◌, List, [], ◌∷◌, Option, lookup, ◌=s=◌, Bool-cases,
  Option-cases,
}
use x_network.Base.Outcome.{ok, ◌>>=◌, ok-injective, two_steps}
use x_network.State.Coherent.{IsCoherent}
use x_network.Runtime.{World, state_of}
use x_network.Iwd.Bus.{Bus, Value, Signal, station_iface}
use x_network.Iwd.Client.{Client}
use x_network.Iwd.Client.Setup.{
  maybe_init_iwd, handle_iwd_disappear, owner_changed, as_text, name_owner_changed,
  interfaces_added, handle_lifecycle, tried,
}
use x_network.Iwd.Client.Setup.Coherent.{maybe_init_iwd-IsCoherent, handle_iwd_disappear-IsCoherent}

-- Nothing, an attempt to initialize the client, or iwd's going.
abbrev pub IsHandled : Bus → Client → World → Client × World → Type 0
IsHandled bus c w r =
    (r ≡ (c, w))
    ⊎ ((err : Option String) × (maybe_init_iwd bus c w ≡ ok (r.0, r.1, err)))
    ⊎ (r ≡ handle_iwd_disappear c w)

tried-IsHandled :
    (bus : Bus) (c : Client) (w : World) (r : Client × World)
    → (maybe_init_iwd bus c w >>= λ r. ok (tried r)) ≡ ok r
    → IsHandled bus c w r
tried-IsHandled bus c w r e =
    let ((c1, w1, err), ends, init) = two_steps (maybe_init_iwd bus c w) (λ r. ok (tried r)) e in
    subst (IsHandled bus c w) (ok-injective (c1, w1) r ends) (inr (inl (err, init)))

owner_changed-IsHandled :
    (bus : Bus) (name old_owner new_owner : String) (c : Client) (w : World) (r : Client × World)
    → owner_changed bus name old_owner new_owner c w ≡ ok r
    → IsHandled bus c w r
unfolding owner_changed
owner_changed-IsHandled bus name old_owner new_owner c w r e =
    elim (Bool-cases (name =s= "net.connman.iwd")) [
      | inr other ↦ inl (sym (ok-injective (c, w) r (rw (other, owner_changed) at e)))
      | inl named ↦ elim (Bool-cases (old_owner =s= "" && not (new_owner =s= ""))) [
        | inl came ↦ tried-IsHandled bus c w r (rw (named, came, owner_changed) at e)
        | inr n ↦ elim (Bool-cases (not (old_owner =s= "") && new_owner =s= "")) [
          | inl went ↦ inr (
              inr (
                sym (
                  ok-injective (handle_iwd_disappear c w) r
                    (rw (named, n, went, owner_changed) at e))))
          | inr m ↦ inl (sym (ok-injective (c, w) r (rw (named, n, m, owner_changed) at e)))
        ]
      ]
    ]

name_owner_changed-IsHandled :
    (bus : Bus) (body : List Value) (c : Client) (w : World) (r : Client × World)
    → name_owner_changed bus body c w ≡ ok r
    → IsHandled bus c w r
unfolding name_owner_changed
name_owner_changed-IsHandled bus (a ∷ b ∷ d ∷ []) c w r e =
    let (name, later, x) = two_steps (as_text a) _ e in
    let (old_owner, last, y) = two_steps (as_text b) _ later in
    let (new_owner, ends, z) = two_steps (as_text d) _ last in
    owner_changed-IsHandled bus name old_owner new_owner c w r ends
name_owner_changed-IsHandled bus body c w r e = inl (sym (ok-injective (c, w) r e))

interfaces_added-IsHandled :
    (bus : Bus) (body : List Value) (c : Client) (w : World) (r : Client × World)
    → interfaces_added bus body c w ≡ ok r
    → IsHandled bus c w r
unfolding interfaces_added
interfaces_added-IsHandled bus (a ∷ Value.interfaces ifaces ∷ more) c w r e =
    elim (Option-cases (lookup station_iface ifaces)) [
      | inl n ↦ inl (sym (ok-injective (c, w) r (rw (n, interfaces_added) at e)))
      | inr (ps, s) ↦ tried-IsHandled bus c w r (rw (s, interfaces_added) at e)
    ]
interfaces_added-IsHandled bus body c w r e = inl (sym (ok-injective (c, w) r e))

-- A signal of iwd's coming or going does nothing, or is an attempt to initialize the client, or
-- takes it back to its uninitialized form.
pub handle_lifecycle-IsHandled :
    (bus : Bus) (sig : Signal) (c : Client) (w : World) (r : Client × World)
    → handle_lifecycle bus sig c w ≡ ok r
    → IsHandled bus c w r
unfolding handle_lifecycle
handle_lifecycle-IsHandled bus sig c w r e =
    elim (Bool-cases (sig.name =s= "org.freedesktop.DBus.NameOwnerChanged")) [
      | inl owner ↦
          name_owner_changed-IsHandled bus sig.body c w r (rw (owner, handle_lifecycle) at e)
      | inr n ↦
          elim (Bool-cases (sig.name =s= "org.freedesktop.DBus.ObjectManager.InterfacesAdded")) [
            | inl added ↦
                interfaces_added-IsHandled bus sig.body c w r (rw (n, added, handle_lifecycle) at e)
            | inr m ↦ inl (sym (ok-injective (c, w) r (rw (n, m, handle_lifecycle) at e)))
          ]
    ]

pub handle_lifecycle-IsCoherent :
    (bus : Bus) (sig : Signal) (c : Client) (w : World) (r : Client × World)
    → handle_lifecycle bus sig c w ≡ ok r
    → IsCoherent (state_of w)
    → IsCoherent (state_of r.1)
handle_lifecycle-IsCoherent bus sig c w r e v = elim (handle_lifecycle-IsHandled bus sig c w r e) [
  | inl same ↦ subst (λ r. IsCoherent (state_of r.1)) (sym same) v
  | inr (inl (err, init)) ↦ maybe_init_iwd-IsCoherent bus c r.0 w r.1 err init v
  | inr (inr gone) ↦
      subst (λ r. IsCoherent (state_of r.1)) (sym gone) (handle_iwd_disappear-IsCoherent c w v)
]
