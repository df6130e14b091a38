-- ===== src/Iwd/Client/Setup/Safety.antt =====
-- internal/iwd/client.go: the handler of iwd's coming and going returns on objects and signals of
-- the types that iwd and the bus document.
use x_network.Base.{
  String, not, ◌&&◌, List, [], ◌∷◌, lookup, ◌=s=◌, Option-cases, Bool-cases, inl, inr, arith,
  eq_iff, ◌≡◌,
}
use x_network.Base.Outcome.{ok, ◌>>=◌, IsSafe, IsSafe->>=}
use x_network.Runtime.{World}
use x_network.Iwd.Bus.{Bus, Value, Signal, station_iface}
use x_network.Iwd.Client.{Client}
use x_network.Iwd.Client.Setup.{
  maybe_init_iwd, tried, owner_changed, as_text, name_owner_changed, interfaces_added,
  handle_lifecycle,
}
use x_network.Iwd.Client.Setup.Typed.{IsTypedIwd, maybe_init_iwd-IsSafe}

-- Of three values, each is a text.
abbrev pub IsOwnerBody : List Value → Type 0
IsOwnerBody (Value.text name ∷ Value.text old_owner ∷ Value.text new_owner ∷ []) = Unit
IsOwnerBody (a ∷ b ∷ d ∷ []) = ⊥
IsOwnerBody _ = Unit

tried-IsSafe :
    (bus : Bus) (c : Client) (w : World)
    → IsTypedIwd bus
    → IsSafe (maybe_init_iwd bus c w >>= λ r. ok (tried r))
tried-IsSafe bus c w typed = IsSafe->>= _ _ (maybe_init_iwd-IsSafe bus c w typed) λ r. tt

owner_changed-IsSafe :
    (bus : Bus) (name old_owner new_owner : String) (c : Client) (w : World)
    → IsTypedIwd bus
    → IsSafe (owner_changed bus name old_owner new_owner c w)
unfolding owner_changed
owner_changed-IsSafe bus name old_owner new_owner c w typed =
    elim (Bool-cases (name =s= "net.connman.iwd")) [
      | inr other ↦ rw (other, owner_changed) tt
      | inl named ↦ elim (Bool-cases (old_owner =s= "" && not (new_owner =s= ""))) [
        | inl came ↦ rw (named, came, owner_changed) (tried-IsSafe bus c w typed)
        | inr n ↦ elim (Bool-cases (not (old_owner =s= "") && new_owner =s= "")) [
          | inl went ↦ rw (named, n, went, owner_changed) tt
          | inr m ↦ rw (named, n, m, owner_changed) tt
        ]
      ]
    ]

name_owner_changed-IsSafe :
    (bus : Bus) (body : List Value) (c : Client) (w : World)
    → IsTypedIwd bus
    → IsOwnerBody body
    → IsSafe (name_owner_changed bus body c w)
unfolding name_owner_changed as_text
name_owner_changed-IsSafe bus (Value.text name ∷ Value.text old_owner ∷ Value.text new_owner ∷ []) c
      w typed texts =
    owner_changed-IsSafe bus name old_owner new_owner c w typed
name_owner_changed-IsSafe bus (a ∷ b ∷ d ∷ []) c w typed texts = ground arith
name_owner_changed-IsSafe bus body c w typed texts = tt

interfaces_added-IsSafe :
    (bus : Bus) (body : List Value) (c : Client) (w : World)
    → IsTypedIwd bus
    → IsSafe (interfaces_added bus body c w)
unfolding interfaces_added
interfaces_added-IsSafe bus (a ∷ Value.interfaces ifaces ∷ more) c w typed =
    elim (Option-cases (lookup station_iface ifaces)) [
      | inl n ↦ rw (n, interfaces_added) tt
      | inr (ps, s) ↦ rw (s, interfaces_added) (tried-IsSafe bus c w typed)
    ]
interfaces_added-IsSafe bus body c w typed = tt

-- While the objects of iwd have the properties that it documents, and each NameOwnerChanged of
-- three values has texts, the handler of iwd's coming and going returns, for every client and
-- every signal: those of other names may have any body.
pub handle_lifecycle-IsSafe :
    (bus : Bus) (sig : Signal) (c : Client) (w : World)
    → IsTypedIwd bus
    → (sig.name ≡ "org.freedesktop.DBus.NameOwnerChanged" → IsOwnerBody sig.body)
    → IsSafe (handle_lifecycle bus sig c w)
unfolding handle_lifecycle
handle_lifecycle-IsSafe bus sig c w typed texts =
    elim (Bool-cases (sig.name =s= "org.freedesktop.DBus.NameOwnerChanged")) [
      | inl owner ↦
          rw (owner, handle_lifecycle)
            (name_owner_changed-IsSafe bus sig.body c w typed
              (texts ((eq_iff sig.name "org.freedesktop.DBus.NameOwnerChanged").0 owner)))
      | inr n ↦
          elim (Bool-cases (sig.name =s= "org.freedesktop.DBus.ObjectManager.InterfacesAdded")) [
            | inl added ↦
                rw (n, added, handle_lifecycle) (interfaces_added-IsSafe bus sig.body c w typed)
            | inr m ↦ rw (n, m, handle_lifecycle) tt
          ]
    ]
