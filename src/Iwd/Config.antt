-- ===== src/Iwd/Config.antt =====
-- internal/iwd/client.go: `writeIWDConfig`.
use x_network.Base.{String, [], ◌∷◌, Option, none, some, ◌<>◌}
use x_network.Runtime.{exec, exec_with, World, Shell, act}

unfoldable pub config_path : String → String → String
config_path ssid security = "/var/lib/iwd/" <> ssid <> "." <> security

unfoldable pub config_text : String → String
config_text password = "[Security]\nPassphrase=" <> password <> "\n"

-- A failed chmod is only logged.
unfoldable pub write_iwd_config :
    Shell → (ssid password security : String) → World → World × Option String
unfolding config_path config_text
write_iwd_config sh ssid password security w =
    let path = config_path ssid security in
    let tee = "sudo" ∷ "tee" ∷ path ∷ [] in
    let chmod = "sudo" ∷ "chmod" ∷ "600" ∷ path ∷ [] in
    let written = act (exec_with tee (config_text password)) w in
    elim (sh tee) [
      | some e ↦ (written, some ("failed to write IWD config: " <> e))
      | none ↦ (act (exec chmod) written, none)
    ]
