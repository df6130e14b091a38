-- ===== src/Iwd/Client/Setup/Races.antt =====
-- internal/iwd/client.go: `NewClient` beside the loop of iwd's coming and going that it has started.
use x_network.Iwd.Bus.{Bus}
use x_network.Iwd.Client.{Client}
