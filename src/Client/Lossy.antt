-- ===== src/Client/Lossy.antt =====
-- Runs of `Rounds` between two clients: which texts of the sender are shown, and in which order.
use upush_chat.Client.{Client}
use upush_chat.Client.Rounds.{Rounds}
use upush_chat.Client.Kept.{Kept}
