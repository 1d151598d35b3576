-- ===== src/Ui/Modal/Tests.antt =====
-- A player who opens the overlay, asks to join and goes back.
use crimson_desert_online_mo.Common.{false, List, [], ◌∷◌}
use crimson_desert_online_mo.Ui.Modal.{
  Event, opened, toggled, shut, drawn, disconnected, connecting, connected, join_button,
  connect_button, back,
}

abbrev clicks : List Event
clicks =
    opened disconnected
    ∷ drawn disconnected false join_button
    ∷ drawn connecting false connect_button
    ∷ drawn connected false back
    ∷ toggled connected
    ∷ shut
    ∷ []
