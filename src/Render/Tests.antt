-- ===== src/Render/Tests.antt =====
-- Frames with and without a device.
use crimson_desert_online_mo.Common.{◌≡◌, refl, true, false, some, none, [], ◌∷◌, if◌then◌else◌}
use crimson_desert_online_mo.Ui.Modal.{closed, main_menu, disconnected}
use crimson_desert_online_mo.Render.{
  Direct3d, new_render, deliver, hooked_present, remove_render_hook, init_imgui,
}
use crimson_desert_online_mo.Render.Window.{
  frames, overlaid, deliver-frames, deliver-remove_render_hook,
}

abbrev ready : Direct3d
ready = record { has_device = true; has_back_buffer = true; makes_view = true }

abbrev lost : Direct3d
lost = record { has_device = false; has_back_buffer = false; makes_view = false }

-- A key with the overlay open.
deliver-frames_example :
    let r = frames (lost ∷ ready ∷ []) new_render in
    deliver 2 r 0x0100 0x41 disconnected main_menu r.window_proc
    ≡ some (if r.imgui_init then overlaid 0x0100 0x41 disconnected main_menu else (main_menu, true))
deliver-frames_example = deliver-frames (lost ∷ ready ∷ []) 0x0100 0x41 disconnected main_menu

set_up : (frames (ready ∷ []) new_render).imgui_init ≡ true
unfolding frames hooked_present init_imgui
set_up = refl

deliver-remove_render_hook_example :
    let r = (hooked_present ready (remove_render_hook (frames (ready ∷ []) new_render))).0 in
    deliver 1000 r 0x0100 0x41 disconnected closed r.window_proc ≡ none
deliver-remove_render_hook_example =
    deliver-remove_render_hook (ready ∷ []) ready 1000 0x0100 0x41 disconnected closed set_up refl
      refl refl
