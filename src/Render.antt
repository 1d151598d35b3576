-- ===== src/Render.antt =====
-- client/src/hooks/render_hook.cpp: the overlay's frame and the window procedure. A `true` pointer
-- is one that is held; the answers of Direct3D are arguments.
pub mod Window
mod Tests
use crimson_desert_online_mo.Common.{
  ℕ, zero, suc, Bool, true, false, not, ◌&&◌, ◌||◌, Option, none, some, List, [], ◌∷◌, ◌==◌,
  if◌then◌else◌,
}
use crimson_desert_online_mo.Ui.Modal.{SessionStatus, ModalState, is_open, toggle_modal}

-- Who handles a message of the window.
pub data WndProc : Type 0 where
  no_proc engine_proc hooked_proc : WndProc

pub record RenderHook : Type 0 where
  pub imgui_init : Bool
  pub device : Bool
  pub context : Bool
  pub rtv : Bool
  pub orig_wnd_proc : WndProc
  -- What the window has: `GWLP_WNDPROC`.
  pub window_proc : WndProc

-- Before the first frame.
abbrev pub new_render : RenderHook
new_render = record {
  imgui_init = false;
  device = false;
  context = false;
  rtv = false;
  orig_wnd_proc = no_proc;
  window_proc = engine_proc;
}

-- Whether there are a device and a back buffer, and whether a view of the buffer is made.
pub record Direct3d : Type 0 where
  pub has_device : Bool
  pub has_back_buffer : Bool
  pub makes_view : Bool

pub create_render_target : Direct3d → RenderHook → RenderHook
create_render_target d r = if d.has_back_buffer then record r { rtv = d.makes_view } else r

pub init_imgui : Direct3d → RenderHook → RenderHook
unfolding create_render_target
init_imgui d r =
    if r.imgui_init
    then r
    else if not d.has_device
    then r
    else record (create_render_target d (record r { device = true; context = true })) {
      orig_wnd_proc = r.window_proc;
      window_proc = hooked_proc;
      imgui_init = true;
    }

-- The state, and whether the session is pumped and the overlay drawn, before `Present` itself.
pub hooked_present : Direct3d → RenderHook → RenderHook × Bool
hooked_present d r = let r = init_imgui d r in (r, r.imgui_init)

pub remove_render_hook : RenderHook → RenderHook
remove_render_hook r = record r { rtv = false; context = false; device = false; imgui_init = false }

-- The messages of Windows that are named.
abbrev wm_keydown : ℕ
wm_keydown = 0x0100

abbrev vk_f9 : ℕ
vk_f9 = 0x78

abbrev pub is_toggle : ℕ → ℕ → Bool
is_toggle msg w_param = (msg == wm_keydown) && (w_param == vk_f9)

-- Mouse buttons, mouse moves, keys, characters and the wheel.
abbrev pub is_input : ℕ → Bool
is_input msg =
    (msg == 0x0201)
    || (msg == 0x0202)
    || (msg == 0x0204)
    || (msg == 0x0205)
    || (msg == 0x0200)
    || (msg == wm_keydown)
    || (msg == 0x0101)
    || (msg == 0x0102)
    || (msg == 0x020A)

-- The overlay, and whether the message goes on to `g_origWndProc`.
pub hooked_wnd_proc : ℕ → ℕ → SessionStatus → ModalState → ModalState × Bool
hooked_wnd_proc msg w_param status modal =
    if is_toggle msg w_param
    then (toggle_modal status modal, false)
    else if is_open modal && is_input msg
    then (modal, false)
    else (modal, true)

-- A message given to a procedure, with at most `depth` procedures one below another: the overlay and
-- whether the game handles the message, `none` where no procedure has answered.
pub deliver :
    ℕ → RenderHook → ℕ → ℕ → SessionStatus → ModalState → WndProc → Option (ModalState × Bool)
unfolding hooked_wnd_proc
deliver zero r msg w_param status modal proc = none
deliver (suc depth) r msg w_param status modal no_proc = none
deliver (suc depth) r msg w_param status modal engine_proc = some (modal, true)
deliver (suc depth) r msg w_param status modal hooked_proc =
    let (modal, passed) = hooked_wnd_proc msg w_param status modal in
    let rest = deliver depth r msg w_param status modal r.orig_wnd_proc in
    if passed then rest else some (modal, false)
