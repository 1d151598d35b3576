-- ===== src/Render/Window.antt =====
-- client/src/hooks/render_hook.cpp: where the messages of the window go, over any frames.
use crimson_desert_online_mo.Common.{
  ℕ, zero, suc, ◌≡◌, refl, sym, subst, ◌⊎◌, inl, inr, Bool, true, false, not, ◌&&◌, ◌||◌, ◌==◌,
  none, some, List, [], ◌∷◌, if◌then◌else◌, arith, Bool-cases,
}
use crimson_desert_online_mo.Ui.Modal.{SessionStatus, ModalState, is_open, toggle_modal}
use crimson_desert_online_mo.Render.{
  engine_proc, hooked_proc, RenderHook, Direct3d, new_render, create_render_target, init_imgui,
  hooked_present, remove_render_hook, is_toggle, is_input, hooked_wnd_proc, deliver,
}

-- The states after frames.
unfoldable pub frames : List Direct3d → RenderHook → RenderHook
frames [] r = r
frames (d ∷ ds) r = frames ds (hooked_present d r).0

-- The engine handles the window, or the overlay does in front of the engine.
abbrev Chained : RenderHook → Type 0
Chained r =
    ((r.imgui_init ≡ false) × (r.window_proc ≡ engine_proc))
    ⊎ ((r.imgui_init ≡ true) × (r.window_proc ≡ hooked_proc) × (r.orig_wnd_proc ≡ engine_proc))

hooked_present-Chained :
    (d : Direct3d) (r : RenderHook) → Chained r → Chained (hooked_present d r).0
unfolding hooked_present init_imgui create_render_target
hooked_present-Chained d r (inr (done, window, orig)) = rw done (inr (refl, window, orig))
hooked_present-Chained d r (inl (first, window)) = elim (Bool-cases d.has_device) [
  | inl found ↦ rw (first, found) (inr (refl, refl, window))
  | inr missing ↦ rw (first, missing) (inl (refl, window))
]

frames-Chained : (ds : List Direct3d) (r : RenderHook) → Chained r → Chained (frames ds r)
unfolding frames
frames-Chained [] r c = c
frames-Chained (d ∷ ds) r c =
    frames-Chained ds (hooked_present d r).0 (hooked_present-Chained d r c)

-- What the overlay's procedure does with a message in front of the engine.
abbrev reacted : ℕ → ℕ → SessionStatus → ModalState → ModalState × Bool
reacted msg w_param status modal =
    if is_toggle msg w_param
    then (toggle_modal status modal, false)
    else (modal, not (is_open modal && is_input msg))

deliver-Chained :
    (depth : ℕ) (r : RenderHook) (msg w_param : ℕ) (status : SessionStatus) (modal : ModalState)
    → Chained r
    → deliver (suc (suc depth)) r msg w_param status modal r.window_proc
      ≡ some (if r.imgui_init then reacted msg w_param status modal else (modal, true))
unfolding deliver hooked_wnd_proc
deliver-Chained depth r msg w_param status modal (inl (first, window)) = rw (first, window) refl
deliver-Chained depth r msg w_param status modal (inr (done, window, orig)) =
    rw (window, orig, done)
      (elim (Bool-cases (is_toggle msg w_param)) [
        | inl toggle ↦ rw toggle refl
        | inr other ↦ elim (Bool-cases (is_open modal && is_input msg)) [
          | inl swallowed ↦ rw (other, swallowed) refl
          | inr passed ↦ rw (other, passed) refl
        ]
      ])

-- WM_KEYDOWN, WM_KEYUP, WM_CHAR, WM_MOUSEMOVE, WM_LBUTTONDOWN, WM_LBUTTONUP, WM_RBUTTONDOWN,
-- WM_RBUTTONUP and WM_MOUSEWHEEL.
abbrev pub kept_messages : List ℕ
kept_messages = 0x0100 ∷ 0x0101 ∷ 0x0102 ∷ 0x0200 ∷ 0x0201 ∷ 0x0202 ∷ 0x0204 ∷ 0x0205 ∷ 0x020A ∷ []

abbrev pub one_of : ℕ → List ℕ → Bool
one_of msg [] = false
one_of msg (m ∷ ms) = (m == msg) || one_of msg ms

-- What becomes of a message where the overlay is in front: 0x78 is the F9 key.
abbrev pub overlaid : ℕ → ℕ → SessionStatus → ModalState → ModalState × Bool
overlaid msg w_param status modal =
    if (msg == 0x0100) && (w_param == 0x78)
    then (toggle_modal status modal, false)
    else (modal, not (is_open modal && one_of msg kept_messages))

is_input-one_of : (msg : ℕ) → is_input msg ≡ one_of msg kept_messages
is_input-one_of msg = ground arith

-- After any frames from the start, every message is answered, by at most two procedures: before the
-- overlay is set up the game handles it. From then on WM_KEYDOWN with F9 toggles the overlay and
-- is kept from the game, as are, while the overlay is open, nine messages: key down, key up,
-- character, mouse move, left and right button down and up, and the vertical wheel. Any other
-- message, and all but F9 while the overlay is closed, go to the game.
pub deliver-frames :
    (ds : List Direct3d) (msg w_param : ℕ) (status : SessionStatus) (modal : ModalState)
    → let r = frames ds new_render in
      deliver 2 r msg w_param status modal r.window_proc
      ≡ some (if r.imgui_init then overlaid msg w_param status modal else (modal, true))
deliver-frames ds msg w_param status modal = rw (sym (is_input-one_of msg)) (
    deliver-Chained 0 (frames ds new_render) msg w_param status modal
      (frames-Chained ds new_render (inl (refl, refl))))

-- The overlay's procedure in front of itself.
deliver_looped :
    (depth : ℕ) (r : RenderHook) (msg w_param : ℕ) (status : SessionStatus) (modal : ModalState)
    → r.orig_wnd_proc ≡ hooked_proc
    → is_toggle msg w_param ≡ false
    → (is_open modal && is_input msg) ≡ false
    → deliver depth r msg w_param status modal hooked_proc ≡ none
unfolding deliver hooked_wnd_proc
deliver_looped zero r msg w_param status modal looped other passed = refl
deliver_looped (suc depth) r msg w_param status modal looped other passed =
    let below = deliver_looped depth r msg w_param status modal looped other passed in
    rw (other, passed)
      (subst (λ q. deliver depth r msg w_param status modal q ≡ none) (sym looped) below)

-- Where the overlay has been set up after any frames from the start, and the hook is removed, one
-- further frame with a device makes the overlay's procedure its own successor: a message that it
-- does not handle itself is not answered, however deep the calls go.
pub deliver-remove_render_hook :
    (ds : List Direct3d) (d : Direct3d) (depth msg w_param : ℕ) (status : SessionStatus)
    (modal : ModalState)
    → (frames ds new_render).imgui_init ≡ true
    → d.has_device ≡ true
    → is_toggle msg w_param ≡ false
    → (is_open modal && is_input msg) ≡ false
    → let r = (hooked_present d (remove_render_hook (frames ds new_render))).0 in
      deliver depth r msg w_param status modal r.window_proc ≡ none
unfolding hooked_present init_imgui remove_render_hook
deliver-remove_render_hook ds d depth msg w_param status modal done found other passed =
    let r = frames ds new_render in
    elim (frames-Chained ds new_render (inl (refl, refl))) [
      | inl (first, window) ↦ absurd (ground (arith, first, done))
      | inr (set, window, orig) ↦
          rw found (deliver_looped depth _ msg w_param status modal window other passed)
    ]
