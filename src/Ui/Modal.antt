-- ===== src/Ui/Modal.antt =====
-- client/src/ui/modal.h and modal.cpp: which page of the overlay is shown; `SessionStatus` of
-- session.h.
pub mod Pages
mod Tests
use crimson_desert_online_mo.Common.{List, [], ◌∷◌, ◌&&◌, Bool, true, false, if◌then◌else◌}

pub data SessionStatus : Type 0 where
  disconnected connecting connected in_session failed : SessionStatus

pub data ModalState : Type 0 where
  closed main_menu host_setup join_setup session_page : ModalState

pub first_page : SessionStatus → ModalState
first_page in_session = session_page
first_page disconnected = main_menu
first_page connecting = main_menu
first_page connected = main_menu
first_page failed = main_menu

pub open_modal : SessionStatus → ModalState → ModalState
open_modal status closed = first_page status
open_modal status main_menu = main_menu
open_modal status host_setup = host_setup
open_modal status join_setup = join_setup
open_modal status session_page = session_page

pub close_modal : ModalState → ModalState
close_modal state = closed

abbrev pub is_open : ModalState → Bool
is_open closed = false
is_open main_menu = true
is_open host_setup = true
is_open join_setup = true
is_open session_page = true

pub toggle_modal : SessionStatus → ModalState → ModalState
toggle_modal status state = if is_open state then close_modal state else open_modal status state

-- The button that is clicked in a frame.
pub data Button : Type 0 where
  no_button host_button join_button leave_button start_hosting connect_button back enter : Button

abbrev pub is_in_session : SessionStatus → Bool
is_in_session in_session = true
is_in_session disconnected = false
is_in_session connecting = false
is_in_session connected = false
is_in_session failed = false

pub render_main_menu : Button → ModalState
render_main_menu host_button = host_setup
render_main_menu join_button = join_setup
render_main_menu no_button = main_menu
render_main_menu leave_button = main_menu
render_main_menu start_hosting = main_menu
render_main_menu connect_button = main_menu
render_main_menu back = main_menu
render_main_menu enter = main_menu

-- `status` is read after the button; the button to enter is there for a host in a session.
pub render_host_setup : SessionStatus → Bool → Button → ModalState
render_host_setup status is_host back = main_menu
render_host_setup status is_host enter =
    if is_in_session status && is_host then session_page else host_setup
render_host_setup status is_host no_button = host_setup
render_host_setup status is_host host_button = host_setup
render_host_setup status is_host join_button = host_setup
render_host_setup status is_host leave_button = host_setup
render_host_setup status is_host start_hosting = host_setup
render_host_setup status is_host connect_button = host_setup

abbrev back_or_stay : Button → ModalState → ModalState
back_or_stay back state = main_menu
back_or_stay no_button state = state
back_or_stay host_button state = state
back_or_stay join_button state = state
back_or_stay leave_button state = state
back_or_stay start_hosting state = state
back_or_stay connect_button state = state
back_or_stay enter state = state

-- A session that is joined shows its page, whatever was clicked.
pub render_join_setup : SessionStatus → Button → ModalState
render_join_setup status click =
    if is_in_session status then session_page else back_or_stay click join_setup

pub render_in_session : Button → ModalState
render_in_session leave_button = main_menu
render_in_session no_button = session_page
render_in_session host_button = session_page
render_in_session join_button = session_page
render_in_session start_hosting = session_page
render_in_session connect_button = session_page
render_in_session back = session_page
render_in_session enter = session_page

pub render : SessionStatus → Bool → Button → ModalState → ModalState
unfolding render_main_menu render_host_setup render_join_setup render_in_session
render status is_host click closed = closed
render status is_host click main_menu = render_main_menu click
render status is_host click host_setup = render_host_setup status is_host click
render status is_host click join_setup = render_join_setup status click
render status is_host click session_page = render_in_session click

-- What happens to the overlay, with the session's status and role at that time.
pub data Event : Type 0 where
  opened toggled : SessionStatus → Event
  shut : Event
  drawn : SessionStatus → Bool → Button → Event

pub step : Event → ModalState → ModalState
unfolding open_modal close_modal toggle_modal render
step (opened status) s = open_modal status s
step (toggled status) s = toggle_modal status s
step shut s = close_modal s
step (drawn status is_host click) s = render status is_host click s

pub run : List Event → ModalState → ModalState
run [] s = s
run (e ∷ es) s = run es (step e s)
