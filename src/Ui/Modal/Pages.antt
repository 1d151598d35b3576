-- ===== src/Ui/Modal/Pages.antt =====
-- When the page of the session is shown.
use crimson_desert_online_mo.Common.{◌≡◌, ◌≢◌, refl, Bool, false, List, [], ◌∷◌, All}
use crimson_desert_online_mo.Ui.Modal.{
  SessionStatus, ModalState, Button, Event, disconnected, connecting, connected, in_session, failed,
  closed, main_menu, host_setup, join_setup, session_page, no_button, host_button, join_button,
  leave_button, start_hosting, connect_button, back, enter, opened, toggled, shut, drawn,
  is_in_session, first_page, open_modal, close_modal, toggle_modal, render_main_menu,
  render_host_setup, render_join_setup, render, step, run,
}

-- An event at which the session is not joined.
abbrev pub IsApart : Event → Type 0
IsApart (opened status) = is_in_session status ≡ false
IsApart (toggled status) = is_in_session status ≡ false
IsApart shut = Unit {0}
IsApart (drawn status is_host click) = is_in_session status ≡ false

first_page_apart :
    (status : SessionStatus) → is_in_session status ≡ false → first_page status ≢ session_page
unfolding first_page
first_page_apart disconnected apart e = cc
first_page_apart connecting apart e = cc
first_page_apart connected apart e = cc
first_page_apart in_session apart e = cc
first_page_apart failed apart e = cc

open_apart :
    (status : SessionStatus) (s : ModalState)
    → is_in_session status ≡ false
    → s ≢ session_page
    → open_modal status s ≢ session_page
unfolding open_modal
open_apart status closed apart off = first_page_apart status apart
open_apart status main_menu apart off = off
open_apart status host_setup apart off = off
open_apart status join_setup apart off = off
open_apart status session_page apart off = off

close_apart : (s : ModalState) → close_modal s ≢ session_page
unfolding close_modal
close_apart s e = cc

toggle_apart :
    (status : SessionStatus) (s : ModalState)
    → is_in_session status ≡ false
    → s ≢ session_page
    → toggle_modal status s ≢ session_page
unfolding toggle_modal
toggle_apart status closed apart off = open_apart status closed apart off
toggle_apart status main_menu apart off = close_apart main_menu
toggle_apart status host_setup apart off = close_apart host_setup
toggle_apart status join_setup apart off = close_apart join_setup
toggle_apart status session_page apart off = close_apart session_page

main_menu_apart : (click : Button) → render_main_menu click ≢ session_page
unfolding render_main_menu
main_menu_apart no_button e = cc
main_menu_apart host_button e = cc
main_menu_apart join_button e = cc
main_menu_apart leave_button e = cc
main_menu_apart start_hosting e = cc
main_menu_apart connect_button e = cc
main_menu_apart back e = cc
main_menu_apart enter e = cc

host_setup_apart :
    (status : SessionStatus) (is_host : Bool) (click : Button)
    → is_in_session status ≡ false
    → render_host_setup status is_host click ≢ session_page
unfolding render_host_setup
host_setup_apart status is_host no_button apart = λ e. cc
host_setup_apart status is_host host_button apart = λ e. cc
host_setup_apart status is_host join_button apart = λ e. cc
host_setup_apart status is_host leave_button apart = λ e. cc
host_setup_apart status is_host start_hosting apart = λ e. cc
host_setup_apart status is_host connect_button apart = λ e. cc
host_setup_apart status is_host back apart = λ e. cc
host_setup_apart status is_host enter apart = rw apart (λ e. cc)

join_setup_apart :
    (status : SessionStatus) (click : Button)
    → is_in_session status ≡ false
    → render_join_setup status click ≢ session_page
unfolding render_join_setup
join_setup_apart status no_button apart = rw apart (λ e. cc)
join_setup_apart status host_button apart = rw apart (λ e. cc)
join_setup_apart status join_button apart = rw apart (λ e. cc)
join_setup_apart status leave_button apart = rw apart (λ e. cc)
join_setup_apart status start_hosting apart = rw apart (λ e. cc)
join_setup_apart status connect_button apart = rw apart (λ e. cc)
join_setup_apart status back apart = rw apart (λ e. cc)
join_setup_apart status enter apart = rw apart (λ e. cc)

render_apart :
    (status : SessionStatus) (is_host : Bool) (click : Button) (s : ModalState)
    → is_in_session status ≡ false
    → s ≢ session_page
    → render status is_host click s ≢ session_page
unfolding render
render_apart status is_host click closed apart off = off
render_apart status is_host click main_menu apart off = main_menu_apart click
render_apart status is_host click host_setup apart off = host_setup_apart status is_host click apart
render_apart status is_host click join_setup apart off = join_setup_apart status click apart
render_apart status is_host click session_page apart off = absurd (off refl)

step_apart : (e : Event) (s : ModalState) → IsApart e → s ≢ session_page → step e s ≢ session_page
unfolding step
step_apart (opened status) s apart off = open_apart status s apart off
step_apart (toggled status) s apart off = toggle_apart status s apart off
step_apart shut s apart off = close_apart s
step_apart (drawn status is_host click) s apart off = render_apart status is_host click s apart off

-- The page of the session comes up only at an event at which the session is joined: however often
-- the overlay is opened, toggled, closed, drawn and clicked otherwise, another page stays another.
pub run_apart :
    (es : List Event) (s : ModalState) → All IsApart es → s ≢ session_page → run es s ≢ session_page
unfolding run
run_apart [] s apart off = off
run_apart (e ∷ es) s (apart, aparts) off = run_apart es (step e s) aparts (step_apart e s apart off)
