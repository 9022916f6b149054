-- ===== src/Client/Connect/Examples.antt =====
-- The theorems on registration and connections, at runs of them.
use gjallarhorn.Prelude.{
  ◌≡◌, refl, true, false, ◌&&◌, not, if◌then◌else◌, List, [], ◌∷◌, none, some, map,
}
use gjallarhorn.Prelude.Bytes.{bytes_equal}
use gjallarhorn.Client.Connect.{
  PkgStatus, not_registered, check_pkg_status, register_all, Attempt, refused, dropped, convo,
  add_friend, dialing, connect_loop, error_connecting, connected, disconnected,
}
use gjallarhorn.Client.Connect.Registering.{settle, register_all-check_pkg_status}

abbrev pkgs : List PkgStatus
pkgs =
    record { address = 1 ∷ []; error = none }
    ∷ record { address = 2 ∷ []; error = some (not_registered (7 ∷ [])) }
    ∷ []

abbrev attempts : List Attempt
attempts = refused (1 ∷ []) ∷ refused (1 ∷ []) ∷ dropped (2 ∷ []) ∷ refused (1 ∷ []) ∷ []

attempts_run :
    connect_loop none attempts
    ≡ error_connecting (1 ∷ []) ∷ connected ∷ disconnected (2 ∷ []) ∷ error_connecting (1 ∷ []) ∷ []
unfolding connect_loop bytes_equal
attempts_run = refl

register_all-check_pkg_status_example :
    ((register_all (λ address. none) pkgs false).0
      ≡ (if (check_pkg_status (map (settle (λ address. none)) pkgs)).0 then true else false))
    × ((register_all (λ address. none) pkgs false).1 ≡ (
        if (check_pkg_status (map (settle (λ address. none)) pkgs)).0 && not false
        then convo ∷ add_friend ∷ dialing ∷ []
        else []))
register_all-check_pkg_status_example =
    register_all-check_pkg_status (λ address. none) pkgs false (λ e. cc)
