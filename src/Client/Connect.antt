-- ===== src/Client/Connect.antt =====
-- Registration and connections of the client: cmd/gjallarhorn-client/connect.go. What the servers
-- of the public keys (PKGs) answer is an argument; what is printed is a list.
pub mod Status
pub mod Registering
pub mod Retries
mod Examples
use gjallarhorn.Prelude.{
  ℕ, zero, suc, Bool, true, false, not, List, [], ◌∷◌, ◌++◌, Option, none, some, if◌then◌else◌,
  ◌==◌, length, map,
}
use gjallarhorn.Prelude.Bytes.{Bytes, bytes_equal}

-- An error is a `pkg.Error` with its code and its text, or another one.
pub data StatusError : Type 0 where
  not_registered : Bytes → StatusError
  invalid_signature : Bytes → StatusError
  other_code : Bytes → StatusError
  other_error : Bytes → StatusError

pub record PkgStatus : Type 0 where
  pub address : Bytes
  pub error : Option StatusError

-- `statusString`.
pub data StatusText : Type 0 where
  ok : StatusText
  username_not_registered : StatusText
  username_taken : StatusText
  error_text : Bytes → StatusText

unfoldable pub status_string : Option StatusError → StatusText
status_string none = ok
status_string (some (not_registered text)) = username_not_registered
status_string (some (invalid_signature text)) = username_taken
status_string (some (other_code text)) = error_text text
status_string (some (other_error text)) = error_text text

pub data Line : Type 0 where
  already_registered : Bytes → Line
  status_error : Bytes → Bytes → Line
  failed_to_register : Bytes → Bytes → Line
  registered : Bytes → Line

pub data Warning : Type 0 where
  not_registered_anywhere : Warning
  inconsistent_status : List (Bytes × StatusText) → Warning
  registration_status : List Line → Warning

-- One turn of the loop over the two counts, `numOK` and `numUnregistered`.
abbrev pub count_one : Option StatusError → ℕ × ℕ → ℕ × ℕ
count_one none (num_ok, num_unregistered) = (suc num_ok, num_unregistered)
count_one (some (not_registered text)) (num_ok, num_unregistered) = (num_ok, suc num_unregistered)
count_one (some (invalid_signature text)) counts = counts
count_one (some (other_code text)) counts = counts
count_one (some (other_error text)) counts = counts

unfoldable pub count_stats : List PkgStatus → ℕ × ℕ
count_stats [] = (0, 0)
count_stats (st ∷ stats) = count_one st.error (count_stats stats)

unfoldable pub check_pkg_status : List PkgStatus → Bool × List Warning
unfolding count_stats status_string
check_pkg_status stats =
    let (num_ok, num_unregistered) = count_stats stats in
    if num_unregistered == length stats
    then (false, not_registered_anywhere ∷ [])
    else if num_ok == length stats
    then (true, [])
    else (
      false,
      inconsistent_status (map (λ (st : PkgStatus). (st.address, status_string st.error)) stats)
          ∷ [],
    )

pub data ConnectService : Type 0 where
  convo : ConnectService
  add_friend : ConnectService
  dialing : ConnectService

-- `EnsureConnected` starts the three loops once; the state is that of `connectOnce`.
unfoldable pub ensure_connected : Bool → Bool × List ConnectService
ensure_connected once = (true, if once then [] else convo ∷ add_friend ∷ dialing ∷ [])

unfoldable pub connect : List PkgStatus → Bool → Bool × List ConnectService × List Warning
unfolding check_pkg_status ensure_connected
connect stats once =
    let (good, warnings) = check_pkg_status stats in
    let (once', started) = ensure_connected once in
    if good then (once', started, warnings) else (once, [], warnings)

-- One turn of the loop in `RegisterAll`; `register` gives the error, if there is one.
abbrev pub register_result : Bytes → Option Bytes → Line × Bool
register_result address none = (registered address, true)
register_result address (some err) = (failed_to_register address err, false)

abbrev pub register_one : (Bytes → Option Bytes) → Bytes → Option StatusError → Line × Bool
register_one register address none = (already_registered address, true)
register_one register address (some (not_registered text)) =
    register_result address (register address)
register_one register address (some (invalid_signature text)) = (status_error address text, false)
register_one register address (some (other_code text)) = (status_error address text, false)
register_one register address (some (other_error text)) = (status_error address text, false)

unfoldable pub register_stats : (Bytes → Option Bytes) → List PkgStatus → List Line × ℕ
register_stats register [] = ([], 0)
register_stats register (st ∷ stats) =
    let (line, good) = register_one register st.address st.error in
    let (lines, num_ok) = register_stats register stats in
    (line ∷ lines, if good then suc num_ok else num_ok)

unfoldable pub register_all :
    (Bytes → Option Bytes) → List PkgStatus → Bool → Bool × List ConnectService × List Warning
unfolding register_stats ensure_connected
register_all register stats once =
    let (lines, num_ok) = register_stats register stats in
    let (once', started) = ensure_connected once in
    let warnings = registration_status lines ∷ [] in
    if num_ok == length stats then (once', started, warnings) else (once, [], warnings)

-- What a turn of `connectLoop` meets: an error to connect, or a connection and the end of it.
pub data Attempt : Type 0 where
  refused : Bytes → Attempt
  dropped : Bytes → Attempt

pub data LoopNote : Type 0 where
  error_connecting : Bytes → LoopNote
  connected : LoopNote
  disconnected : Bytes → LoopNote

abbrev pub is_new : Option Bytes → Bytes → Bool
is_new none err = true
is_new (some prev) err = not (bytes_equal err prev)

-- The notes that `connectLoop` prints on its way through these attempts, from a `prevErr` on.
unfoldable pub connect_loop : Option Bytes → List Attempt → List LoopNote
connect_loop prev [] = []
connect_loop prev (refused err ∷ rest) =
    let new = is_new prev err in
    let notes = connect_loop (if new then some err else prev) rest in
    if new then error_connecting err ∷ notes else notes
connect_loop prev (dropped err ∷ rest) = connected ∷ disconnected err ∷ connect_loop none rest
