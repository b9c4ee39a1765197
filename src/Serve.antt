-- ===== src/Serve.antt =====
-- services/firmware-artefacts/serve.py: who is sent which file. Flask's routing and sending, the
-- password hasher and the file system are parameters.
pub mod Auth
use pedge.Prelude.{ℕ, Bool, true, false, ◌++◌, Option, none, some, if◌then◌else◌}
use pedge.Exceptions.{Result, ok, err, or_raise, os_error, ◌>>=◌}
use pedge.Python.Bytes.{Bytes, Str}
use pedge.Python.Number.{strip, is_ascii_space}
use pedge.Python.Path.{join}
use pedge.State.{codes}

abbrev pub firmware_dir : Str
firmware_dir = codes "/data/firmwares"

abbrev pub configurations_dir : Str
configurations_dir = codes "/data/configurations"

abbrev pub auth_dir : Str
auth_dir = codes "/data/auth"

-- What a handler answers: a call of `send_from_directory`, or `abort(401)`.
pub data Response : Type 0 where
  send_from_directory : Str → Str → Response
  unauthorized : Response

-- `os.path.exists` and a file's contents, and whether `PasswordHasher.verify(hash, password)`
-- returns: the code takes every exception of it for a refusal. `request.authorization` may carry no
-- password.
pub record Host : Type 0 where
  pub exists : Str → Bool
  pub read : Str → Option Bytes
  pub verify : Bytes → Option Str → Bool

abbrev pub hash_file : Str → Str
hash_file device = join auth_dir (device ++ codes ".hash")

module _ (host : Host) where
  unfoldable pub check_auth : Str → Option Str → Result Bool
  check_auth device password =
      if host.exists (hash_file device)
      then (or_raise (host.read (hash_file device)) os_error >>= λ contents.
          ok (host.verify (strip is_ascii_space contents) password))
      else ok false

  -- `requires_auth`, around a handler of a device.
  unfoldable pub requires_auth : (Str → Response) → Str → Option (Option Str) → Result Response
  unfolding check_auth
  requires_auth f device none = ok unauthorized
  requires_auth f device (some password) = do
    granted ← check_auth device password
    ok (if granted then f device else unauthorized)

  unfoldable pub serve_configuration : Str → Str → Option (Option Str) → Result Response
  unfolding requires_auth
  serve_configuration device filename auth =
      requires_auth (λ d. send_from_directory (join configurations_dir d) filename) device auth

-- Firmware is sent to anybody.
unfoldable pub serve_firmware : Str → Response
serve_firmware filename = send_from_directory firmware_dir filename

-- What the health check answers, as JSON.
pub record Health : Type 0 where
  pub status : Str
  pub message : Str

-- The answer and its HTTP status.
abbrev pub health_check : Health × ℕ
health_check = (
  record { status = codes "healthy"; message = codes "The application is running smoothly." },
  200,
)
