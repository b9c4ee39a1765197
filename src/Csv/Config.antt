-- ===== src/Csv/Config.antt =====
-- services/esp32-config-builder/csv_gen.py: the rows of a device's configuration.
pub mod Trip
pub mod Lost
pub mod Image
pub mod Stored
use pedge.Prelude.{
  List, [], ◌∷◌, ◌++◌, Bool, true, false, ◌&&◌, ◌||◌, not, Option, none, some, map, if◌then◌else◌,
}
use pedge.Exceptions.{Result, ok, err, or_raise, os_error, ◌>>=◌}
use pedge.Python.Bytes.{Str}
use pedge.State.{codes, str_eq}
use pedge.Csv.{write_csv}

-- A name in the directory of secrets, whether it is a file, and the text that it holds, if it can be
-- read.
pub record Secret : Type 0 where
  pub file : Str
  pub isfile : Bool
  pub contents : Option Str

-- The environment variables that the script reads, and the directory of secrets, if it exists.
pub record Environment : Type 0 where
  pub mqtt_broker : Option Str
  pub mqtt_port : Option Str
  pub mqtt_username : Option Str
  pub mqtt_password : Option Str
  pub mqtt_sensors_topic : Option Str
  pub secrets : Option (List Secret)

-- None is written as an empty field.
abbrev pub text_of : Option Str → Str
text_of none = []
text_of (some s) = s

unfoldable pub start_namespace : Str → List Str
start_namespace namespace = namespace ∷ codes "namespace" ∷ [] ∷ [] ∷ []

unfoldable pub add_string_data : Str × Str → List Str
add_string_data (key, value) = key ∷ codes "data" ∷ codes "string" ∷ value ∷ []

abbrev pub is_reserved : Str → Bool
is_reserved file = str_eq file (codes "username") || str_eq file (codes "password")

-- The dict `settings`, in the order of the directory.
unfoldable pub read_settings : List Secret → Result (List (Str × Str))
read_settings [] = ok []
read_settings (secret ∷ secrets) =
    if secret.isfile && not (is_reserved secret.file)
    then (or_raise secret.contents os_error >>= λ contents.
        (read_settings secrets >>= λ settings. ok ((secret.file, contents) ∷ settings)))
    else read_settings secrets

unfoldable pub settings_of : Environment → Result (List (Str × Str))
unfolding read_settings
settings_of env = elim env.secrets [ none ↦ ok [] | some secrets ↦ read_settings secrets ]

abbrev pub mqtt_of : Environment → List (Str × Str)
mqtt_of env =
    (codes "BROKER", text_of env.mqtt_broker)
    ∷ (codes "PORT", text_of env.mqtt_port)
    ∷ (codes "USERNAME", text_of env.mqtt_username)
    ∷ (codes "PASSWORD", text_of env.mqtt_password)
    ∷ (codes "SENSORS_TOPIC", text_of env.mqtt_sensors_topic)
    ∷ []

abbrev pub header : List Str
header = codes "key" ∷ codes "type" ∷ codes "encoding" ∷ codes "value" ∷ []

unfoldable pub namespace_rows : Str → List (Str × Str) → List (List Str)
unfolding start_namespace add_string_data
namespace_rows namespace entries = start_namespace namespace ∷ map add_string_data entries

-- The rows that the script writes, by its settings.
unfoldable pub config_rows : Environment → List (Str × Str) → List (List Str)
unfolding namespace_rows
config_rows env [] = header ∷ namespace_rows (codes "mqtt") (mqtt_of env)
config_rows env (entry ∷ settings) =
    header
    ∷ (namespace_rows (codes "mqtt") (mqtt_of env)
        ++ namespace_rows (codes "settings") (entry ∷ settings))

-- The file that the script leaves.
unfoldable pub csv_gen : Environment → Result Str
unfolding settings_of config_rows
csv_gen env = do settings ← settings_of env; ok (write_csv (config_rows env settings))
