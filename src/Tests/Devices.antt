-- ===== src/Tests/Devices.antt =====
-- The theorems on files at concrete inputs: a disk with nothing on it, a device with a secret, and a
-- server with one device.
use pedge.Prelude.{
  All, ℕ, zero, suc, ◌<◌, ◌≡◌, ◌≢◌, refl, arith, take, List, [], ◌∷◌, ◌++◌, Bool, true, false,
  Option, none, some, ◌⊎◌, replicate, length-replicate, ◌==◌, ◌&&◌, not, if◌then◌else◌,
}
use pedge.Exceptions.{Result, ok, err, os_error}
use pedge.Python.Bytes.{Bytes, Str, set_slice, erased}
use pedge.State.{codes, str_eq}
use pedge.Tests.{is_ok, value_of, ok_of}
use pedge.Python.Path.{join, is_empty, splitext, contains, dirname}
use pedge.Python.Hex.{unhex}
use pedge.Python.Struct.{pack, pack_into}
use pedge.Page.{checksum}
use pedge.Python.Crc.{crc32}
use pedge.Disk.{Disk, IsDisk}
use pedge.Keys.{KeyArgs, Draws, generate_key}
use pedge.Keys.File.{IsKeyFile, IsHmac, generate_key-IsKeyFile}
use pedge.Page.Crypt.{encr_key_input}
use pedge.Serve.{Host, send_from_directory, unauthorized, hash_file, serve_configuration}
use pedge.Serve.Auth.{Granted, serve_configuration-Granted}
use pedge.Csv.{cr, lf, write_csv, read_csv, read_input}
use pedge.Csv.Whole.{AreFields, read_csv-write_csv}
use pedge.Csv.Config.{
  Environment, settings_of, read_settings, csv_gen, add_string_data, header, mqtt_of,
}
use pedge.Csv.Config.Trip.{IsEntry, IsField-simple, device_rows, read_input-csv_gen}
use pedge.Csv.Config.Lost.{read_csv-comment_line}

avoids : ℕ → Str → Bool
avoids d [] = true
avoids d (c ∷ s) = not (c == d) && avoids d s

-- Rows with a quote, a comma and a line feed.
abbrev rows : List (List Str)
rows =
    (codes "key" ∷ codes "value" ∷ [])
    ∷ (codes "say \"hi\"" ∷ (codes "a,b" ++ (lf ∷ codes "c")) ∷ [])
    ∷ []

rows-AreFields : All AreFields rows
rows-AreFields = (
  (IsField-simple true (codes "key") refl, (IsField-simple false (codes "value") refl, tt)),
  (
    (
      IsField-simple true (codes "say \"hi\"") refl,
      (IsField-simple false (codes "a,b" ++ (lf ∷ codes "c")) refl, tt),
    ),
    tt,
  ),
)

read_csv-write_csv_example : read_csv (write_csv rows) ≡ ok rows
read_csv-write_csv_example = read_csv-write_csv rows (tt, (tt, tt)) rows-AreFields

-- A device with a broker, a reserved secret and a directory among its secrets, and one more secret.
abbrev pub env : Environment
env = record {
  mqtt_broker = some (codes "10.0.0.1");
  mqtt_port = some (codes "1883");
  mqtt_username = some (codes "esp32");
  mqtt_password = some (codes "p,w");
  mqtt_sensors_topic = none;
  secrets = some (
      record { file = codes "password"; isfile = true; contents = some (codes "p,w") }
      ∷ record { file = codes "..data"; isfile = false; contents = none }
      ∷ record { file = codes "wifi"; isfile = true; contents = some (codes "home") }
      ∷ []);
}

abbrev pub settings : List (Str × Str)
settings = (codes "wifi", codes "home") ∷ []

pub settings-found : settings_of env ≡ ok settings
unfolding settings_of read_settings
settings-found = refl

abbrev pub written : Result Str
written = csv_gen env

written_ok : is_ok written ≡ true
unfolding csv_gen settings_of read_settings
written_ok = refl

pub mqtt-IsEntry : All IsEntry (mqtt_of env)
mqtt-IsEntry = (
  (IsField-simple true (codes "BROKER") refl, IsField-simple false (codes "10.0.0.1") refl),
  (
    (IsField-simple true (codes "PORT") refl, IsField-simple false (codes "1883") refl),
    (
      (IsField-simple true (codes "USERNAME") refl, IsField-simple false (codes "esp32") refl),
      (
        (IsField-simple true (codes "PASSWORD") refl, IsField-simple false (codes "p,w") refl),
        ((IsField-simple true (codes "SENSORS_TOPIC") refl, IsField-simple false [] refl), tt),
      ),
    ),
  ),
)

pub settings-IsEntry : All IsEntry settings
settings-IsEntry =
    ((IsField-simple true (codes "wifi") refl, IsField-simple false (codes "home") refl), tt)

read_input-csv_gen_example : read_input (value_of [] written) ≡ ok (device_rows env settings)
read_input-csv_gen_example =
    read_input-csv_gen env settings settings-found mqtt-IsEntry settings-IsEntry
      (ok_of [] written written_ok)

All-avoids : (d : ℕ) (s : Str) → avoids d s ≡ true → All (λ c. c ≢ d) s
unfolding avoids
All-avoids d [] h = tt
All-avoids d (c ∷ s) h = ((λ e. ground (arith, e, h)), All-avoids d s (ground arith))

read_csv-comment_line_example :
    read_csv (
      write_csv (
        (header ∷ [])
        ++ (add_string_data
              (codes "run", codes "set -e" ++ (lf ∷ b'#' ∷ (codes " go" ++ (lf ∷ codes "go"))))
            ∷ [])))
    ≡ read_csv (
        write_csv (
          (header ∷ [])
          ++ (add_string_data (codes "run", codes "set -e" ++ (lf ∷ codes "go")) ∷ [])))
unfolding avoids
read_csv-comment_line_example =
    read_csv-comment_line (header ∷ []) [] (codes "run") (codes "set -e") (codes "go") (codes " go")
      (All-avoids lf (codes " go") refl) (All-avoids cr (codes "run") refl)
      (All-avoids cr (codes "set -e") refl) (All-avoids cr (codes " go") refl)
      (All-avoids cr (codes "go") refl)
      (
        (
          All-avoids cr (codes "key") refl,
          (
            All-avoids cr (codes "type") refl,
            (All-avoids cr (codes "encoding") refl, (All-avoids cr (codes "value") refl, tt)),
          ),
        ),
        tt,
      )
      tt

-- A disk as its files by path; every directory is there.
abbrev pub disk : Disk (Str → Option Bytes)
disk = record {
  isdir = λ d path. true;
  mkpath = λ path d. d;
  read_file = λ d path. d path;
  write_file = λ path contents d other. if str_eq path other then some contents else d other;
  remove_file = λ path d other. if str_eq path other then none else d other;
  expanduser = λ path. path;
}

str_eq_refl : (s : Str) → str_eq s s ≡ true
str_eq_refl [] = refl
str_eq_refl (c ∷ s) = ground (arith, str_eq_refl s)

pub disk-IsDisk : IsDisk disk
disk-IsDisk = record {
  read_file-write_file = λ path contents d. rw (str_eq_refl path) refl;
  read_file-remove_file = λ path d. rw (str_eq_refl path) refl;
}

abbrev pub hmac : Bytes → Bytes → Bytes
hmac key message = replicate 32 5

bytes_of : (n : ℕ) → All (λ b. b < 256) (replicate n 5)
bytes_of zero = tt
bytes_of (suc n) = (omega arith, bytes_of n)

hmac-IsHmac : IsHmac hmac
hmac-IsHmac = record {
  length-hmac = λ key message. length-replicate {A = ℕ} 32 5;
  bytes-hmac = λ key message. bytes_of 32;
}

-- A key under an HMAC key that is drawn.
abbrev args : KeyArgs
args = record {
  outdir = codes "/app";
  keyfile = codes "key.bin";
  key_protect_hmac = true;
  kp_hmac_keygen = true;
  kp_hmac_keyfile = [];
  kp_hmac_inputkey = [];
}

abbrev pub draws : Draws
draws = record {
  timestamp = codes "01-31_12-00";
  hmac_digits = replicate 64 b'c';
  key_digits = replicate 128 b'7';
}

abbrev run : Result Str × (Str → Option Bytes)
run = generate_key disk hmac args draws (λ path. none)

run_ok : is_ok run.0 ≡ true
unfolding generate_key is_empty splitext contains join dirname unhex pack_into pack checksum crc32
    set_slice erased
run_ok = refl

pub returned :
    {A : Type 0} (a : A) (r : Result A × (Str → Option Bytes))
    → is_ok r.0 ≡ true
    → r ≡ (ok (value_of a r.0), r.1)
returned a (ok b, d) h = refl
returned a (err e, d) h = cc

generate_key-IsKeyFile_example :
    (path : Str) × (file : Bytes) × (key_bytes : Bytes) × (run.1 path ≡ some file)
    × IsKeyFile key_bytes file
    × (encr_key_input (some (value_of [] run.0)) ≡ ok key_bytes)
    × (encr_key_input (some (take 64 file)) ≡ ok key_bytes)
generate_key-IsKeyFile_example =
    generate_key-IsKeyFile disk hmac args draws disk-IsDisk hmac-IsHmac refl (λ path. none)
      (returned [] run run_ok)

-- A server with the hash file of one device.
abbrev hash : Bytes
hash = codes "secret"

abbrev host : Host
host = record {
  exists = str_eq (hash_file (codes "esp32"));
  read = λ path. some hash;
  verify = λ h password. elim password [ none ↦ false | some p ↦ str_eq h p ];
}

serve_configuration-Granted_example :
    (Granted host (codes "esp32") (some (some hash))
      × (serve_configuration host (codes "esp32") (codes "nvs.bin") (some (some hash))
          ≡ ok (send_from_directory (codes "/data/configurations/esp32") (codes "nvs.bin"))))
    ⊎ (((Granted host (codes "esp32") (some (some hash)) → ⊥)
          × (serve_configuration host (codes "esp32") (codes "nvs.bin") (some (some hash))
              ≡ ok unauthorized))
        ⊎ ((host.exists (hash_file (codes "esp32")) ≡ true)
            × (host.read (hash_file (codes "esp32")) ≡ none)
            × (serve_configuration host (codes "esp32") (codes "nvs.bin") (some (some hash))
                ≡ err os_error)))
unfolding join
serve_configuration-Granted_example =
    serve_configuration-Granted host (codes "esp32") (codes "nvs.bin") (some (some hash))
