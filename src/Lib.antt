-- ===== src/Lib.antt =====
-- A model of the device configuration of pedge: the script that writes a device's settings as a CSV
-- file, services/esp32-config-builder/csv_gen.py, the NVS partition generator beside it,
-- nvs_partition_gen.py, the tool that turns such a file into the image of a non-volatile storage
-- partition of an ESP32, and the server that hands images out, services/firmware-artefacts/serve.py.
-- The tool reads rows from the file, opens an object of pages, writes each row as entries, in the
-- clear or encrypted, with new pages as the old ones fill, and closes the object: its pages in order
-- are the image. A second copy of the tool stands in
-- services/esp32-firmware-builder/esp-idf-nvs-partition-gen/.
--
-- Parts and files:
--   * Prelude, Prelude/*: numbers, lists, integers and Boolean tests.
--   * Exceptions: the tool's exceptions, Python's that it lets through, and results.
--   * Python/*: the built-ins that the code uses, as far as it uses them: slices and stores of
--     `bytearray`, `struct`, `zlib.crc32`, hex, UTF-8, `int`, base64 and paths.
--   * State, State/ItemType: the objects `Page` and `NVS`, the constants of the format, values and
--     encodings.
--   * Cipher: AES-XTS of the package cryptography, a parameter. Its laws, `IsXtsAes`, are that it
--     keeps the length, both ways, and that decryption undoes encryption.
--   * Page, Page/*: `Page.__init__`, `set_header`, `write_bitmaparray` (Page), `encrypt_data` and
--     `encrypt_entry` (Page/Crypt), `write_entry_to_buf`, `set_crc_header`, `write_primitive_data`
--     (Page/Entry); Page/Bitmap, Page/Write, Page/Init and Page/Shape hold the lemmas.
--   * Varlen, Varlen/*: `write_varlen_data`, `write_single_page_entry` and the chunk loop of
--     `write_varlen_binary_data`.
--   * Nvs, Nvs/*: `create_new_page`, `nvs_open`, `nvs_close` and `get_binary_data`; Nvs/Space is the
--     invariant, Nvs/Reach the steps that an object can take, Nvs/Keeps what they never change.
--   * Entries, Entries/*: `write_namespace`, `NVS.write_entry` and the module's `write_entry`.
--   * Generate, Generate/*: `check_size`, `generate` and `encrypt`, from the rows to the image;
--     Generate/Output is `generate` and `encrypt` with their files, from the options on.
--   * Decrypt, Decrypt/*: `decrypt_data` and `decrypt`, from bytes to bytes; Decrypt/Output is
--     `decrypt` with its files.
--   * Disk: the file system, a parameter, and the functions that may raise and change it.
--   * Keys, Keys/*: `set_target_filepath` and `generate_key`; HMAC-SHA256 is a parameter.
--   * Csv, Csv/*: Python's `csv` writer and reader with their defaults, text mode, and the filter of
--     comments of `generate`; Csv/Config and its children are services/esp32-config-builder/
--     csv_gen.py, which writes the file that the tool reads.
--   * CommandLine, CommandLine/*: `main`, the arguments of its four commands and the call of the
--     chosen one, by the values of its arguments (CommandLine/Calls); `argparse` is a parameter,
--     which gives every declared argument a value.
--   * Stored, Stored/*: the layout of the entries of the format, described on its own, and the rows as
--     entries of an image in the clear; blobs are left aside there, and Stored/Blob has the chunks
--     and the index that one of version 2 becomes.
--   * Serve, Serve/Auth: services/firmware-artefacts/serve.py; Flask, the password hasher and the
--     file system are parameters.
--   * Tests, Tests/*: the theorems at concrete inputs.
--
-- The methods of NVS are actions: functions from the object to a result and the object after it,
-- which keeps what was written before an exception. The list of pages has the newest first; its head
-- is the page that `cur_page` and the `self` of the page's methods name, so a store into either is
-- seen through both. A page is a record, and its methods return the new page; where a method raises
-- half way, the page of the model is the one before the call.
--
-- Fuel: the loop of `__exit__` has a round for each 4096 bytes of the size left and one more, and
-- the loop of a blob a round for each byte and two more. The loop of `decrypt` reads an entry for
-- each byte of the image at most.
--
-- Outside the model: the parsing of the command line and the messages that are printed. The
-- definitions of Generate take the outcome of `generate_key`, the contents of the files that rows
-- name and the rows as arguments; those of Generate/Output take them from the disk. There the
-- rows are read before the first one is written, so where both would raise, the reader's
-- exception is the one met. Writing to the disk and making a directory do not fail in the model.
-- A record of the CSV reader has no limit on a field's length (Python's is 131072), and a header
-- without one of the four columns is a KeyError at once, not at the first row. `int` reads ASCII
-- digits only, and `lower` changes ASCII letters only.
-- Not modelled: the routes of the server, the operator (Go), the firmware (C++), the charts, the fleet
-- and the user interface.
pub mod Prelude
pub mod Exceptions
pub mod Python
pub mod State
pub mod Cipher
pub mod CommandLine
pub mod Page
pub mod Nvs
pub mod Varlen
pub mod Entries
pub mod Generate
pub mod Decrypt
pub mod Disk
pub mod Keys
pub mod Stored
pub mod Serve
pub mod Csv
pub mod Tests
