-- ===== src/Manifest.antt =====
-- The manifest of a cart, crates/kuula-core/src/manifest.rs and manifest/license.rs: what `parse` makes
-- of a file that the TOML library has read, and the masks of the buttons. A `String` is its bytes.
pub mod Parsed
mod Tests
use kuula.Prelude.{
  ℕ, ◌+◌, ◌*◌, Bool, true, false, ◌&&◌, ◌||◌, Option, none, some, List, [], ◌∷◌, ◌++◌, ltb, leb,
  length, take, ◌==◌, if◌then◌else◌,
}
use kuula.Prelude.Bytes.{Bytes, codes}
use kuula.Prelude.Result.{Result, ok, err, ◌>>=◌, ◌>>◌}

pub data License : Type 0 where
  all : Bytes → License
  split : Bytes → Bytes → License

pub data ScreenMode : Type 0 where
  low high : ScreenMode

unfoldable pub size : ScreenMode → ℕ × ℕ
size ScreenMode.low = (320, 240)
size ScreenMode.high = (640, 480)

pub data Buttons : Type 0 where
  two all : Buttons

abbrev pub base_buttons : ℕ
base_buttons = 63

abbrev pub cart_buttons : ℕ
cart_buttons = 16383

-- Buttons::mask
unfoldable pub mask : Buttons → ℕ
mask Buttons.two = base_buttons
mask Buttons.all = cart_buttons

pub data Service : Type 0 where
  net : Service

pub record Manifest : Type 0 where
  pub title : Bytes
  pub author : Bytes
  pub license : Option License
  pub screen_mode : ScreenMode
  pub buttons : Buttons
  pub preload_sheets : List Bytes
  pub preload_maps : List Bytes
  pub services : List Service

abbrev pub default_manifest : Manifest
default_manifest = record {
  title = [];
  author = [];
  license = none;
  screen_mode = ScreenMode.high;
  buttons = Buttons.two;
  preload_sheets = [];
  preload_maps = [];
  services = [];
}

-- `self.services.contains(&s)`, with one service.
unfoldable pub has_service : Service → Manifest → Bool
has_service Service.net m = elim m.services [ [] ↦ false | s ∷ rest ↦ true ]

-- A manifest's error; the texts are what they are formatted from.
pub data Problem : Type 0 where
  too_large : Problem
  toml : Bytes → Problem
  bad_name : Bytes → Problem
  unknown_license : Bytes → Problem
  bad_author : Problem

pub record ManifestError : Type 0 where
  pub message : Problem
  pub line : Option ℕ

abbrev pub max_manifest_bytes : ℕ
max_manifest_bytes = 64 * 1024

abbrev pub max_name : ℕ
max_name = 64

abbrev pub max_author : ℕ
max_author = 128

-- The sections of the file as the TOML library reads them, the missing keys filled in.
pub record File : Type 0 where
  pub title : Bytes
  pub author : Bytes
  pub license : Option License
  pub screen_mode : ScreenMode
  pub buttons : Buttons
  pub services : List Service
  pub sheets : List Bytes
  pub maps : List Bytes

-- The libraries: `toml::from_str`, whose error has a message and may have the place where it starts,
-- and `spdx::license_id` with the comparison of the name it finds.
pub record Library : Type 0 where
  pub from_str : Bytes → Result (Bytes × Option ℕ) File
  pub knows : Bytes → Bool

unfoldable pub is_word : ℕ → Bool
is_word b =
    (leb 97 b && leb b 122)
    || (leb 65 b && leb b 90)
    || (leb 48 b && leb b 57)
    || b == 95
    || b == 45

unfoldable pub all_words : Bytes → Bool
unfolding is_word
all_words [] = true
all_words (b ∷ bs) = is_word b && all_words bs

unfoldable pub valid_asset_name : Bytes → Bool
unfolding all_words
valid_asset_name name =
    (if length name == 0 then false else true) && leb (length name) max_name && all_words name

-- `chars().any(char::is_control)` on UTF-8: below a space, DEL, and the upper controls as two bytes.
unfoldable pub has_control : Bytes → Bool
has_control [] = false
has_control (b ∷ []) = ltb b 32 || b == 127
has_control (b ∷ d ∷ bs) =
    ltb b 32 || b == 127 || (b == 0xc2 && leb 0x80 d && leb d 0x9f) || has_control (d ∷ bs)

unfoldable pub check_names : List Bytes → Result ManifestError (Unit {0})
check_names [] = ok tt
check_names (n ∷ names) =
    if valid_asset_name n
    then check_names names
    else err (record { message = bad_name n; line = none })

unfoldable pub check_id : Library → Bytes → Result ManifestError (Unit {0})
check_id lib id =
    if lib.knows id then ok tt else err (record { message = unknown_license id; line = none })

-- License::validate
unfoldable pub validate : Library → License → Result ManifestError (Unit {0})
unfolding check_id
validate lib (License.all id) = check_id lib id
validate lib (License.split code assets) = check_id lib code >> check_id lib assets

unfoldable pub check_license : Library → Option License → Result ManifestError (Unit {0})
unfolding validate
check_license lib none = ok tt
check_license lib (some license) = validate lib license

unfoldable pub check_author : Bytes → Result ManifestError (Unit {0})
unfolding has_control
check_author author =
    if ltb max_author (length author) || has_control author
    then err (record { message = bad_author; line = none })
    else ok tt

-- `services.dedup()`: all services are the same one.
unfoldable pub dedup : List Service → List Service
dedup [] = []
dedup (Service.net ∷ rest) = Service.net ∷ []

unfoldable pub newlines : Bytes → ℕ
newlines [] = 0
newlines (b ∷ bs) = (if b == 10 then 1 else 0) + newlines bs

unfoldable pub toml_error : Bytes → Bytes × Option ℕ → ManifestError
unfolding newlines
toml_error text (message, none) = record { message = toml message; line = none }
toml_error text (message, some start) = record {
  message = toml message;
  line = some (newlines (take start text) + 1);
}

unfoldable pub read_file : Library → Bytes → Result ManifestError File
unfolding toml_error
read_file lib text = elim (lib.from_str text) [
  | ok file ↦ ok file
  | err e ↦ err (toml_error text e)
]

-- What `parse` does with the file.
unfoldable pub accept : Library → File → Result ManifestError Manifest
unfolding check_names check_license check_author dedup
accept lib file = do
  check_names file.sheets
  check_names file.maps
  check_license lib file.license
  check_author file.author
  ok (record {
    title = file.title;
    author = file.author;
    license = file.license;
    screen_mode = file.screen_mode;
    buttons = file.buttons;
    preload_sheets = file.sheets;
    preload_maps = file.maps;
    services = dedup file.services;
  })

-- Manifest::parse
unfoldable pub parse : Library → Bytes → Result ManifestError Manifest
unfolding read_file accept
parse lib text =
    if ltb max_manifest_bytes (length text)
    then err (record { message = too_large; line = none })
    else read_file lib text >>= accept lib
