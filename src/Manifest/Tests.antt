-- ===== src/Manifest/Tests.antt =====
-- A manifest that asks for a sheet and the network, twice.
use kuula.Prelude.{◌≡◌, refl, true, none, [], ◌∷◌}
use kuula.Prelude.Bytes.{codes}
use kuula.Prelude.Result.{ok}
use kuula.Manifest.{
  Manifest, Library, File, ScreenMode, Buttons, Service, parse, read_file, accept, check_names,
  check_license, check_author, valid_asset_name, all_words, is_word, has_control, dedup,
}
use kuula.Manifest.Parsed.{IsParsed, parse-IsParsed}

abbrev sections : File
sections = record {
  title = codes "Tiles";
  author = codes "ann";
  license = none;
  screen_mode = ScreenMode.low;
  buttons = Buttons.all;
  services = Service.net ∷ Service.net ∷ [];
  sheets = codes "hero-2" ∷ [];
  maps = [];
}

abbrev reader : Library
reader = record { from_str = λ text. ok sections; knows = λ id. true }

abbrev tiles : Manifest
tiles = record {
  title = codes "Tiles";
  author = codes "ann";
  license = none;
  screen_mode = ScreenMode.low;
  buttons = Buttons.all;
  preload_sheets = codes "hero-2" ∷ [];
  preload_maps = [];
  services = Service.net ∷ [];
}

tiles_lem : parse reader (codes "[cart]") ≡ ok tiles
unfolding parse read_file accept check_names check_license check_author valid_asset_name all_words
    is_word has_control dedup
tiles_lem = refl

parse-IsParsed_example : IsParsed tiles
parse-IsParsed_example = parse-IsParsed reader (codes "[cart]") tiles tiles_lem
