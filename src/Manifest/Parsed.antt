-- ===== src/Manifest/Parsed.antt =====
-- What a manifest that parses promises.
use kuula.Prelude.{
  ◌≤◌, ◌≡◌, true, false, List, [], ◌∷◌, arith, All, length, ltb, inl, inr, Bool-cases,
}
use kuula.Prelude.Bytes.{Bytes}
use kuula.Prelude.Result.{ok, ◌>>=◌, >>=-eq-ok}
use kuula.Manifest.{
  Manifest, File, accept, Service, max_manifest_bytes, Library, max_author, max_name,
  valid_asset_name, all_words, is_word, has_control, check_names, check_license, check_author,
  read_file, dedup, parse,
}

-- A name of an asset: 1 to 64 bytes, each a letter, a digit, `_` or `-`, so that no name leaves its
-- folder.
pub record IsName (name : Bytes) : Type 0 where
  pub some_byte : 1 ≤ length name
  pub short : length name ≤ max_name
  pub words : All (λ b. is_word b ≡ true) name

all_words_lem : (bs : Bytes) → all_words bs ≡ true → All (λ b. is_word b ≡ true) bs
unfolding all_words
all_words_lem [] h = tt
all_words_lem (b ∷ bs) h = ground (arith, h, all_words_lem bs)

valid_asset_name-IsName : (name : Bytes) → valid_asset_name name ≡ true → IsName name
unfolding valid_asset_name
valid_asset_name-IsName name h = record {
  some_byte = ground (arith, h);
  short = ground (arith, h);
  words = all_words_lem name (ground (arith, h));
}

check_names_lem : (names : List Bytes) → check_names names ≡ ok tt → All IsName names
unfolding check_names
check_names_lem [] h = tt
check_names_lem (n ∷ names) h =
    (valid_asset_name-IsName n (ground (arith, h)), check_names_lem names (ground (arith, h)))

pub record IsParsed (m : Manifest) : Type 0 where
  pub sheets : All IsName m.preload_sheets
  pub maps : All IsName m.preload_maps
  pub author_short : length m.author ≤ max_author
  pub author_plain : has_control m.author ≡ false
  pub services : length m.services ≤ 1

check_author_lem :
    (author : Bytes)
    → check_author author ≡ ok tt
    → (length author ≤ max_author) × (has_control author ≡ false)
unfolding check_author
check_author_lem author h = ground (arith, h)

dedup-le : (services : List Service) → length (dedup services) ≤ 1
unfolding dedup
dedup-le [] = omega arith
dedup-le (Service.net ∷ rest) = omega arith

accept-IsParsed : (lib : Library) (file : File) (m : Manifest) → accept lib file ≡ ok m → IsParsed m
unfolding accept
accept-IsParsed lib file m e =
    let (u, sheets, e₂) = >>=-eq-ok (check_names file.sheets) _ e in
    let (v, maps, e₃) = >>=-eq-ok (check_names file.maps) _ e₂ in
    let (w, license, e₄) = >>=-eq-ok (check_license lib file.license) _ e₃ in
    let (x, author, e₅) = >>=-eq-ok (check_author file.author) _ e₄ in
    let names = check_names_lem file.sheets sheets in
    let others = check_names_lem file.maps maps in
    ground (arith, names, others, check_author_lem file.author author, dedup-le file.services, e₅)

-- Whatever the TOML library reads, a manifest that parses names its assets by single plain names,
-- has a short author without control characters, and lists no service twice.
pub parse-IsParsed :
    (lib : Library) (text : Bytes) (m : Manifest) → parse lib text ≡ ok m → IsParsed m
unfolding parse
parse-IsParsed lib text m e = elim (Bool-cases (ltb max_manifest_bytes (length text))) [
  | inl big ↦ absurd (ground (arith, e, big))
  | inr fits ↦
      let e' : (read_file lib text >>= accept lib) ≡ ok m = ground (arith, e, fits) in
      let (file, read, e₁) = >>=-eq-ok (read_file lib text) (accept lib) e' in
      accept-IsParsed lib file m e₁
]
