-- ===== src/AsyncQuery/Location.antt =====
-- The file path of an upload in a query: parseFilePath and its pattern
-- `^https?://([^/]+)/.+/([a-zA-Z0-9\+_\.\-]{32,})$`, whose parts are found at the first and the
-- last slash after the scheme.
use Prim.Native.String.{◌++◌, count}
use Prim.Native.Char.{code}
use odysee_api.Base.{
  drop_prefix, ℕ, String, Bool, true, ◌&&◌, ◌||◌, not, Option, none, some, leb, eqb, ◌==◌, ◌≡◌,
  refl, if◌then◌else◌,
}
use odysee_api.Errors.{plain, Result, ok, err}

pub record FileLocation : Type 0 where
  pub server : String
  pub upload_id : String

-- What stands before and after the first character of a code.
unfoldable pub cut_first : ℕ → String → Option (String × String)
cut_first c String.[] = none
cut_first c (String.◌∷◌ x s) =
    let rest = cut_first c s in
    if eqb (code x) c
    then some ("", s)
    else elim rest [ none ↦ none | some (before, after) ↦ some (String.◌∷◌ x before, after) ]

-- What stands before and after the last one.
unfoldable pub cut_last : ℕ → String → Option (String × String)
cut_last c String.[] = none
cut_last c (String.◌∷◌ x s) = elim (cut_last c s) [
  | some (before, after) ↦ some (String.◌∷◌ x before, after)
  | none ↦ if eqb (code x) c then some ("", s) else none
]

unfoldable pub all_chars : (ℕ → Bool) → String → Bool
all_chars p String.[] = true
all_chars p (String.◌∷◌ x s) = p (code x) && all_chars p s

-- The class of the upload's id: letters, digits, and the signs + _ . -
abbrev pub id_char : ℕ → Bool
id_char c =
    (leb 97 c && leb c 122)
    || (leb 65 c && leb c 90)
    || (leb 48 c && leb c 57)
    || eqb c 43
    || eqb c 95
    || eqb c 46
    || eqb c 45

abbrev after_scheme : String → Option String
after_scheme s = elim (drop_prefix "https://" s) [
  | some rest ↦ some rest
  | none ↦ drop_prefix "http://" s
]

abbrev pub slash : ℕ
slash = 47

abbrev pub is_id : String → Bool
is_id s = leb 32 (count s) && all_chars id_char s

-- `.` does not match the end of a line.
abbrev path_of : String → String → Option FileLocation
path_of server rest = elim (cut_last slash rest) [
  | none ↦ none
  | some (path, id) ↦
      if (not (path == "") && all_chars (λ c. not (eqb c 10)) path) && is_id id
      then some (record { server = server; upload_id = id })
      else none
]

-- reFilePathURL.FindStringSubmatch
unfoldable pub match_location : String → Option FileLocation
match_location s = elim (after_scheme s) [
  | none ↦ none
  | some rest ↦ elim (cut_first slash rest) [
    | none ↦ none
    | some (server, path) ↦ if server == "" then none else path_of server path
  ]
]

-- parseFilePath
unfoldable pub parse_file_path : String → Result FileLocation
parse_file_path s = elim (match_location s) [
  | none ↦ err (plain ("invalid file location: " ++ s))
  | some location ↦ ok location
]

parse_file_path_test :
    parse_file_path "https://u.odysee.tv/uploads/0123456789abcdef0123456789abcdef+x"
    ≡ ok (record { server = "u.odysee.tv"; upload_id = "0123456789abcdef0123456789abcdef+x" })
unfolding parse_file_path match_location cut_first cut_last all_chars
parse_file_path_test = refl
