-- ===== src/Coordinator/Updates.antt =====
-- `bootstrap_server_key` and `update_asset_path` of p2p/wireguard-p2p/vps/peers_api.py. Bytes that are
-- not ASCII are decoded, and links of the file system followed, by arguments.
pub mod Inside
use wireguard_p2p.Base.{
  ℕ, ◌+◌, ◌-◌, ◌*◌, Bool, true, false, not, ◌&&◌, ◌||◌, List, [], ◌∷◌, ◌++◌, Option, none, some,
  leb, ltb, ◌==◌, if◌then◌else◌,
}
use wireguard_p2p.Base.Lists.{length}
use wireguard_p2p.Base.Text.{Text, text, text_eq, is_empty, break_at, rbreak_at}
use wireguard_p2p.Result.{
  Result, ok, err, permission_error, value_error, runtime_error, ◌>>=◌, ◌>>◌, guard,
}
use wireguard_p2p.Coordinator.Registry.{member}

abbrev pub key_ok : Option Text → Result Text
key_ok none = err runtime_error
key_ok (some key) = if ltb (length key) 32 then err runtime_error else ok (key ++ 10 ∷ [])

-- `bootstrap_server_key(source_ip)`, with the addresses of the servers and the key.
unfoldable pub bootstrap_server_key : List Text → Option Text → Text → Result Text
unfolding member
bootstrap_server_key server_ips notify_key source_ip =
    guard (member source_ip server_ips) permission_error >> key_ok notify_key

-- `s.startswith(prefix)` and the rest
unfoldable pub after_prefix : Text → Text → Option Text
after_prefix [] s = some s
after_prefix (p ∷ ps) [] = none
after_prefix (p ∷ ps) (c ∷ s) = let rest = after_prefix ps s in if p == c then rest else none

hex_value : ℕ → Option ℕ
hex_value c =
    if leb b'0' c && leb c b'9'
    then some (c - 48)
    else if leb b'a' c && leb c b'f'
    then some (c - 87)
    else if leb b'A' c && leb c b'F'
    then some (c - 55)
    else none

-- The byte that two hexadecimal digits stand for.
hex_byte : ℕ → ℕ → Option ℕ
unfolding hex_value
hex_byte a b = elim (hex_value a) [
  | none ↦ none
  | some h ↦ elim (hex_value b) [ none ↦ none | some l ↦ some (h * 16 + l) ]
]

-- `unquote_to_bytes`, on ASCII: a percent sign without two digits stays.
unfoldable pub unquote_to_bytes : Text → List ℕ
unfolding hex_byte
unquote_to_bytes [] = []
unquote_to_bytes (c ∷ []) = c ∷ []
unquote_to_bytes (c ∷ a ∷ []) = c ∷ a ∷ []
unquote_to_bytes (c ∷ a ∷ b ∷ s) =
    let plain = c ∷ unquote_to_bytes (a ∷ b ∷ s) in
    let short = unquote_to_bytes s in
    if c == b'%' then (elim (hex_byte a b) [ none ↦ plain | some byte ↦ byte ∷ short ]) else plain

-- The runs of ASCII characters are decoded, the other characters stay: first the run that is open.
unquote_from : (List ℕ → Text) → Text → Text → Text
unfolding unquote_to_bytes
unquote_from decode run [] = decode (unquote_to_bytes run)
unquote_from decode run (c ∷ s) =
    let longer = unquote_from decode (run ++ c ∷ []) s in
    let closed = unquote_from decode [] s in
    if ltb c 128 then longer else decode (unquote_to_bytes run) ++ c ∷ closed

-- `urllib.parse.unquote(t)`
unfoldable pub unquote : (List ℕ → Text) → Text → Text
unfolding unquote_from
unquote decode t = unquote_from decode [] t

-- What stands before a character, or all of it.
abbrev before : ℕ → Text → Text
unfolding break_at
before c t = elim (break_at c t) [ none ↦ t | some (l, r) ↦ l ]

-- `os.path.basename(name)`
unfoldable pub basename : Text → Text
unfolding rbreak_at
basename name = elim (rbreak_at b'/' name) [ none ↦ name | some (l, r) ↦ r ]

-- `os.path.dirname(path)`, of an absolute path without doubled slashes
unfoldable pub dirname : Text → Text
unfolding rbreak_at
dirname path = elim (rbreak_at b'/' path) [
  | none ↦ []
  | some (l, r) ↦ if is_empty l then b'/' ∷ [] else l
]

unfoldable pub name_ok : Text → Bool
unfolding basename text_eq
name_ok name =
    not (is_empty name)
    && text_eq name (basename name)
    && not (text_eq name (text "."))
    && not (text_eq name (text ".."))

-- What stands outside: decoding, the directory of the updates, and links.
pub record Files : Type 0 where
  pub decode : List ℕ → Text
  pub update_dir : Text
  pub realpath : Text → Text

abbrev pub name_of : Files → Text → Result Text
unfolding after_prefix break_at unquote
name_of files request_path = elim (after_prefix (text "/updates/") request_path) [
  | none ↦ err value_error
  | some rest ↦ ok (unquote files.decode (before b'?' rest))
]

-- The accepted name is one directly in the directory, and no link leads out of it.
unfoldable pub update_asset_path : Files → Text → Result Text
unfolding after_prefix break_at unquote name_ok dirname text_eq
update_asset_path files request_path = do
  name ← name_of files request_path
  guard (name_ok name) value_error
  let root = files.realpath files.update_dir
  let candidate = files.realpath (root ++ b'/' ∷ name)
  guard (text_eq (dirname candidate) root) value_error
  ok candidate
