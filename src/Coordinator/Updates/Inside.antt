-- ===== src/Coordinator/Updates/Inside.antt =====
-- What `update_asset_path` of p2p/wireguard-p2p/vps/peers_api.py lets through.
use wireguard_p2p.Base.{
  ℕ, ◌≡◌, refl, sym, ap, true, false, [], ◌∷◌, ◌++◌, Option, none, some, arith, inl, inr,
  Bool-cases, Option-cases, ◌==◌,
}
use wireguard_p2p.Base.Text.{Text, text, text_eq, text_eq→eq, is_empty, has_char, rbreak_at}
use wireguard_p2p.Result.{ok, Result-cases, ok-injective, err-ok}
use wireguard_p2p.Coordinator.Updates.{
  Files, basename, dirname, name_ok, name_of, update_asset_path,
}

tail_of : Option (Text × Text) → Text
tail_of none = []
tail_of (some (l, r)) = r

abbrev cut : Text → Text → Option (Text × Text)
cut l r = some (l, r)

abbrev uncut : Option (Text × Text)
uncut = none

same_tail : (u v l r : Text) → cut u v ≡ cut l r → v ≡ r
unfolding tail_of
same_tail u v l r e = ap tail_of e

-- A text that does not break has no such character.
rbreak_at-missing : (c : ℕ) (s : Text) → rbreak_at c s ≡ none → has_char c s ≡ false
unfolding rbreak_at has_char
rbreak_at-missing c [] e = refl
rbreak_at-missing c (a ∷ s) e = elim (Option-cases (rbreak_at c s)) [
  | inr ((u, v), found) ↦ let no : cut (a ∷ u) v ≡ uncut = rw found at e in cc
  | inl missing ↦
      let rest = rbreak_at-missing c s missing in
      elim (Bool-cases (a == c)) [
        | inl hit ↦ let no : cut [] s ≡ uncut = rw (missing, hit) at e in cc
        | inr other ↦ rw (other, rest) refl
      ]
]

-- What stands behind the last one has none.
rbreak_at-tail : (c : ℕ) (s l r : Text) → rbreak_at c s ≡ some (l, r) → has_char c r ≡ false
unfolding rbreak_at
rbreak_at-tail c [] l r e = cc
rbreak_at-tail c (a ∷ s) l r e = elim (Option-cases (rbreak_at c s)) [
  | inr ((u, v), found) ↦
      let same : cut (a ∷ u) v ≡ cut l r = rw found at e in
      rw (← same_tail (a ∷ u) v l r same) (rbreak_at-tail c s u v found)
  | inl missing ↦ elim (Bool-cases (a == c)) [
    | inl hit ↦
        let same : cut [] s ≡ cut l r = rw (missing, hit) at e in
        rw (← same_tail [] s l r same) (rbreak_at-missing c s missing)
    | inr other ↦ let no : uncut ≡ cut l r = rw (missing, other) at e in cc
  ]
]

basename-no_char : (name : Text) → has_char b'/' (basename name) ≡ false
unfolding basename
basename-no_char name = elim (Option-cases (rbreak_at b'/' name)) [
  | inl missing ↦ rw (basename, missing) (rbreak_at-missing b'/' name missing)
  | inr ((l, r), found) ↦ rw (basename, found) (rbreak_at-tail b'/' name l r found)
]

-- An accepted path leads to a name directly in the directory of the updates: the name is what the
-- request's path decodes to, has no slash, and is not empty, `.` or `..`; and the path stays directly
-- in the directory when links are followed.
pub record IsInside (files : Files) (request_path path : Text) : Type 0 where
  pub name : Text
  pub decoded : name_of files request_path ≡ ok name
  pub flat : has_char b'/' name ≡ false
  pub named : is_empty name ≡ false
  pub not_here : text_eq name (text ".") ≡ false
  pub not_above : text_eq name (text "..") ≡ false
  pub resolved : path ≡ files.realpath (files.realpath files.update_dir ++ b'/' ∷ name)
  pub direct : dirname path ≡ files.realpath files.update_dir

name_ok-parts :
    (name : Text)
    → name_ok name ≡ true
    → (is_empty name ≡ false)
      × (text_eq name (basename name) ≡ true)
      × (text_eq name (text ".") ≡ false)
      × (text_eq name (text "..") ≡ false)
unfolding name_ok
name_ok-parts name h = (ground arith, ground arith, ground arith, ground arith)

pub update_asset_path-IsInside :
    (files : Files) (request_path path : Text)
    → update_asset_path files request_path ≡ ok path
    → IsInside files request_path path
unfolding update_asset_path
update_asset_path-IsInside files request_path path e =
    elim (Result-cases (name_of files request_path)) [
      | inr (problem, failed) ↦ absurd (err-ok (rw failed at e))
      | inl (name, decoded) ↦ elim (Bool-cases (name_ok name)) [
        | inr bad ↦ absurd (err-ok (rw (decoded, bad) at e))
        | inl good ↦
            let root = files.realpath files.update_dir in
            elim (Bool-cases (text_eq (dirname (files.realpath (root ++ b'/' ∷ name))) root)) [
              | inr out ↦ absurd (err-ok (rw (decoded, good, out) at e))
              | inl within ↦
                  let same : files.realpath (root ++ b'/' ∷ name) ≡ path =
                    ok-injective (rw (decoded, good, within) at e) in
                  let (named, base, not_here, not_above) = name_ok-parts name good in
                  record {
                    name = name;
                    decoded = decoded;
                    flat = rw (text_eq→eq name (basename name) base) (basename-no_char name);
                    named = named;
                    not_here = not_here;
                    not_above = not_above;
                    resolved = sym same;
                    direct = rw (← same) (text_eq→eq _ root within);
                  }
            ]
      ]
    ]
