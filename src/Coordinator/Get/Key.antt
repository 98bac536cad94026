-- ===== src/Coordinator/Get/Key.antt =====
-- To whom `do_GET` of p2p/wireguard-p2p/vps/peers_api.py gives the key of the notifications.
use wireguard_p2p.Base.{
  ℕ, ◌≡◌, ◌≤◌, refl, sym, ap, ◌∙◌, true, List, [], ◌∷◌, ◌++◌, Option, none, some, arith, inl, inr,
  Bool-cases, ltb, is_some, some-injective,
}
use wireguard_p2p.Base.Lists.{length}
use wireguard_p2p.Base.Text.{Text, text, text_eq}
use wireguard_p2p.Result.{
  Result, ok, err, ok-injective, err-ok, permission_error, value_error, key_error, type_error,
  runtime_error, os_error, struct_error,
}
use wireguard_p2p.Peers.{PeerInfo}
use wireguard_p2p.Coordinator.{Coordinator}
use wireguard_p2p.Coordinator.Registry.{member}
use wireguard_p2p.Coordinator.Updates.{bootstrap_server_key, key_ok, after_prefix}
use wireguard_p2p.Coordinator.Get.{
  Get, Answer, server_key, answer_key, answer_asset, send_update_file, answer_peers, answer_health,
  get_other, do_get, update_max_file_size,
}

-- The key that an answer gives away.
abbrev pub key_of : Answer → Option Text
key_of (server_key key) = some key
key_of other = none

-- The key of the servers, which is long enough, and a line end.
pub record IsEarned (g : Get) (key : Text) : Type 0 where
  pub registered : member g.client_address g.server_ips ≡ true
  pub secret : Text
  pub loaded : g.notify_key ≡ some secret
  pub long : 32 ≤ length secret
  pub same : key ≡ secret ++ 10 ∷ []

key_ok_lem :
    (o : Option Text) (key : Text)
    → key_ok o ≡ ok key
    → (secret : Text) × (o ≡ some secret) × (32 ≤ length secret) × (key ≡ secret ++ 10 ∷ [])
key_ok_lem none key e = absurd (err-ok e)
key_ok_lem (some secret) key e = elim (Bool-cases (ltb (length secret) 32)) [
  | inl short ↦ absurd (err-ok (rw short at e))
  | inr long ↦ (secret, refl, ground arith, sym (ok-injective (rw long at e)))
]

earned :
    (g : Get) (key : Text)
    → bootstrap_server_key g.server_ips g.notify_key g.client_address ≡ ok key
    → IsEarned g key
unfolding bootstrap_server_key
earned g key e = elim (Bool-cases (member g.client_address g.server_ips)) [
  | inr stranger ↦ absurd (err-ok (rw stranger at e))
  | inl registered ↦
      let (secret, loaded, long, same) = key_ok_lem g.notify_key key (rw registered at e) in
      record { registered = registered; secret = secret; loaded = loaded; long = long; same = same }
]

sent-key : (path : Text) (r : Result ℕ) → key_of (send_update_file path r) ≡ none
sent-key path (err e) = refl
sent-key path (ok size) = elim (Bool-cases (ltb update_max_file_size size)) [
  | inl large ↦ rw large refl
  | inr fits ↦ rw fits refl
]

asset-key : (g : Get) (r : Result Text) → key_of (answer_asset g r) ≡ none
asset-key g (ok path) = elim (Bool-cases (g.is_file path)) [
  | inl there ↦ rw there (sent-key path (g.size_of path))
  | inr missing ↦ rw missing refl
]
asset-key g (err value_error) = refl
asset-key g (err permission_error) = refl
asset-key g (err key_error) = refl
asset-key g (err type_error) = refl
asset-key g (err runtime_error) = refl
asset-key g (err os_error) = refl
asset-key g (err struct_error) = refl

answered-key : (r : Result Text) (key : Text) → key_of (answer_key r) ≡ some key → r ≡ ok key
answered-key (ok k) key e = ap ok (some-injective e)
answered-key (err permission_error) key e = cc
answered-key (err value_error) key e = cc
answered-key (err key_error) key e = cc
answered-key (err type_error) key e = cc
answered-key (err runtime_error) key e = cc
answered-key (err os_error) key e = cc
answered-key (err struct_error) key e = cc

peers-key :
    (g : Get) (c : Coordinator) (r : Result (List PeerInfo)) → key_of (answer_peers g c r).0 ≡ none
unfolding answer_peers
peers-key g c (ok peers) = refl
peers-key g c (err e) = refl

health-key :
    (g : Get) (c : Coordinator) (r : Result (List PeerInfo)) → key_of (answer_health g c r) ≡ none
unfolding answer_health
health-key g c (ok peers) = refl
health-key g c (err e) = refl

other-key : (g : Get) (c : Coordinator) → key_of (get_other g c).0 ≡ none
unfolding get_other
other-key g c = elim (Bool-cases (is_some (after_prefix (text "/updates/") g.path))) [
  | inl update ↦ rw update (asset-key g _)
  | inr a ↦ elim (Bool-cases (text_eq g.path (text "/"))) [
    | inl root ↦ rw (a, root) (peers-key g c g.peers)
    | inr b ↦ elim (Bool-cases (text_eq g.path (text "/health"))) [
      | inl asked ↦ rw (a, b, asked) (health-key g c g.peers)
      | inr unknown ↦ rw (a, b, unknown) refl
    ]
  ]
]

-- Whatever is asked for, an answer that gives the key away goes to the address of a registered
-- server, and the key it gives is the loaded one, of 32 bytes at least, with a line end behind it.
pub do_get-IsEarned :
    (g : Get) (c : Coordinator) (key : Text) → key_of (do_get g c).0 ≡ some key → IsEarned g key
unfolding do_get
do_get-IsEarned g c key e = elim (Bool-cases (text_eq g.path (text "/bootstrap/server-key"))) [
  | inl asked ↦ earned g key (answered-key _ key (rw asked at e))
  | inr elsewhere ↦ let none_given : none ≡ some key = sym (other-key g c) ∙ rw elsewhere at e in cc
]
