-- ===== src/Agent/Notify/Cache.antt =====
-- The cache of nonces in p2p/wireguard-p2p/linux/p2p_agent.py: its size, and what it remembers.
use wireguard_p2p.Base.{
  ℕ, suc, ◌≡◌, ◌≤◌, ◌<◌, refl, true, false, [], ◌∷◌, some, inl, inr, ltb, arith, is_some,
  if◌then◌else◌, Bool-cases,
}
use wireguard_p2p.Base.Clock.{seconds, older}
use wireguard_p2p.Base.Dict
use wireguard_p2p.Base.Dict.{Dict, get-put, get-put_self}
use wireguard_p2p.Base.Lists.{length}
use wireguard_p2p.Base.Text.{Text, text_eq_iff}
use wireguard_p2p.Result.{err, permission_error}
use wireguard_p2p.Agent.Notify.{
  nonce_ttl, max_seen_nonces, prune, oldest_from, drop_oldest, make_room, consume_nonce,
}

length-put : {V : Type 0} (k : Text) (v : V) (d : Dict V) → length (Dict.put k v d) ≤ suc (length d)
unfolding Dict.put
length-put k v [] = omega arith
length-put k v ((j, w) ∷ d) = ground (arith, length-put k v d)

length-remove : {V : Type 0} (k : Text) (d : Dict V) → length (Dict.remove k d) ≤ length d
unfolding Dict.remove
length-remove k [] = omega arith
length-remove k ((j, w) ∷ d) = ground (arith, length-remove k d)

length-remove_present :
    {V : Type 0} (k : Text) (d : Dict V)
    → is_some (Dict.get k d) ≡ true
    → length (Dict.remove k d) < length d
unfolding Dict.remove Dict.get
length-remove_present k [] h = cc
length-remove_present k ((j, w) ∷ d) h =
    ground (arith, length-remove k d, length-remove_present k d)

module _ (k n m : Text) (t s : ℕ) (d : Dict ℕ) where
  present-skip :
      is_some (Dict.get k ((m, s) ∷ d)) ≡ true → is_some (Dict.get k ((n, t) ∷ (m, s) ∷ d)) ≡ true
  unfolding Dict.get
  present-skip h = ground arith

  present-between :
      is_some (Dict.get k ((n, t) ∷ d)) ≡ true → is_some (Dict.get k ((n, t) ∷ (m, s) ∷ d)) ≡ true
  unfolding Dict.get
  present-between h = ground arith

oldest_present :
    (n : Text) (t : ℕ) (d : Dict ℕ) → is_some (Dict.get (oldest_from n t d) ((n, t) ∷ d)) ≡ true
unfolding oldest_from Dict.get
oldest_present n t [] = ground (arith, text_eq_iff n n)
oldest_present n t ((m, s) ∷ d) =
    elim (ltb s t)
      as (λ b.
        is_some
          (Dict.get (oldest_from (if b then m else n) (if b then s else t) d) ((n, t) ∷ (m, s) ∷ d))
        ≡ true) [
          | true ↦ present-skip (oldest_from m s d) n m t s d (oldest_present m s d)
          | false ↦ present-between (oldest_from n t d) n m t s d (oldest_present n t d)
        ]

length-prune : (now : ℕ) (d : Dict ℕ) → length (prune now d) ≤ length d
unfolding prune
length-prune now [] = omega arith
length-prune now ((n, t) ∷ d) = ground (arith, length-prune now d)

length-make_room :
    (d : Dict ℕ) → length d ≤ max_seen_nonces → length (make_room d) < max_seen_nonces
unfolding make_room drop_oldest
length-make_room [] h = ground arith
length-make_room ((n, t) ∷ d) h =
    ground (arith, length-remove_present (oldest_from n t d) ((n, t) ∷ d) (oldest_present n t d))

-- The cache of nonces never grows beyond its limit.
pub consume_nonce-bounded :
    (nonce : Text) (now : ℕ) (seen : Dict ℕ)
    → length seen ≤ max_seen_nonces
    → length (consume_nonce nonce now seen).1 ≤ max_seen_nonces
unfolding consume_nonce
consume_nonce-bounded nonce now seen h = ground (
  arith,
  length-prune now seen,
  length-make_room (prune now seen),
  length-put nonce now (make_room (prune now seen)),
)

get-prune :
    (n : Text) (now t : ℕ) (d : Dict ℕ)
    → Dict.get n d ≡ some t
    → older now t (seconds nonce_ttl) ≡ false
    → Dict.get n (prune now d) ≡ some t
unfolding prune Dict.get
get-prune n now t [] h k = cc
get-prune n now t ((m, s) ∷ d) h k = ground (arith, get-prune n now t d)

make_room_keeps : (d : Dict ℕ) → length d < max_seen_nonces → make_room d ≡ d
unfolding make_room
make_room_keeps d h = ground arith

module _ (n m : Text) (t now : ℕ) (seen : Dict ℕ) (known : Dict.get n seen ≡ some t)
    (recent : older now t (seconds nonce_ttl) ≡ false) where
  -- A nonce that is remembered and is not too old is refused.
  pub consume_nonce-known : (consume_nonce n now seen).0 ≡ err permission_error
  unfolding consume_nonce
  consume_nonce-known = rw (get-prune n now t seen known recent) refl

  -- Another nonce does not push it out while there is room.
  pub consume_nonce-keeps :
      length seen < max_seen_nonces → Dict.get n (consume_nonce m now seen).1 ≡ some t
  unfolding consume_nonce
  consume_nonce-keeps room = elim (Bool-cases (Dict.contains m (prune now seen))) [
    | inl e ↦ rw e (get-prune n now t seen known recent)
    | inr e ↦
        rw (e, make_room_keeps (prune now seen) (omega (arith, length-prune now seen)))
          (ground (
            arith,
            get-put n m now (prune now seen),
            get-prune n now t seen known recent,
            text_eq_iff m n,
          ))
  ]

pub consume_nonce-length :
    (m : Text) (now : ℕ) (seen : Dict ℕ)
    → length seen < max_seen_nonces
    → length (consume_nonce m now seen).1 ≤ suc (length seen)
unfolding consume_nonce
consume_nonce-length m now seen h = elim (Bool-cases (Dict.contains m (prune now seen))) [
  | inl e ↦ rw e (omega (arith, length-prune now seen))
  | inr e ↦
      rw (e, make_room_keeps (prune now seen) (omega (arith, length-prune now seen)))
        (omega (arith, length-prune now seen, length-put m now (prune now seen)))
]
