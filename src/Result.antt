-- ===== src/Result.antt =====
-- Python's exceptions as values: the classes that the handlers of p2p/wireguard-p2p/linux/p2p_agent.py
-- and p2p/wireguard-p2p/vps/peers_api.py tell apart. The messages are not modelled.
use wireguard_p2p.Base.{
  ◌≡◌, refl, sym, ap, subst, ◌⊎◌, inl, inr, Bool, true, false, Option, none, some,
}

pub data Error : Type 0 where
  permission_error value_error key_error type_error runtime_error os_error struct_error : Error

-- `err e`: the exception `e` was raised.
pub data Result {ℓ} (Value : Type ℓ) : Type ℓ where
  err : Error → Result Value
  ok : Value → Result Value

-- `if not test: raise problem`
abbrev pub guard : (test : Bool) (problem : Error) → Result (Unit {0})
guard false problem = err problem
guard true problem = ok tt

module _ {ℓ} {Value : Type ℓ} where
  -- `if found is None: raise problem`
  abbrev pub or_raise : Option Value → Error → Result Value
  or_raise (some found) problem = ok found
  or_raise none problem = err problem

  -- `try: ... except: return None`
  abbrev pub to_option : Result Value → Option Value
  to_option (err problem) = none
  to_option (ok value) = some value

infixl 5 ◌>>=◌ ◌>>◌
-- One statement after another; the first that raises ends the block.
abbrev pub ◌>>=◌ {ℓ κ} :
    {Value : Type ℓ} {Next : Type κ} → Result Value → (Value → Result Next) → Result Next
err problem >>= next = err problem
ok value >>= next = next value

abbrev pub ◌>>◌ {κ} : {Next : Type κ} → Result (Unit {0}) → Result Next → Result Next
check >> rest = check >>= λ done. rest

module _ {ℓ} {A : Type ℓ} where
  -- To split on a computed result and keep the equation.
  pub Result-cases : (r : Result A) → ((a : A) × (r ≡ ok a)) ⊎ ((e : Error) × (r ≡ err e))
  Result-cases (ok a) = inl (a, refl)
  Result-cases (err e) = inr (e, refl)

  abbrev ok_or : A → Result A → A
  ok_or d (ok a) = a
  ok_or d (err e) = d

  pub ok-injective : {a b : A} → ok a ≡ ok b → a ≡ b
  ok-injective {a} h = ap (ok_or a) h

  abbrev IsOk : Result A → Type 0
  IsOk (ok a) = Unit
  IsOk (err e) = ⊥

  pub err-ok : {e : Error} {a : A} → err e ≡ ok a → ⊥
  err-ok h = subst IsOk (sym h) tt

-- `m >>= f`, for long blocks of checks: it unfolds only where it is named.
unfoldable pub bind {ℓ κ} :
    {Value : Type ℓ} {Next : Type κ} → Result Value → (Value → Result Next) → Result Next
bind (err problem) next = err problem
bind (ok value) next = next value

-- Every value that a computation can return has the property.
pub record Ensures {ℓ κ} {A : Type ℓ} (P : A → Type κ) (r : Result A) : Type (ℓ ⊔ κ) where
  pub at : (a : A) → r ≡ ok a → P a

module _ {ℓ κ} {A : Type ℓ} (P : A → Type κ) where
  pub Ensures-bind {μ} :
      {B : Type μ} (m : Result B) (f : B → Result A)
      → ((b : B) → m ≡ ok b → Ensures P (f b))
      → Ensures P (bind m f)
  unfolding bind
  Ensures-bind (ok b) f h = h b refl
  Ensures-bind (err e) f h = record { at = λ a k. absurd (err-ok k) }

  pub Ensures-ok : (a : A) → P a → Ensures P (ok a)
  Ensures-ok a h = record { at = λ b e. subst P (ok-injective e) h }

  pub Ensures-err : (e : Error) → Ensures P (err e)
  Ensures-err e = record { at = λ a k. absurd (err-ok k) }
